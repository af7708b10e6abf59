-- ===== src/SynStream/Cursor.antt =====
-- The cursor of spdy_syn_stream_parse in src/spdy_syn_stream.c.
use spindly.Prelude.{
  ℕ, ◌^◌, ap, ◌+◌, ◌≤◌, ◌<◌, ◌≡◌, refl, done, ◌==◌, ltb, arith, le→ltb, Post, Post-bind,
  Post-bind_any, Post-if, Post-done, if◌then◌else◌,
}
use spindly.Codes.{Code, ok, failed_ne, succeeded}
use spindly.Bytes.{load_8, be_load_32}
use spindly.SpdyData.{SpdyData, available, at_cursor, advance}
use spindly.Zlib.{Zlib}
use spindly.NvBlock.{spdy_nv_block_init}
use spindly.Hash.{hash_get}
use spindly.Env.{Env}
use spindly.NvInflate.{spdy_nv_block_inflate_parse}
use spindly.SynStream.{
  SynStream, min_length, header_min_length, spdy_syn_stream_parse_header, advance_payload,
  parse_block, spdy_syn_stream_parse,
}

pub advance_3 :
    (d : SpdyData) (a b c : ℕ) → advance (advance (advance d a) b) c ≡ advance d (a + b + c)
advance_3 d a b c = ap (λ n. record d { cursor = n }) (omega arith)

-- A parsed header leaves the cursor ten bytes further.
pub header_advances :
    (syn : SynStream) (d : SpdyData)
    → header_min_length ≤ available d
    → Post (λ r. r.2 ≡ advance d 10) (spdy_syn_stream_parse_header syn d)
unfolding spdy_syn_stream_parse_header
header_advances syn d enough =
    let P = λ (r : Code × SynStream × SpdyData). r.2 ≡ advance d 10 in
    rw (le→ltb (available d) header_min_length enough) (
      Post-bind_any P (be_load_32 (at_cursor d)) _ (λ id.
        Post-bind_any P (be_load_32 (at_cursor (advance d 4))) _ (λ associated.
          Post-bind_any P (load_8 (at_cursor (advance (advance d 4) 4))) _
            (λ prio. advance_3 d 4 4 2))))

-- The frame's length counts its header.
pub advance-advance_payload :
    (d : SpdyData) (n h : ℕ)
    → h ≤ 10
    → n < 2 ^ 32
    → advance_payload (advance d h) n h ≡ advance d (if ltb n h then n + 2 ^ 32 else n)
advance-advance_payload d n h small below = ap (λ c. record d { cursor = c }) (ground arith)

-- A success had the whole frame and passed it.
abbrev IsPast : SpdyData → ℕ → Code → SpdyData → Type 0
IsPast d n rc d' =
    rc ≡ ok
    → (n ≤ available d)
      × (min_length ≤ available d)
      × (d' ≡ advance d (if ltb n header_min_length then n + 2 ^ 32 else n))

parse-IsPast :
    (z : Zlib) (syn : SynStream) (d : SpdyData) (n : ℕ) (env : Env (z.Strm))
    → n < 2 ^ 32
    → Post (λ r. IsPast d n r.0 r.2) (spdy_syn_stream_parse z syn d n env)
unfolding spdy_syn_stream_parse parse_block
parse-IsPast z syn d n env below =
    let P = λ (r : Code × SynStream × SpdyData × Env (z.Strm)). IsPast d n r.0 r.2 in
    Post-if P (ltb (available d) n) _ _ (λ _ e. cc)
      (λ complete.
        Post-if P (ltb (available d) min_length) _ _ (λ _ e. cc)
          (λ enough.
            Post-bind (λ r. r.2 ≡ advance d 10) P (spdy_syn_stream_parse_header syn d) _
              (header_advances syn d (ground arith))
              (λ h moved.
                Post-if P (succeeded h.0) _ _
                  (λ _.
                    Post-bind_any P (hash_get env.rounds env.store env.streamhash (h.1).stream_id) _
                      (λ hn.
                        Post-if P (hn == 0) _ _
                          (λ _.
                            Post-bind_any P
                              (spdy_nv_block_inflate_parse z spdy_nv_block_init (at_cursor h.2) n
                                env)
                              _
                              (λ r.
                                Post-if P (succeeded r.0) _ _
                                  (λ _ e. (
                                    ground arith,
                                    ground arith,
                                    rw moved (advance-advance_payload d n 10 (omega arith) below),
                                  ))
                                  (λ no e. absurd (failed_ne r.0 no e))))
                          (λ _ e. cc)))
                  (λ no e. absurd (failed_ne h.0 no e)))))

-- Whenever a SYN_STREAM is parsed with success, the frame and at least twelve bytes had been received, and the
-- cursor has moved by the frame's length from the start of the payload. A length below ten, which is not
-- refused, moves it by 2^32 more.
pub spdy_syn_stream_parse-cursor :
    (z : Zlib) (syn syn' : SynStream) (d d' : SpdyData) (n : ℕ) (env env' : Env (z.Strm))
    → n < 2 ^ 32
    → spdy_syn_stream_parse z syn d n env ≡ done (ok, syn', d', env')
    → (n ≤ available d)
      × (min_length ≤ available d)
      × (d' ≡ advance d (if ltb n header_min_length then n + 2 ^ 32 else n))
spdy_syn_stream_parse-cursor z syn syn' d d' n env env' below e =
    Post-done (λ r. IsPast d n r.0 r.2) (spdy_syn_stream_parse z syn d n env) (ok, syn', d', env')
      (parse-IsPast z syn d n env below) e refl
