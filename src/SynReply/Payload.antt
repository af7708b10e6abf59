-- ===== src/SynReply/Payload.antt =====
-- spdy_syn_reply_parse of src/spdy_syn_reply.c: the cursor, and the compressed block.
use spindly.Prelude.{
  ℕ, ◌+◌, ◌≤◌, ◌<◌, ◌≡◌, ◌^◌, refl, done, ltb, arith, le→ltb, Post, Post-bind, Post-bind_any,
  Post-if, Post-done, if◌then◌else◌,
}
use spindly.Codes.{Code, ok, succeeded, failed_ne}
use spindly.Bytes.{be_load_32}
use spindly.SpdyData.{SpdyData, available, at_cursor, advance}
use spindly.Zlib.{Zlib}
use spindly.NvBlock.{spdy_nv_block_init}
use spindly.Env.{Env}
use spindly.NvInflate.{spdy_nv_block_inflate_parse}
use spindly.SynStream.Cursor.{advance-advance_payload}
use spindly.SynReply.{
  SynReply, min_length, header_min_length, spdy_syn_reply_parse_header, parse_block,
  spdy_syn_reply_parse,
}

-- A parsed header leaves the cursor six bytes further.
reply_header_advances :
    (rep : SynReply) (d : SpdyData)
    → header_min_length ≤ available d
    → Post (λ r. r.2 ≡ advance d 6) (spdy_syn_reply_parse_header rep d)
unfolding spdy_syn_reply_parse_header
reply_header_advances rep d enough =
    let P = λ (r : Code × SynReply × SpdyData). r.2 ≡ advance d 6 in
    rw (le→ltb (available d) header_min_length enough)
      (Post-bind_any P (be_load_32 (at_cursor d)) _ (λ id. refl))

-- A success had at least the shortest reply and passed the frame.
abbrev IsPast : SpdyData → ℕ → Code → SpdyData → Type 0
IsPast d n rc d' =
    rc ≡ ok
    → (min_length ≤ available d)
      × (d' ≡ advance d (if ltb n header_min_length then n + 2 ^ 32 else n))

reply_parse-IsPast :
    (z : Zlib) (rep : SynReply) (d : SpdyData) (n : ℕ) (env : Env (z.Strm))
    → n < 2 ^ 32
    → Post (λ r. IsPast d n r.0 r.2) (spdy_syn_reply_parse z rep d n env)
unfolding spdy_syn_reply_parse parse_block
reply_parse-IsPast z rep d n env below =
    let P = λ (r : Code × SynReply × SpdyData × Env (z.Strm)). IsPast d n r.0 r.2 in
    Post-if P (ltb (available d) min_length) _ _ (λ _ e. cc)
      (λ enough.
        Post-bind (λ r. r.2 ≡ advance d 6) P (spdy_syn_reply_parse_header rep d) _
          (reply_header_advances rep d (ground arith))
          (λ h moved.
            Post-if P (succeeded h.0) _ _
              (λ _.
                Post-bind_any P
                  (spdy_nv_block_inflate_parse z spdy_nv_block_init (at_cursor h.2) n env) _
                  (λ r.
                    Post-if P (succeeded r.0) _ _
                      (λ _ e. (
                        ground arith,
                        rw moved (advance-advance_payload d n 6 (omega arith) below),
                      ))
                      (λ no e. absurd (failed_ne r.0 no e))))
              (λ no e. absurd (failed_ne h.0 no e))))

-- Whenever a SYN_REPLY is parsed with success, at least eight bytes had been received, and the cursor has
-- moved by the frame's length from the start of the payload. A length below six, which is not refused, moves
-- it by 2^32 more.
pub spdy_syn_reply_parse-cursor :
    (z : Zlib) (rep rep' : SynReply) (d d' : SpdyData) (n : ℕ) (env env' : Env (z.Strm))
    → n < 2 ^ 32
    → spdy_syn_reply_parse z rep d n env ≡ done (ok, rep', d', env')
    → (min_length ≤ available d)
      × (d' ≡ advance d (if ltb n header_min_length then n + 2 ^ 32 else n))
spdy_syn_reply_parse-cursor z rep rep' d d' n env env' below e =
    Post-done (λ r. IsPast d n r.0 r.2) (spdy_syn_reply_parse z rep d n env) (ok, rep', d', env')
      (reply_parse-IsPast z rep d n env below) e refl
