-- ===== src/Frame/Supply.antt =====
-- The payload parsers, and what they may change of a connection.
use spindly.Prelude.{
  ℕ, ◌≡◌, refl, List, ◌∷◌, Option, none, some, ltb, ◌==◌, Post, Post-bind, Post-bind_any, Post-if,
}
use spindly.Codes.{succeeded}
use spindly.Memory.{Answers}
use spindly.SpdyData.{SpdyData, available, at_cursor}
use spindly.Zlib.{Zlib, spdy_zlib_inflate}
use spindly.Zlib.Supply.{spdy_zlib_inflate-Answers}
use spindly.NvBlock.{NvBlock, spdy_nv_block_init, spdy_nv_block_parse}
use spindly.NvBlock.Supply.{spdy_nv_block_parse-Answers}
use spindly.Hash.{hash_get}
use spindly.Env.{Env}
use spindly.NvInflate.{inflate_parse_at, spdy_nv_block_inflate_parse}
use spindly.SynStream
use spindly.SynStream.{SynStream, spdy_syn_stream_parse_header, spdy_syn_stream_parse}
use spindly.SynReply
use spindly.SynReply.{SynReply, spdy_syn_reply_parse_header, spdy_syn_reply_parse}
use spindly.Headers
use spindly.Headers.{Headers, spdy_headers_parse_header, spdy_headers_parse}

module _ (z : Zlib) (Q : Answers → Type 0) (tail : (p : ℕ) (m : Answers) → Q (p ∷ m) → Q m) where
  open z use {Strm}

  abbrev pub Kept : Env Strm → Env Strm → Type 0
  Kept env env' = Q env'.memory × (env'.store ≡ env.store)

  inflated :
      (strm : Strm) (bytes : List ℕ) (n : ℕ) (memory : Answers)
      → Q memory
      → Post (λ r. Q r.memory) (spdy_zlib_inflate z strm bytes n memory)
  inflated strm bytes n memory q = spdy_zlib_inflate-Answers z Q tail strm bytes n memory q

  inflate_parse-Kept :
      (block : NvBlock) (bytes : List ℕ) (n : ℕ) (env : Env Strm)
      → Q env.memory
      → Post (λ r. Kept env r.2) (spdy_nv_block_inflate_parse z block bytes n env)
  unfolding spdy_nv_block_inflate_parse
  inflate_parse-Kept block bytes n env q =
      Post-bind (λ r. Q r.memory) (λ r. Kept env r.2)
        (spdy_zlib_inflate z env.zlib_in bytes n env.memory) _
        (inflated env.zlib_in bytes n env.memory q)
        (λ r h.
          Post-if (λ r. Kept env r.2) (succeeded r.code) _ _
            (λ _.
              Post-bind (λ r. Q r.2) (λ r. Kept env r.2) (spdy_nv_block_parse block r.dest r.memory)
                _ (spdy_nv_block_parse-Answers Q tail block r.dest r.memory h)
                (λ r' h'. (h', refl)))
            (λ _. (h, refl)))

  inflate_parse_at-Kept :
      (block : Option NvBlock) (bytes : List ℕ) (n : ℕ) (env : Env Strm)
      → Q env.memory
      → Post (λ r. Kept env r.2) (inflate_parse_at z block bytes n env)
  unfolding inflate_parse_at
  inflate_parse_at-Kept none bytes n env q =
      Post-bind (λ r. Q r.memory) (λ r. Kept env r.2)
        (spdy_zlib_inflate z env.zlib_in bytes n env.memory) _
        (inflated env.zlib_in bytes n env.memory q)
        (λ r h. Post-if (λ r. Kept env r.2) (succeeded r.code) _ _ (λ _. tt) (λ _. (h, refl)))
  inflate_parse_at-Kept (some block) bytes n env q =
      Post-bind (λ r. Q r.memory) (λ r. Kept env r.2)
        (spdy_zlib_inflate z env.zlib_in bytes n env.memory) _
        (inflated env.zlib_in bytes n env.memory q)
        (λ r h.
          Post-if (λ r. Kept env r.2) (succeeded r.code) _ _
            (λ _.
              Post-bind (λ r. Q r.2) (λ r. Kept env r.2) (spdy_nv_block_parse block r.dest r.memory)
                _ (spdy_nv_block_parse-Answers Q tail block r.dest r.memory h)
                (λ r' h'. (h', refl)))
            (λ _. (h, refl)))

  pub syn_stream_parse-Kept :
      (syn : SynStream) (d : SpdyData) (n : ℕ) (env : Env Strm)
      → Q env.memory
      → Post (λ r. Kept env r.3) (spdy_syn_stream_parse z syn d n env)
  unfolding spdy_syn_stream_parse SynStream.parse_block
  syn_stream_parse-Kept syn d n env q =
      Post-if (λ r. Kept env r.3) (ltb (available d) n) _ _ (λ _. (q, refl))
        (λ _.
          Post-if (λ r. Kept env r.3) (ltb (available d) SynStream.min_length) _ _ (λ _. (q, refl))
            (λ _.
              Post-bind_any (λ r. Kept env r.3) (spdy_syn_stream_parse_header syn d) _
                (λ h.
                  Post-if (λ r. Kept env r.3) (succeeded h.0) _ _
                    (λ _.
                      Post-bind_any (λ r. Kept env r.3)
                        (hash_get env.rounds env.store env.streamhash (h.1).stream_id) _
                        (λ hn.
                          Post-if (λ r. Kept env r.3) (hn == 0) _ _
                            (λ _.
                              Post-bind (λ r. Kept env r.2) (λ r. Kept env r.3)
                                (spdy_nv_block_inflate_parse z spdy_nv_block_init (at_cursor h.2) n
                                  env)
                                _ (inflate_parse-Kept spdy_nv_block_init (at_cursor h.2) n env q)
                                (λ r k.
                                  Post-if (λ r. Kept env r.3) (succeeded r.0) _ _ (λ _. k)
                                    (λ _. k)))
                            (λ _. (q, refl))))
                    (λ _. (q, refl)))))

  pub syn_reply_parse-Kept :
      (rep : SynReply) (d : SpdyData) (n : ℕ) (env : Env Strm)
      → Q env.memory
      → Post (λ r. Kept env r.3) (spdy_syn_reply_parse z rep d n env)
  unfolding spdy_syn_reply_parse SynReply.parse_block
  syn_reply_parse-Kept rep d n env q =
      Post-if (λ r. Kept env r.3) (ltb (available d) SynReply.min_length) _ _ (λ _. (q, refl))
        (λ _.
          Post-bind_any (λ r. Kept env r.3) (spdy_syn_reply_parse_header rep d) _
            (λ h.
              Post-if (λ r. Kept env r.3) (succeeded h.0) _ _
                (λ _.
                  Post-bind (λ r. Kept env r.2) (λ r. Kept env r.3)
                    (spdy_nv_block_inflate_parse z spdy_nv_block_init (at_cursor h.2) n env) _
                    (inflate_parse-Kept spdy_nv_block_init (at_cursor h.2) n env q)
                    (λ r k. Post-if (λ r. Kept env r.3) (succeeded r.0) _ _ (λ _. k) (λ _. k)))
                (λ _. (q, refl))))

  pub headers_parse-Kept :
      (headers : Headers) (d : SpdyData) (n : ℕ) (env : Env Strm)
      → Q env.memory
      → Post (λ r. Kept env r.3) (spdy_headers_parse z headers d n env)
  unfolding spdy_headers_parse Headers.parse_block
  headers_parse-Kept headers d n env q =
      Post-if (λ r. Kept env r.3) (ltb (available d) Headers.min_length) _ _ (λ _. (q, refl))
        (λ _.
          Post-bind_any (λ r. Kept env r.3) (spdy_headers_parse_header headers d) _
            (λ h.
              Post-if (λ r. Kept env r.3) (succeeded h.0) _ _
                (λ _.
                  Post-bind (λ r. Kept env r.2) (λ r. Kept env r.3)
                    (inflate_parse_at z (h.1).nv_block (at_cursor h.2) n env) _
                    (inflate_parse_at-Kept (h.1).nv_block (at_cursor h.2) n env q)
                    (λ r k. Post-if (λ r. Kept env r.3) (succeeded r.0) _ _ (λ _. k) (λ _. k)))
                (λ _. (q, refl))))
