-- ===== src/ControlFrame/Supply.antt =====
-- src/spdy_control_frame.c and the allocator: which answers packing a frame leaves.
use spindly.Prelude.{ℕ, List, ◌∷◌, ◌^◌, ◌+◌, ◌-◌, ◌%◌, ltb, ◌==◌, length, Post, Post-bind, Post-if}
use spindly.Codes.{succeeded}
use spindly.Bytes.{be_store_16}
use spindly.Memory.{Answers}
use spindly.Zlib.{Zlib, spdy_zlib_deflate}
use spindly.Zlib.Supply.{spdy_zlib_deflate-Answers}
use spindly.SynStream.{pack_empty_block, spdy_syn_stream_pack}
use spindly.SynReply.{spdy_syn_reply_pack}
use spindly.ControlFrame.{
  ControlFrame, ctrl_syn_stream, ctrl_syn_reply, pack_payload, spdy_control_frame_pack,
  spdy_control_frame_pack_header,
}

module _ (z : Zlib) (Q : Answers → Type 0) (tail : (p : ℕ) (m : Answers) → Q (p ∷ m) → Q m) where
  pack_empty_block-Answers :
      (header : List ℕ) (bufsize limit outsize : ℕ) (memory : Answers)
      → Q memory
      → Post (λ r. Q r.3) (pack_empty_block z header bufsize limit outsize memory)
  unfolding pack_empty_block
  pack_empty_block-Answers header bufsize limit outsize memory q =
      Post-bind (λ d. Q d.memory) (λ r. Q r.3) (spdy_zlib_deflate z (be_store_16 0) 2 0 memory) _
        (spdy_zlib_deflate-Answers z Q tail (be_store_16 0) 2 0 memory q)
        (λ d h.
          Post-if (λ r. Q r.3) (succeeded d.code) _ _
            (λ _. Post-if (λ r. Q r.3) (ltb bufsize (limit + length d.dest)) _ _ (λ _. h) (λ _. h))
            (λ _. h))

  pack_payload-Answers :
      (bufsize : ℕ) (frame : ControlFrame) (memory : Answers)
      → Q memory
      → Post (λ r. Q r.3) (pack_payload z bufsize frame memory)
  unfolding pack_payload spdy_syn_stream_pack spdy_syn_reply_pack
  pack_payload-Answers bufsize frame memory q =
      Post-if (λ r. Q r.3) (frame.type == ctrl_syn_stream) _ _
        (λ _.
          Post-if (λ r. Q r.3) (ltb bufsize 10) _ _ (λ _. q)
            (λ _. pack_empty_block-Answers _ bufsize 10 10 memory q))
        (λ _.
          Post-if (λ r. Q r.3) (frame.type == ctrl_syn_reply) _ _
            (λ _.
              Post-if (λ r. Q r.3) (ltb bufsize 6) _ _ (λ _. q)
                (λ _. pack_empty_block-Answers _ bufsize 10 6 memory q))
            (λ _. tt))

  pub spdy_control_frame_pack-Answers :
      (bufsize : ℕ) (frame : ControlFrame) (memory : Answers)
      → Q memory
      → Post (λ r. Q r.3) (spdy_control_frame_pack z bufsize frame memory)
  unfolding spdy_control_frame_pack
  spdy_control_frame_pack-Answers bufsize frame memory q =
      let packed = spdy_control_frame_pack_header bufsize frame in
      Post-if (λ r. Q r.3) (ltb bufsize ((8 + frame.length) % 2 ^ 32)) _ _ (λ _. q)
        (λ _.
          Post-if (λ r. Q r.3) (succeeded packed.0) _ _
            (λ _.
              Post-bind (λ r. Q r.3) (λ r. Q r.3) (pack_payload z (bufsize - packed.2) frame memory)
                _ (pack_payload-Answers (bufsize - packed.2) frame memory q)
                (λ r h. Post-if (λ r. Q r.3) (succeeded r.0) _ _ (λ _. h) (λ _. h)))
            (λ _. q))
