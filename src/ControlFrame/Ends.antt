-- ===== src/ControlFrame/Ends.antt =====
-- The loops behind making, packing and destroying a control frame (src/spdy_control_frame.c).
use spindly.Prelude.{
  ℕ, ◌+◌, ◌-◌, ◌%◌, ◌^◌, ◌≢◌, List, none, spin, ltb, ◌==◌, length, >>=-ne-spin, if-ne-spin,
  done-ne-spin,
}
use spindly.Codes.{succeeded}
use spindly.Bytes.{be_store_16}
use spindly.Memory.{Answers}
use spindly.Zlib.{Zlib, spdy_zlib_deflate}
use spindly.Zlib.Loops.{spdy_zlib_deflate-ne-spin}
use spindly.NvBlock.Ends.{spdy_nv_block_destroy-ne-spin}
use spindly.SynStream.{spdy_syn_stream_init, pack_empty_block, spdy_syn_stream_pack}
use spindly.SynReply.{spdy_syn_reply_pack}
use spindly.ControlFrame.{
  ControlFrame, ctrl_syn_stream, ctrl_syn_reply, spdy_control_frame_pack_header, pack_payload,
  spdy_control_frame_pack, spdy_control_frame_destroy, spdy_control_mk_syn_stream,
}

module _ (z : Zlib) where
  pack_empty_block-ne-spin :
      (header : List ℕ) (bufsize limit outsize : ℕ) (memory : Answers)
      → pack_empty_block z header bufsize limit outsize memory ≢ spin
  unfolding pack_empty_block
  pack_empty_block-ne-spin header bufsize limit outsize memory =
      >>=-ne-spin (spdy_zlib_deflate z (be_store_16 0) 2 0 memory) _
        (spdy_zlib_deflate-ne-spin z (be_store_16 0) 2 0 memory)
        (λ r.
          if-ne-spin (succeeded r.code) _ _
            (if-ne-spin (ltb bufsize (limit + length r.dest)) _ _ done-ne-spin done-ne-spin)
            done-ne-spin)

  pack_payload-ne-spin :
      (bufsize : ℕ) (frame : ControlFrame) (memory : Answers)
      → pack_payload z bufsize frame memory ≢ spin
  unfolding pack_payload spdy_syn_stream_pack spdy_syn_reply_pack
  pack_payload-ne-spin bufsize frame memory =
      if-ne-spin (frame.type == ctrl_syn_stream) _ _
        (if-ne-spin (ltb bufsize 10) _ _ done-ne-spin
          (pack_empty_block-ne-spin _ bufsize 10 10 memory))
        (if-ne-spin (frame.type == ctrl_syn_reply) _ _
          (if-ne-spin (ltb bufsize 6) _ _ done-ne-spin
            (pack_empty_block-ne-spin _ bufsize 10 6 memory))
          (λ e. cc))

  pub spdy_control_frame_pack-ne-spin :
      (bufsize : ℕ) (frame : ControlFrame) (memory : Answers)
      → spdy_control_frame_pack z bufsize frame memory ≢ spin
  unfolding spdy_control_frame_pack
  spdy_control_frame_pack-ne-spin bufsize frame memory =
      let header = spdy_control_frame_pack_header bufsize frame in
      if-ne-spin (ltb bufsize ((8 + frame.length) % 2 ^ 32)) _ _ done-ne-spin (
        if-ne-spin (succeeded header.0) _ _
          (>>=-ne-spin (pack_payload z (bufsize - header.2) frame memory) _
            (pack_payload-ne-spin (bufsize - header.2) frame memory)
            (λ r. if-ne-spin (succeeded r.0) _ _ done-ne-spin done-ne-spin))
          done-ne-spin)

pub spdy_control_frame_destroy-ne-spin :
    (frame : ControlFrame) → spdy_control_frame_destroy frame ≢ spin
unfolding spdy_control_frame_destroy
spdy_control_frame_destroy-ne-spin frame =
    if-ne-spin (frame.type == ctrl_syn_stream) _ _
      (spdy_nv_block_destroy-ne-spin frame.obj.syn_stream.nv_block) done-ne-spin

pub spdy_control_mk_syn_stream-ne-spin :
    (stream_id associated_to prio : ℕ)
    → spdy_control_mk_syn_stream stream_id associated_to prio none ≢ spin
unfolding spdy_control_mk_syn_stream spdy_syn_stream_init
spdy_control_mk_syn_stream-ne-spin stream_id associated_to prio = done-ne-spin
