-- ===== src/Frame/Ends.antt =====
-- The loops below spdy_frame_parse of src/spdy_frame.c.
use spindly.Prelude.{
  ℕ, ◌≢◌, List, Option, none, some, spin, ltb, ◌==◌, >>=-ne-spin, if-ne-spin, done-ne-spin,
}
use spindly.Codes.{succeeded}
use spindly.Bytes.{load_8, be_load_16, be_load_32}
use spindly.Bytes.Laws.{load_8-ne-spin, be_load_16-ne-spin, be_load_32-ne-spin}
use spindly.Memory.{Answers, malloc, memcpy}
use spindly.Memory.Copies.{memcpy-ne-spin}
use spindly.SpdyData.{SpdyData, available, at_cursor, advance}
use spindly.Zlib.{Zlib, spdy_zlib_inflate}
use spindly.Zlib.Loops.{spdy_zlib_inflate-ne-spin}
use spindly.NvBlock.{NvBlock, spdy_nv_block_init, spdy_nv_block_parse}
use spindly.NvBlock.Ends.{spdy_nv_block_parse-ne-spin}
use spindly.Hash.{hash_get}
use spindly.Env.{Env}
use spindly.NvInflate.{inflate_parse_at, spdy_nv_block_inflate_parse}
use spindly.RstStream.{RstStream, spdy_rst_stream_parse}
use spindly.SynStream
use spindly.SynStream.{SynStream, spdy_syn_stream_parse_header, spdy_syn_stream_parse}
use spindly.SynReply
use spindly.SynReply.{SynReply, spdy_syn_reply_parse_header, spdy_syn_reply_parse}
use spindly.Headers
use spindly.Headers.{Headers, spdy_headers_parse_header, spdy_headers_parse}
use spindly.ControlFrame
use spindly.ControlFrame.{
  ControlFrame, ctrl_syn_stream, ctrl_syn_reply, ctrl_rst_stream, ctrl_headers, parse_payload,
  spdy_control_frame_parse_header, spdy_control_frame_parse,
}
use spindly.DataFrame
use spindly.DataFrame.{DataFrame, spdy_data_frame_parse_header, spdy_data_frame_parse}
use spindly.Frame.{Frame, is_control, begin_frame, spdy_frame_parse_header, spdy_frame_parse}

rst_stream-ne-spin :
    (rst : RstStream) (bytes : List ℕ) (n : ℕ) → spdy_rst_stream_parse rst bytes n ≢ spin
unfolding spdy_rst_stream_parse
rst_stream-ne-spin rst bytes n =
    if-ne-spin (n == 8) _ _
      (>>=-ne-spin (be_load_32 bytes) _ (be_load_32-ne-spin bytes) (λ id.
        >>=-ne-spin (be_load_32 bytes) _ (be_load_32-ne-spin bytes) (λ status. done-ne-spin)))
      done-ne-spin

syn_stream_header-ne-spin :
    (syn : SynStream) (d : SpdyData) → spdy_syn_stream_parse_header syn d ≢ spin
unfolding spdy_syn_stream_parse_header
syn_stream_header-ne-spin syn d =
    if-ne-spin (ltb (available d) SynStream.header_min_length) _ _ done-ne-spin (
      >>=-ne-spin (be_load_32 (at_cursor d)) _ (be_load_32-ne-spin (at_cursor d)) (λ id.
        >>=-ne-spin (be_load_32 (at_cursor (advance d 4))) _
          (be_load_32-ne-spin (at_cursor (advance d 4)))
          (λ associated.
            >>=-ne-spin (load_8 (at_cursor (advance (advance d 4) 4))) _
              (load_8-ne-spin (at_cursor (advance (advance d 4) 4))) (λ prio. done-ne-spin))))

syn_reply_header-ne-spin :
    (rep : SynReply) (d : SpdyData) → spdy_syn_reply_parse_header rep d ≢ spin
unfolding spdy_syn_reply_parse_header
syn_reply_header-ne-spin rep d =
    if-ne-spin (ltb (available d) SynReply.header_min_length) _ _ done-ne-spin (
      >>=-ne-spin (be_load_32 (at_cursor d)) _ (be_load_32-ne-spin (at_cursor d))
        (λ id. done-ne-spin))

headers_header-ne-spin :
    (headers : Headers) (d : SpdyData) → spdy_headers_parse_header headers d ≢ spin
unfolding spdy_headers_parse_header
headers_header-ne-spin headers d =
    if-ne-spin (ltb (available d) Headers.min_length) _ _ done-ne-spin (
      >>=-ne-spin (be_load_32 (at_cursor d)) _ (be_load_32-ne-spin (at_cursor d))
        (λ id. done-ne-spin))

control_header-ne-spin :
    (frame : ControlFrame) (d : SpdyData) → spdy_control_frame_parse_header frame d ≢ spin
unfolding spdy_control_frame_parse_header
control_header-ne-spin frame d =
    let d2 = advance d 2 in
    let d4 = advance d2 2 in
    if-ne-spin frame.header_parsed _ _ done-ne-spin (
      if-ne-spin (ltb (available d) ControlFrame.min_length) _ _ done-ne-spin (
        >>=-ne-spin (be_load_16 (at_cursor d)) _ (be_load_16-ne-spin (at_cursor d)) (λ first.
          >>=-ne-spin (be_load_16 (at_cursor d2)) _ (be_load_16-ne-spin (at_cursor d2)) (λ second.
            >>=-ne-spin (load_8 (at_cursor d4)) _ (load_8-ne-spin (at_cursor d4)) (λ third.
              >>=-ne-spin (be_load_32 (at_cursor d4)) _ (be_load_32-ne-spin (at_cursor d4))
                (λ word. done-ne-spin))))))

data_header-ne-spin :
    (frame : DataFrame) (d : SpdyData) → spdy_data_frame_parse_header frame d ≢ spin
unfolding spdy_data_frame_parse_header
data_header-ne-spin frame d =
    let d4 = advance d 4 in
    if-ne-spin (frame.stream_id == 0) _ _
      (if-ne-spin (ltb (available d) DataFrame.min_length) _ _ done-ne-spin (
        >>=-ne-spin (be_load_32 (at_cursor d)) _ (be_load_32-ne-spin (at_cursor d)) (λ id.
          >>=-ne-spin (load_8 (at_cursor d4)) _ (load_8-ne-spin (at_cursor d4)) (λ first.
            >>=-ne-spin (be_load_32 (at_cursor d4)) _ (be_load_32-ne-spin (at_cursor d4))
              (λ word. done-ne-spin)))))
      done-ne-spin

data_frame-ne-spin :
    (frame : DataFrame) (d : SpdyData) (memory : Answers)
    → spdy_data_frame_parse frame d memory ≢ spin
unfolding spdy_data_frame_parse
data_frame-ne-spin frame d memory =
    >>=-ne-spin (spdy_data_frame_parse_header frame d) _ (data_header-ne-spin frame d) (λ h.
      if-ne-spin (succeeded h.0) _ _
        (if-ne-spin (ltb (available h.2) (h.1).length) _ _ done-ne-spin (
          if-ne-spin ((malloc memory).0 == 0) _ _ done-ne-spin (
            >>=-ne-spin (memcpy (h.1).length (at_cursor h.2)) _
              (memcpy-ne-spin (h.1).length (at_cursor h.2)) (λ bytes. done-ne-spin))))
        done-ne-spin)

begin_frame-ne-spin : (frame : Frame) (d : SpdyData) → begin_frame frame d ≢ spin
unfolding begin_frame spdy_frame_parse_header
begin_frame-ne-spin frame d = if-ne-spin frame.header_parsed _ _ done-ne-spin (
    >>=-ne-spin (spdy_frame_parse_header frame d) _
      (>>=-ne-spin (load_8 (at_cursor d)) _ (load_8-ne-spin (at_cursor d)) (λ first. done-ne-spin))
      (λ r. done-ne-spin))

module _ (z : Zlib) where
  open z use {Strm}

  inflate_parse-ne-spin :
      (block : NvBlock) (bytes : List ℕ) (n : ℕ) (env : Env Strm)
      → spdy_nv_block_inflate_parse z block bytes n env ≢ spin
  unfolding spdy_nv_block_inflate_parse
  inflate_parse-ne-spin block bytes n env =
      >>=-ne-spin (spdy_zlib_inflate z env.zlib_in bytes n env.memory) _
        (spdy_zlib_inflate-ne-spin z env.zlib_in bytes n env.memory)
        (λ r.
          if-ne-spin (succeeded r.code) _ _
            (>>=-ne-spin (spdy_nv_block_parse block r.dest r.memory) _
              (spdy_nv_block_parse-ne-spin block r.dest r.memory) (λ x. done-ne-spin))
            done-ne-spin)

  inflate_parse_at-ne-spin :
      (block : Option NvBlock) (bytes : List ℕ) (n : ℕ) (env : Env Strm)
      → inflate_parse_at z block bytes n env ≢ spin
  unfolding inflate_parse_at
  inflate_parse_at-ne-spin none bytes n env =
      >>=-ne-spin (spdy_zlib_inflate z env.zlib_in bytes n env.memory) _
        (spdy_zlib_inflate-ne-spin z env.zlib_in bytes n env.memory)
        (λ r. if-ne-spin (succeeded r.code) _ _ (λ e. cc) done-ne-spin)
  inflate_parse_at-ne-spin (some block) bytes n env =
      >>=-ne-spin (spdy_zlib_inflate z env.zlib_in bytes n env.memory) _
        (spdy_zlib_inflate-ne-spin z env.zlib_in bytes n env.memory)
        (λ r.
          if-ne-spin (succeeded r.code) _ _
            (>>=-ne-spin (spdy_nv_block_parse block r.dest r.memory) _
              (spdy_nv_block_parse-ne-spin block r.dest r.memory) (λ x. done-ne-spin))
            done-ne-spin)

  module _ (env : Env Strm)
      (found : (id : ℕ) → hash_get env.rounds env.store env.streamhash id ≢ spin) where
    syn_stream-ne-spin :
        (syn : SynStream) (d : SpdyData) (n : ℕ) → spdy_syn_stream_parse z syn d n env ≢ spin
    unfolding spdy_syn_stream_parse SynStream.parse_block
    syn_stream-ne-spin syn d n = if-ne-spin (ltb (available d) n) _ _ done-ne-spin (
        if-ne-spin (ltb (available d) SynStream.min_length) _ _ done-ne-spin (
          >>=-ne-spin (spdy_syn_stream_parse_header syn d) _ (syn_stream_header-ne-spin syn d) (λ h.
            if-ne-spin (succeeded h.0) _ _
              (>>=-ne-spin (hash_get env.rounds env.store env.streamhash (h.1).stream_id) _
                (found (h.1).stream_id)
                (λ hn.
                  if-ne-spin (hn == 0) _ _
                    (>>=-ne-spin
                      (spdy_nv_block_inflate_parse z spdy_nv_block_init (at_cursor h.2) n env) _
                      (inflate_parse-ne-spin spdy_nv_block_init (at_cursor h.2) n env)
                      (λ r. if-ne-spin (succeeded r.0) _ _ done-ne-spin done-ne-spin))
                    done-ne-spin))
              done-ne-spin)))

    syn_reply-ne-spin :
        (rep : SynReply) (d : SpdyData) (n : ℕ) → spdy_syn_reply_parse z rep d n env ≢ spin
    unfolding spdy_syn_reply_parse SynReply.parse_block
    syn_reply-ne-spin rep d n =
        if-ne-spin (ltb (available d) SynReply.min_length) _ _ done-ne-spin (
          >>=-ne-spin (spdy_syn_reply_parse_header rep d) _ (syn_reply_header-ne-spin rep d) (λ h.
            if-ne-spin (succeeded h.0) _ _
              (>>=-ne-spin (spdy_nv_block_inflate_parse z spdy_nv_block_init (at_cursor h.2) n env)
                _ (inflate_parse-ne-spin spdy_nv_block_init (at_cursor h.2) n env)
                (λ r. if-ne-spin (succeeded r.0) _ _ done-ne-spin done-ne-spin))
              done-ne-spin))

    headers-ne-spin :
        (headers : Headers) (d : SpdyData) (n : ℕ) → spdy_headers_parse z headers d n env ≢ spin
    unfolding spdy_headers_parse Headers.parse_block
    headers-ne-spin headers d n =
        if-ne-spin (ltb (available d) Headers.min_length) _ _ done-ne-spin (
          >>=-ne-spin (spdy_headers_parse_header headers d) _ (headers_header-ne-spin headers d)
            (λ h.
              if-ne-spin (succeeded h.0) _ _
                (>>=-ne-spin (inflate_parse_at z (h.1).nv_block (at_cursor h.2) n env) _
                  (inflate_parse_at-ne-spin (h.1).nv_block (at_cursor h.2) n env)
                  (λ r. if-ne-spin (succeeded r.0) _ _ done-ne-spin done-ne-spin))
                done-ne-spin))

    parse_payload-ne-spin :
        (frame : ControlFrame) (d : SpdyData) → parse_payload z frame d env ≢ spin
    unfolding parse_payload
    parse_payload-ne-spin frame d =
        if-ne-spin (frame.type == ctrl_syn_stream) _ _
          (>>=-ne-spin (spdy_syn_stream_parse z frame.obj.syn_stream d frame.length env) _
            (syn_stream-ne-spin frame.obj.syn_stream d frame.length) (λ r. done-ne-spin))
          (if-ne-spin (frame.type == ctrl_syn_reply) _ _
            (>>=-ne-spin (spdy_syn_reply_parse z frame.obj.syn_reply d frame.length env) _
              (syn_reply-ne-spin frame.obj.syn_reply d frame.length) (λ r. done-ne-spin))
            (if-ne-spin (frame.type == ctrl_rst_stream) _ _
              (>>=-ne-spin (spdy_rst_stream_parse frame.obj.rst_stream (at_cursor d) frame.length) _
                (rst_stream-ne-spin frame.obj.rst_stream (at_cursor d) frame.length)
                (λ r. done-ne-spin))
              (if-ne-spin (frame.type == ctrl_headers) _ _
                (>>=-ne-spin (spdy_headers_parse z frame.obj.headers d frame.length env) _
                  (headers-ne-spin frame.obj.headers d frame.length) (λ r. done-ne-spin))
                done-ne-spin)))

    control_frame-ne-spin :
        (frame : ControlFrame) (d : SpdyData) → spdy_control_frame_parse z frame d env ≢ spin
    unfolding spdy_control_frame_parse
    control_frame-ne-spin frame d =
        >>=-ne-spin (spdy_control_frame_parse_header frame d) _ (control_header-ne-spin frame d)
          (λ h.
            if-ne-spin (succeeded h.0) _ _
              (if-ne-spin (ltb (available h.2) (h.1).length) _ _ done-ne-spin
                (parse_payload-ne-spin h.1 h.2))
              done-ne-spin)

    pub spdy_frame_parse-ne-spin :
        (frame : Frame) (d : SpdyData) → spdy_frame_parse z frame d env ≢ spin
    unfolding spdy_frame_parse
    spdy_frame_parse-ne-spin frame d =
        >>=-ne-spin (begin_frame frame d) _ (begin_frame-ne-spin frame d) (λ h.
          if-ne-spin (succeeded h.0) _ _
            (if-ne-spin (is_control (h.1).type) _ _
              (>>=-ne-spin (spdy_control_frame_parse z (h.1).control d env) _
                (control_frame-ne-spin (h.1).control d) (λ r. done-ne-spin))
              (>>=-ne-spin (spdy_data_frame_parse (h.1).payload d env.memory) _
                (data_frame-ne-spin (h.1).payload d env.memory) (λ r. done-ne-spin)))
            done-ne-spin)
