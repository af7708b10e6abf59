-- ===== src/Frame/Kept.antt =====
-- spdy_frame_parse of src/spdy_frame.c, and what it may change of a connection.
use spindly.Prelude.{ℕ, refl, ◌∷◌, ltb, ◌==◌, Post, Post-bind, Post-bind_any, Post-if}
use spindly.Codes.{Code, succeeded}
use spindly.Memory.{Answers, malloc, memcpy}
use spindly.SpdyData.{SpdyData, available, at_cursor}
use spindly.Zlib.{Zlib}
use spindly.NvBlock.Supply.{malloc-Answers}
use spindly.Env.{Env}
use spindly.RstStream.{spdy_rst_stream_parse}
use spindly.SynStream.{spdy_syn_stream_parse}
use spindly.SynReply.{spdy_syn_reply_parse}
use spindly.Headers.{spdy_headers_parse}
use spindly.ControlFrame.{
  ControlFrame, ctrl_syn_stream, ctrl_syn_reply, ctrl_rst_stream, ctrl_headers, parse_payload,
  spdy_control_frame_parse_header, spdy_control_frame_parse,
}
use spindly.DataFrame.{DataFrame, spdy_data_frame_parse_header, spdy_data_frame_parse}
use spindly.Frame.{Frame, is_control, begin_frame, spdy_frame_parse}
use spindly.Frame.Supply.{Kept, syn_stream_parse-Kept, syn_reply_parse-Kept, headers_parse-Kept}

module _ (z : Zlib) (Q : Answers → Type 0) (tail : (p : ℕ) (m : Answers) → Q (p ∷ m) → Q m) where
  open z use {Strm}

  parse_payload-Kept :
      (frame : ControlFrame) (d : SpdyData) (env : Env Strm)
      → Q env.memory
      → Post (λ r. Kept z Q tail env r.3) (parse_payload z frame d env)
  unfolding parse_payload
  parse_payload-Kept frame d env q =
      let P = λ (r : Code × ControlFrame × SpdyData × Env Strm). Kept z Q tail env r.3 in
      Post-if P (frame.type == ctrl_syn_stream) _ _
        (λ _.
          Post-bind (λ r. Kept z Q tail env r.3) P
            (spdy_syn_stream_parse z frame.obj.syn_stream d frame.length env) _
            (syn_stream_parse-Kept z Q tail frame.obj.syn_stream d frame.length env q) (λ r k. k))
        (λ _.
          Post-if P (frame.type == ctrl_syn_reply) _ _
            (λ _.
              Post-bind (λ r. Kept z Q tail env r.3) P
                (spdy_syn_reply_parse z frame.obj.syn_reply d frame.length env) _
                (syn_reply_parse-Kept z Q tail frame.obj.syn_reply d frame.length env q) (λ r k. k))
            (λ _.
              Post-if P (frame.type == ctrl_rst_stream) _ _
                (λ _.
                  Post-bind_any P
                    (spdy_rst_stream_parse frame.obj.rst_stream (at_cursor d) frame.length) _
                    (λ r. (q, refl)))
                (λ _.
                  Post-if P (frame.type == ctrl_headers) _ _
                    (λ _.
                      Post-bind (λ r. Kept z Q tail env r.3) P
                        (spdy_headers_parse z frame.obj.headers d frame.length env) _
                        (headers_parse-Kept z Q tail frame.obj.headers d frame.length env q)
                        (λ r k. k))
                    (λ _. (q, refl)))))

  control_frame_parse-Kept :
      (frame : ControlFrame) (d : SpdyData) (env : Env Strm)
      → Q env.memory
      → Post (λ r. Kept z Q tail env r.3) (spdy_control_frame_parse z frame d env)
  unfolding spdy_control_frame_parse
  control_frame_parse-Kept frame d env q =
      let P = λ (r : Code × ControlFrame × SpdyData × Env Strm). Kept z Q tail env r.3 in
      Post-bind_any P (spdy_control_frame_parse_header frame d) _ (λ h.
        Post-if P (succeeded h.0) _ _
          (λ _.
            Post-if P (ltb (available h.2) (h.1).length) _ _ (λ _. (q, refl))
              (λ _. parse_payload-Kept h.1 h.2 env q))
          (λ _. (q, refl)))

  data_frame_parse-Answers :
      (frame : DataFrame) (d : SpdyData) (memory : Answers)
      → Q memory
      → Post (λ r. Q r.3) (spdy_data_frame_parse frame d memory)
  unfolding spdy_data_frame_parse
  data_frame_parse-Answers frame d memory q =
      let P = λ (r : Code × DataFrame × SpdyData × Answers). Q r.3 in
      Post-bind_any P (spdy_data_frame_parse_header frame d) _ (λ h.
        Post-if P (succeeded h.0) _ _
          (λ _.
            Post-if P (ltb (available h.2) (h.1).length) _ _ (λ _. q)
              (λ _.
                Post-if P ((malloc memory).0 == 0) _ _ (λ _. malloc-Answers Q tail memory q)
                  (λ _.
                    Post-bind_any P (memcpy (h.1).length (at_cursor h.2)) _
                      (λ _. malloc-Answers Q tail memory q))))
          (λ _. q))

  pub spdy_frame_parse-Kept :
      (frame : Frame) (d : SpdyData) (env : Env Strm)
      → Q env.memory
      → Post (λ r. Kept z Q tail env r.3) (spdy_frame_parse z frame d env)
  unfolding spdy_frame_parse
  spdy_frame_parse-Kept frame d env q =
      let P = λ (r : Code × Frame × SpdyData × Env Strm). Kept z Q tail env r.3 in
      Post-bind_any P (begin_frame frame d) _ (λ h.
        Post-if P (succeeded h.0) _ _
          (λ _.
            Post-if P (is_control (h.1).type) _ _
              (λ _.
                Post-bind (λ r. Kept z Q tail env r.3) P
                  (spdy_control_frame_parse z (h.1).control d env) _
                  (control_frame_parse-Kept (h.1).control d env q) (λ r k. k))
              (λ _.
                Post-bind (λ r. Q r.3) P (spdy_data_frame_parse (h.1).payload d env.memory) _
                  (data_frame_parse-Answers (h.1).payload d env.memory q) (λ r k. (k, refl))))
          (λ _. (q, refl)))
