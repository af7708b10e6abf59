-- ===== src/ControlFrame/Announced.antt =====
-- spdy_control_mk_syn_stream of src/spdy_control_frame.c: the length that the frame announces.
use spindly.Prelude.{
  ℕ, ◌+◌, ◌-◌, ◌*◌, ◌%◌, ◌^◌, ◌≤◌, ◌<◌, ◌≡◌, refl, ap, true, false, none, List, ◌++◌, done, arith,
  ltb, ◌==◌, length, length-append, Post, Post-bind, Post-if, Post-done, Post-self,
}
use spindly.Codes.{Code, ok, succeeded, succeeded_ok, failed_ne}
use spindly.Bytes.{be_store_16, be_store_32}
use spindly.Memory.{Answers}
use spindly.SpdyData.{spdy_data_use, at_cursor, advance}
use spindly.Zlib.{Zlib, Deflated, spdy_zlib_deflate}
use spindly.SynStream.{spdy_syn_stream_init, pack_empty_block, spdy_syn_stream_pack}
use spindly.ControlFrame.{
  ControlFrame, ctrl_syn_stream, spdy_control_frame_parse_header, spdy_control_frame_pack_header,
  pack_payload, spdy_control_frame_pack, spdy_control_mk_syn_stream,
}
use spindly.ControlFrame.Pack.{
  length-pack_header, control_parse_header-pack_header, spdy_control_frame_pack-length,
}

header_room :
    (bufsize : ℕ) (frame : ControlFrame)
    → succeeded (spdy_control_frame_pack_header bufsize frame).0 ≡ true
    → 8 ≤ bufsize
unfolding spdy_control_frame_pack_header
header_room bufsize frame built = ground arith

-- What spdy_control_mk_syn_stream makes, with the same length for every stream.
made_IsSynStream :
    (id associated prio : ℕ) (made : ControlFrame)
    → spdy_control_mk_syn_stream id associated prio none ≡ done (ok, made)
    → (made.type ≡ ctrl_syn_stream) × (made.length ≡ 10) × (made.flags ≡ 0)
unfolding spdy_control_mk_syn_stream spdy_syn_stream_init
made_IsSynStream id associated prio made e =
    Post-done (λ r. (r.1.type ≡ ctrl_syn_stream) × (r.1.length ≡ 10) × (r.1.flags ≡ 0))
      (spdy_control_mk_syn_stream id associated prio none) (ok, made) (refl, refl, refl) e

module _ (z : Zlib) (memory : Answers) where
  -- A packed block stands behind its header.
  abbrev Packed : ℕ → Code → List ℕ → Type 0
  Packed n rc bytes =
      rc ≡ ok
      → (d : Deflated) × (spdy_zlib_deflate z (be_store_16 0) 2 0 memory ≡ done d)
        × (length bytes ≡ n + length d.dest)

  empty_block-Packed :
      (header : List ℕ) (bufsize limit outsize : ℕ)
      → Post
          (λ r. Packed (length header) r.0 r.1)
          (pack_empty_block z header bufsize limit outsize memory)
  unfolding pack_empty_block
  empty_block-Packed header bufsize limit outsize =
      let P = λ (r : Code × List ℕ × ℕ × Answers). Packed (length header) r.0 r.1 in
      let m = spdy_zlib_deflate z (be_store_16 0) 2 0 memory in
      Post-bind (λ d. m ≡ done d) P m _ (Post-self m)
        (λ d run.
          Post-if P (succeeded d.code) _ _
            (λ _.
              Post-if P (ltb bufsize (limit + length d.dest)) _ _ (λ _ e. cc)
                (λ _ e. (d, run, length-append header d.dest)))
            (λ no e. absurd (failed_ne d.code no e)))

  -- The payload of a SYN_STREAM.
  payload-Packed :
      (bufsize : ℕ) (frame : ControlFrame)
      → frame.type ≡ ctrl_syn_stream
      → Post (λ r. Packed 10 r.0 r.1) (pack_payload z bufsize frame memory)
  unfolding pack_payload spdy_syn_stream_pack be_store_16 be_store_32
  payload-Packed bufsize frame e =
      let P = λ (r : Code × List ℕ × ℕ × Answers). Packed 10 r.0 r.1 in
      let syn = frame.obj.syn_stream in
      Post-if P (frame.type == ctrl_syn_stream) _ _
        (λ _.
          Post-if P (ltb bufsize 10) _ _ (λ _ e. cc)
            (λ _.
              empty_block-Packed
                (be_store_32 syn.stream_id
                  ++ (be_store_32 syn.associated_to ++ be_store_16 (syn.priority * 2 ^ 14)))
                bufsize 10 10))
        (λ other. absurd (ground arith))

  -- What is packed is the header and the payload.
  abbrev IsFrame : (bufsize : ℕ) → ControlFrame → Code → List ℕ → Type 0
  IsFrame bufsize frame rc bytes =
      rc ≡ ok
      → (payload : List ℕ) × (bytes ≡ (spdy_control_frame_pack_header bufsize frame).1 ++ payload)
        × Packed 10 ok payload
        × (8 ≤ bufsize)

  pack-IsFrame :
      (bufsize : ℕ) (frame : ControlFrame)
      → frame.type ≡ ctrl_syn_stream
      → Post (λ r. IsFrame bufsize frame r.0 r.1) (spdy_control_frame_pack z bufsize frame memory)
  unfolding spdy_control_frame_pack
  pack-IsFrame bufsize frame type =
      let P = λ (r : Code × List ℕ × ℕ × Answers). IsFrame bufsize frame r.0 r.1 in
      let header = spdy_control_frame_pack_header bufsize frame in
      let m = pack_payload z (bufsize - header.2) frame memory in
      Post-if P (ltb bufsize ((8 + frame.length) % 2 ^ 32)) _ _ (λ _ e. cc)
        (λ _.
          Post-if P (succeeded header.0) _ _
            (λ built.
              Post-bind (λ r. Packed 10 r.0 r.1) P m _
                (payload-Packed (bufsize - header.2) frame type)
                (λ r packed.
                  Post-if P (succeeded r.0) _ _
                    (λ fine e. (
                      r.1,
                      refl,
                      (λ _. packed (succeeded_ok r.0 fine)),
                      header_room bufsize frame built,
                    ))
                    (λ no e. absurd (failed_ne r.0 no e))))
            (λ no e. absurd (failed_ne header.0 no e)))

bytes_at : (bytes : List ℕ) {rest : List ℕ} → bytes ≡ rest → at_cursor (spdy_data_use bytes) ≡ rest
unfolding at_cursor
bytes_at bytes e = e

-- When a SYN_STREAM frame is made without a block, for any stream, and packed with success, the peer that
-- parses its header reads a length of 10, whatever zlib does; behind the header stand ten bytes and the
-- deflated block. The frame is shorter than 2^63 bytes and the peer's header is not parsed yet.
pub mk_syn_stream_announced :
    (z : Zlib) (id associated prio bufsize size : ℕ) (made g : ControlFrame)
    (memory later : Answers) (bytes : List ℕ)
    → spdy_control_mk_syn_stream id associated prio none ≡ done (ok, made)
    → spdy_control_frame_pack z bufsize made memory ≡ done (ok, bytes, size, later)
    → size < 2 ^ 63
    → g.header_parsed ≡ false
    → (f : ControlFrame) × (d : Deflated) × (spdy_control_frame_parse_header g (spdy_data_use bytes)
        ≡ done (ok, f, advance (spdy_data_use bytes) 8))
      × (f.type ≡ ctrl_syn_stream)
      × (f.length ≡ 10)
      × (spdy_zlib_deflate z (be_store_16 0) 2 0 memory ≡ done d)
      × (size ≡ 8 + f.length + length d.dest)
mk_syn_stream_announced z id associated prio bufsize size made g memory later bytes mk pack small
      fresh =
    let (type, ten, flags) = made_IsSynStream id associated prio made mk in
    let (payload, whole, packed, room) =
      Post-done (λ r. IsFrame z memory bufsize made r.0 r.1)
        (spdy_control_frame_pack z bufsize made memory) (ok, bytes, size, later)
        (pack-IsFrame z memory bufsize made type) pack refl in
    let (d, run, count) = packed refl in
    let (counted, fits) =
      spdy_control_frame_pack-length z bufsize made memory bytes size later pack in
    let parsed =
      control_parse_header-pack_header made g (spdy_data_use bytes) bufsize payload
        (record { inside = omega arith; small = omega arith }) fresh (omega arith) (omega arith)
        (omega arith) room (bytes_at bytes whole) in
    (
      _,
      d,
      parsed,
      type,
      ten,
      run,
      omega (
        arith,
        ap length whole,
        length-append (spdy_control_frame_pack_header bufsize made).1 payload,
        length-pack_header z bufsize made room,
      ),
    )
