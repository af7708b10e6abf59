-- ===== src/ControlFrame/Pack.antt =====
-- The header of a control frame there and back, and the size of what is packed.
use spindly.Prelude.{
  ℕ, ◌+◌, ◌-◌, ◌%◌, ◌^◌, ◌≤◌, ◌<◌, ◌≡◌, true, false, List, ◌++◌, Run, done, arith, le→ltb, ltb,
  Bool-cases, inl, inr, >>=-eq-done, ◌*◌, length, length-append,
}
use spindly.Codes.{Code, ok}
use spindly.Bytes.{IsByte, load_8, be_load_16, be_load_32, be_store_16, be_store_24, be_store_32}
use spindly.Memory.{Answers}
use spindly.SpdyData.{SpdyData, at_cursor, advance, IsWithin}
use spindly.SpdyData.Laws.{available-length, at_cursor-advance}
use spindly.Zlib.{Zlib, spdy_zlib_deflate}
use spindly.SynStream.{pack_empty_block, spdy_syn_stream_pack}
use spindly.SynReply.{spdy_syn_reply_pack}
use spindly.ControlFrame.{
  ControlFrame, spdy_control_frame_parse_header, spdy_control_frame_pack_header, pack_payload,
  spdy_control_frame_pack,
}

-- Parsing the header that was packed gives the frame's fields, the version without its top bit, and moves
-- the cursor behind the 8 bytes, for a 16-bit type, flags of a byte and a 24-bit length, when the buffer to
-- pack in has room and the target's header is not parsed yet.
pub control_parse_header-pack_header :
    (frame g : ControlFrame) (d : SpdyData) (bufsize : ℕ) (rest : List ℕ)
    → IsWithin d
    → g.header_parsed ≡ false
    → frame.type < 2 ^ 16
    → IsByte frame.flags
    → frame.length < 2 ^ 24
    → 8 ≤ bufsize
    → at_cursor d ≡ (spdy_control_frame_pack_header bufsize frame).1 ++ rest
    → spdy_control_frame_parse_header g d
      ≡ done (
        ok,
        record g {
          header_parsed = true;
          version = frame.version % 2 ^ 15;
          type = frame.type;
          flags = frame.flags;
          length = frame.length;
        },
        advance d 8,
      )
unfolding spdy_control_frame_parse_header spdy_control_frame_pack_header be_store_16 be_store_24
    be_load_16 be_load_32 load_8
control_parse_header-pack_header frame g d bufsize rest w fresh htype hflags hlen size e =
    let room = le→ltb bufsize 8 size in
    rw
      (
        fresh,
        available-length d w,
        at_cursor-advance (advance d 2) 2,
        at_cursor-advance d 2,
        e,
        room,
      )
      (ground arith)

-- The bytes that are written number `*outsize` and fit the buffer.
abbrev Fits : (bufsize : ℕ) → Run (Code × List ℕ × ℕ × Answers) → Type 0
Fits bufsize r =
    (bytes : List ℕ) (size : ℕ) (memory : Answers)
    → r ≡ done (ok, bytes, size, memory)
    → (length bytes ≡ size) × (size ≤ bufsize)

module _ (z : Zlib) where
  pack_empty_block-Fits :
      (header : List ℕ) (bufsize limit outsize : ℕ) (memory : Answers)
      → length header ≡ outsize
      → outsize ≤ limit
      → Fits bufsize (pack_empty_block z header bufsize limit outsize memory)
  unfolding pack_empty_block
  pack_empty_block-Fits header bufsize limit outsize memory size h bytes n later e =
      let (r, run, rest) = >>=-eq-done (spdy_zlib_deflate z (be_store_16 0) 2 0 memory) _ e in
      ground (arith, length-append header r.dest)

  pack_payload-Fits :
      (bufsize : ℕ) (frame : ControlFrame) (memory : Answers)
      → Fits bufsize (pack_payload z bufsize frame memory)
  unfolding pack_payload spdy_syn_stream_pack spdy_syn_reply_pack be_store_32 be_store_16
  pack_payload-Fits bufsize frame memory bytes n later e =
      let syn = frame.obj.syn_stream in
      ground (
        arith,
        pack_empty_block-Fits
            (be_store_32 syn.stream_id
              ++ (be_store_32 syn.associated_to ++ be_store_16 (syn.priority * 2 ^ 14)))
            bufsize 10 10 memory (omega arith) (omega arith) bytes n later,
        pack_empty_block-Fits (be_store_32 frame.obj.syn_reply.stream_id ++ be_store_16 0) bufsize
            10 6 memory (omega arith) (omega arith) bytes n later,
      )

  pub length-pack_header :
      (bufsize : ℕ) (frame : ControlFrame)
      → 8 ≤ bufsize
      → length (spdy_control_frame_pack_header bufsize frame).1 ≡ 8
  unfolding spdy_control_frame_pack_header be_store_16 be_store_24
  length-pack_header bufsize frame h = ground arith

  -- Whenever spdy_control_frame_pack succeeds, whatever zlib does, it has written `*outsize` bytes, and
  -- they fit the buffer.
  pub spdy_control_frame_pack-length :
      (bufsize : ℕ) (frame : ControlFrame) (memory : Answers) (bytes : List ℕ) (size : ℕ)
      (later : Answers)
      → spdy_control_frame_pack z bufsize frame memory ≡ done (ok, bytes, size, later)
      → (length bytes ≡ size) × (size ≤ bufsize)
  unfolding spdy_control_frame_pack spdy_control_frame_pack_header be_store_16 be_store_24
  spdy_control_frame_pack-length bufsize frame memory bytes n later e =
      elim (Bool-cases (ltb bufsize ((8 + frame.length) % 2 ^ 32))) [
        | inl cut ↦ let no_room = rw cut at e in absurd (ground arith)
        | inr room ↦ elim (Bool-cases (ltb bufsize 8)) [
          | inl cut ↦ let no_room = rw (room, cut) at e in absurd (ground arith)
          | inr fits ↦
              let packed = rw (room, fits) at e in
              let ((rc, payload, size, left), run, rest) =
                >>=-eq-done (pack_payload z (bufsize - 8) frame memory) _ packed in
              ground (arith, pack_payload-Fits (bufsize - 8) frame memory payload size left)
        ]
      ]
