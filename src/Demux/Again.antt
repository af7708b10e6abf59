-- ===== src/Demux/Again.antt =====
-- Two data frames, one behind the other, through spindly_phys_demux of src/spindly_phys.c.
use spindly.Prelude.{
  ℕ, suc, ◌+◌, ◌%◌, ◌^◌, ◌≤◌, ◌<◌, ◌≡◌, ◌≢◌, refl, ◌∙◌, ap, true, false, some, List, ◌∷◌, ◌++◌,
  done, leb, ◌==◌, arith, length, length-append, take, drop, drop-append, ne→test,
}
use spindly.Codes.{ok}
use spindly.Memory.{Answers}
use spindly.Memory.Copies.{memcpy-whole}
use spindly.SpdyData.{SpdyData, spdy_data_use, available, at_cursor, advance, IsWithin}
use spindly.SpdyData.Laws.{available-length, at_cursor-advance}
use spindly.LinkedList.{Ptr, list_first}
use spindly.LinkedList.IsList.{ne→==}
use spindly.Zlib.{Zlib}
use spindly.ControlFrame.{ControlFrame}
use spindly.DataFrame.{DataFrame, spdy_data_frame_pack_header}
use spindly.DataFrame.Payload.{length-pack_header}
use spindly.Frame.{Frame, data_frame, is_control, spdy_frame_parse}
use spindly.Frame.Again.{frame_bytes, IsPacked, spdy_frame_parse-first, spdy_frame_parse_again}
use spindly.Phys.{Phys, inq, heap_of, env_of}
use spindly.Demux.{Demux, dx_data, take_chunk, deliver, demux_loop, phys_demux}

module _ (z : Zlib) (stack : ControlFrame) where
  open z use {Strm}

  -- A round that reads a data frame and leaves bytes behind it.
  demux_data :
      (phys fed : Phys Strm) (message : Demux) (k : ℕ) (frame : Frame) (d : SpdyData) (m : Answers)
      → take_chunk z stack phys (list_first (heap_of phys) inq) ≡ done fed
      → spdy_frame_parse z fed.frame fed.input (env_of fed)
        ≡ done (ok, frame, d, record (env_of fed) { memory = m })
      → is_control frame.type ≡ false
      → (d.cursor == length d.buf) ≡ false
      → phys_demux z stack (suc k) phys message
        ≡ done (
          ok,
          record message { type = dx_data },
          record fed { frame = frame; input = d; memory = m },
        )
  unfolding phys_demux demux_loop deliver
  demux_data phys fed message k frame d m takes parses data_only more =
      rw (takes, parses, data_only, more) refl

  module _ (g : DataFrame) (payload rest : List ℕ) (packed : IsPacked g payload rest)
      (more : g.length < length rest) where
    -- The frame as it is read the first time.
    abbrev pub first_read : DataFrame
    first_read = record g { stream_id = g.stream_id % 2 ^ 28; payload = some payload }

    abbrev input_used : SpdyData
    input_used = advance (advance (spdy_data_use (frame_bytes g payload rest)) 8) g.length

    size : length (frame_bytes g payload rest) ≡ 8 + (g.length + length rest)
    size =
        rw (length-append, length-pack_header 8 g (omega arith), length-append, packed.counted) refl

    input_used-IsWithin : IsWithin input_used
    input_used-IsWithin = record { inside = omega (arith, size, more); small = packed.small }

    skip_header : drop 8 (at_cursor (spdy_data_use (frame_bytes g payload rest))) ≡ payload ++ rest
    unfolding at_cursor
    skip_header =
        rw (length-pack_header 8 g (omega arith)) at
          (drop-append (spdy_data_frame_pack_header 8 g).1 (payload ++ rest))

    left_over : at_cursor input_used ≡ rest
    left_over =
        at_cursor-advance (advance (spdy_data_use (frame_bytes g payload rest)) 8) g.length
        ∙ ap (drop g.length) (at_cursor-advance (spdy_data_use (frame_bytes g payload rest)) 8)
        ∙ ap (drop g.length) skip_header
        ∙ (rw packed.counted at (drop-append payload rest))

    -- When the input is used up, no frame was read before, the allocator gives two addresses, and the first
    -- chunk of the queue holds, as spdy_data_frame_pack_header packs it, a data frame (whose id has 31 bits,
    -- and not only zeros in the lowest 28, whose flags are a byte and whose length has 24 bits and is its
    -- payload's) and more bytes behind it than its payload has: the first message is that frame's, and the
    -- second one, asked for right after it, has the first frame's id, flags and length, with the next bytes as
    -- its payload: the header of what follows is never read.
    pub second_frame_misread :
        (phys : Phys Strm) (message message' : Demux) (k k' : ℕ) (n p q : Ptr) (later : Answers)
        → g.stream_id % 2 ^ 28 ≢ 0
        → phys.frame.header_parsed ≡ false
        → length phys.input.buf ≤ phys.input.cursor
        → list_first (heap_of phys) inq ≡ n
        → n ≢ 0
        → (phys.indata n).bytes ≡ frame_bytes g payload rest
        → (phys.indata n).datalen ≡ length (frame_bytes g payload rest)
        → phys.memory ≡ p ∷ q ∷ later
        → p ≢ 0
        → q ≢ 0
        → (phys1 : Phys Strm) × (phys2 : Phys Strm) × (phys_demux z stack (suc k) phys message
            ≡ done (ok, record message { type = dx_data }, phys1))
          × (phys1.frame.payload ≡ first_read)
          × (phys_demux z stack (suc k') phys1 message'
              ≡ done (ok, record message' { type = dx_data }, phys2))
          × (phys2.frame.payload ≡ record first_read { payload = some (take g.length rest) })
    unfolding take_chunk
    second_frame_misread phys message message' k k' n p q later ne fresh used first nn bytes len
          memory np nq =
        let fed = record phys { input = spdy_data_use (frame_bytes g payload rest) } in
        let frame1 = record (phys.frame) {
          header_parsed = true;
          type = data_frame;
          payload = first_read;
        } in
        let phys1 = record fed { frame = frame1; input = input_used; memory = q ∷ later } in
        let frame2 = record frame1 {
          payload = record first_read { payload = some (take g.length (at_cursor input_used)) };
        } in
        let full : leb (length phys.input.buf) phys.input.cursor ≡ true = ground arith in
        let open_end : (input_used.cursor == length input_used.buf) ≡ false =
          ne→test _ _ (omega (arith, size, more)) in
        let inside : input_used.cursor < length input_used.buf = omega (arith, size, more) in
        let not_full : leb (length input_used.buf) input_used.cursor ≡ false = ground arith in
        let enough : g.length ≤ available input_used =
          omega
            (arith, available-length input_used input_used-IsWithin, ap length left_over, more) in
        (
          phys1,
          record phys1 { frame = frame2; input = advance input_used g.length; memory = later },
          demux_data phys fed message k frame1 input_used (q ∷ later)
              (rw (full, first, ne→== nn, bytes, len, memcpy-whole (frame_bytes g payload rest))
                refl)
              (spdy_frame_parse-first z phys.frame g payload rest (env_of fed) p (q ∷ later) packed
                fresh memory np)
              refl open_end,
          refl,
          demux_data phys1 phys1 message' k' frame2 (advance input_used g.length) later
              (rw not_full refl)
              (spdy_frame_parse_again z frame1 input_used (env_of phys1) q later input_used-IsWithin
                refl refl ne enough refl nq)
              refl (ne→test _ _ (omega (arith, size, more))),
          ap (λ b. record first_read { payload = some (take g.length b) }) left_over,
        )
