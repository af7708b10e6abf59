-- ===== src/Demux/Faults.antt =====
-- What spindly_phys_demux of src/spindly_phys.c does with a frame that is split over two chunks.
use spindly.Prelude.{ℕ, suc, ◌≤◌, ◌≡◌, ◌≢◌, refl, sym, true, none, done, fault, leb, arith, length}
use spindly.Codes.{insuff}
use spindly.Memory.{memcpy}
use spindly.Memory.Copies.{memcpy-whole}
use spindly.SpdyData.{spdy_data_use, SpdyData}
use spindly.LinkedList.{Ptr, list_first, list_next}
use spindly.LinkedList.IsList.{ne→==}
use spindly.Zlib.{Zlib}
use spindly.Env.{Env}
use spindly.ControlFrame.{ControlFrame}
use spindly.Frame.{Frame, spdy_frame_parse}
use spindly.Phys.{Phys, inq, heap_of, env_of}
use spindly.Demux.{Demux, phys_demux, demux_loop, take_chunk, parse_append, merge_chunks}

module _ (z : Zlib) (stack : ControlFrame) (phys : Phys (z.Strm)) (message : Demux) (k : ℕ) where
  -- When the input is used up, the first chunk of the queue holds a part of a frame only, a second chunk
  -- follows, and the pointer to the parse buffer was never set, the demultiplexer uses that pointer. The
  -- chunk's `datalen` is the number of its bytes, and parsing it leaves the lists and the hash alone.
  pub phys_demux_split :
      (n next : Ptr) (frame : Frame) (input : SpdyData) (env : Env (z.Strm))
      → length phys.input.buf ≤ phys.input.cursor
      → list_first (heap_of phys) inq ≡ n
      → n ≢ 0
      → list_next (heap_of phys) n ≡ next
      → next ≢ 0
      → phys.parse ≡ none
      → length (phys.indata n).bytes ≡ (phys.indata n).datalen
      → spdy_frame_parse z phys.frame (spdy_data_use (phys.indata n).bytes) (env_of phys)
        ≡ done (insuff, frame, input, env)
      → env.store ≡ phys.store
      → phys_demux z stack (suc k) phys message ≡ fault
  unfolding phys_demux demux_loop take_chunk parse_append merge_chunks
  phys_demux_split n next frame input env used first ne second ne' unset size part same =
      let at : leb (length phys.input.buf) phys.input.cursor ≡ true = ground arith in
      let whole : memcpy (phys.indata n).datalen (phys.indata n).bytes
          ≡ done ((phys.indata n).bytes) =
        rw (sym size) (memcpy-whole (phys.indata n).bytes) in
      rw (first, at, ne→== ne, whole, part, same, first, ne→== ne, second, ne→== ne', unset) refl
