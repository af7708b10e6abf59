-- ===== src/DataFrame/Payload.antt =====
-- Whole data frames.
use spindly.Prelude.{
  ℕ, ◌%◌, ◌^◌, ◌≤◌, ◌<◌, ◌≡◌, ◌≢◌, refl, sym, false, some, List, ◌∷◌, ◌++◌, done, arith, ltb, ◌==◌,
  length, length-append, drop-append,
}
use spindly.Codes.{ok}
use spindly.Bytes.{IsByte, be_store_32}
use spindly.Memory.{Answers, memcpy}
use spindly.Memory.Copies.{memcpy-append}
use spindly.SpdyData.{SpdyData, available, at_cursor, advance, IsWithin}
use spindly.SpdyData.Laws.{available-length, at_cursor-advance, IsWithin-advance}
use spindly.DataFrame.{DataFrame, spdy_data_frame_parse, spdy_data_frame_pack_header}
use spindly.DataFrame.Header.{parse_header-pack_header}

pub length-pack_header :
    (bufsize : ℕ) (frame : DataFrame)
    → 8 ≤ bufsize
    → length (spdy_data_frame_pack_header bufsize frame).1 ≡ 8
unfolding spdy_data_frame_pack_header be_store_32
length-pack_header bufsize frame h = ground arith

-- A packed header with its payload behind it is parsed back, less the bits 28 to 30 of the stream id, and the
-- cursor stands behind both, for a frame whose stream id has 31 bits, whose flags are a byte and whose length
-- has 24 bits and is the payload's, when the buffer to pack in has room, the target's header is not parsed yet
-- and the payload can be allocated.
pub parse-pack_header :
    (frame g : DataFrame) (d : SpdyData) (bufsize : ℕ) (payload rest : List ℕ) (p : ℕ)
    (later : Answers)
    → IsWithin d
    → g.stream_id ≡ 0
    → frame.stream_id < 2 ^ 31
    → IsByte frame.flags
    → frame.length < 2 ^ 24
    → 8 ≤ bufsize
    → length payload ≡ frame.length
    → p ≢ 0
    → at_cursor d ≡ (spdy_data_frame_pack_header bufsize frame).1 ++ (payload ++ rest)
    → spdy_data_frame_parse g d (p ∷ later)
      ≡ done (
        ok,
        record frame { stream_id = frame.stream_id % 2 ^ 28; payload = some payload },
        advance (advance d 8) frame.length,
        later,
      )
unfolding spdy_data_frame_parse
parse-pack_header frame g d bufsize payload rest p later w fresh hid hflags hlen room size given e =
    let header =
      parse_header-pack_header frame g d bufsize (payload ++ rest) w fresh hid hflags hlen room e in
    let fits : 8 ≤ available d =
      rw (available-length d w, e, length-append)
        (omega (arith, length-pack_header bufsize frame room)) in
    let behind : at_cursor (advance d 8) ≡ payload ++ rest =
      rw (at_cursor-advance d 8, e, sym (length-pack_header bufsize frame room), drop-append)
        refl in
    let whole : ltb (available (advance d 8)) frame.length ≡ false =
      rw
        (
          available-length (advance d 8) (IsWithin-advance d 8 w fits),
          behind,
          length-append,
          sym size,
        )
        (ground arith) in
    let copied : memcpy frame.length (payload ++ rest) ≡ done payload =
      rw (sym size) (memcpy-append payload rest) in
    let nonnull : (p == 0) ≡ false = ground arith in
    rw (header, whole, nonnull, behind, copied) refl
