-- ===== src/Frame/Again.antt =====
-- The first data frame that a connection reads with src/spdy_frame.c, and the bytes behind it.
use spindly.Prelude.{
  ◌/◌, ◌^◌, ◌%◌, ◌<◌, false, List, ◌++◌, length, ℕ, ◌≤◌, ◌≡◌, ◌≢◌, refl, true, false, some, ◌∷◌,
  done, ◌==◌, arith, take, le→ltb,
}
use spindly.Codes.{ok}
use spindly.Memory.{Answers}
use spindly.Memory.Copies.{memcpy-take}
use spindly.Bytes.{IsByte, load_8, be_store_32}
use spindly.SpdyData.{SpdyData, spdy_data_use, available, at_cursor, advance, IsWithin}
use spindly.SpdyData.Laws.{available-length}
use spindly.Zlib.{Zlib}
use spindly.Env.{Env}
use spindly.DataFrame.Payload.{parse-pack_header}
use spindly.DataFrame.{
  DataFrame, spdy_data_frame_init, spdy_data_frame_pack_header, spdy_data_frame_parse_header,
  spdy_data_frame_parse,
}
use spindly.Frame.{Frame, data_frame, begin_frame, spdy_frame_parse_header, spdy_frame_parse}

-- When a data frame with an id was parsed before on the connection and there are as many bytes as its
-- length says, the next bytes, whatever they are, become the payload of another frame with the same id, flags
-- and length: no header is read. The payload's allocation succeeds.
pub spdy_frame_parse_again :
    (z : Zlib) (frame : Frame) (d : SpdyData) (env : Env (z.Strm)) (p : ℕ) (later : Answers)
    → IsWithin d
    → frame.header_parsed ≡ true
    → frame.type ≡ data_frame
    → frame.payload.stream_id ≢ 0
    → frame.payload.length ≤ available d
    → env.memory ≡ p ∷ later
    → p ≢ 0
    → spdy_frame_parse z frame d env
      ≡ done (
        ok,
        record frame {
          payload = record (frame.payload) {
            payload = some (take frame.payload.length (at_cursor d));
          };
        },
        advance d frame.payload.length,
        record env { memory = later },
      )
unfolding spdy_frame_parse begin_frame spdy_data_frame_parse spdy_data_frame_parse_header
spdy_frame_parse_again z frame d env p later w parsed type id enough memory given =
    let fresh : (frame.payload.stream_id == 0) ≡ false = ground arith in
    let nonnull : (p == 0) ≡ false = ground arith in
    let bytes =
      memcpy-take frame.payload.length (at_cursor d) (rw (available-length d w) at enough) in
    rw
      (
        parsed,
        type,
        fresh,
        le→ltb (available d) frame.payload.length enough,
        memory,
        nonnull,
        bytes,
      )
      refl

-- The bytes of a data frame with its payload, and what follows.
abbrev pub frame_bytes : DataFrame → (payload rest : List ℕ) → List ℕ
frame_bytes g payload rest = (spdy_data_frame_pack_header 8 g).1 ++ (payload ++ rest)

-- A data frame that spdy_data_frame_pack_header keeps but for the bits 28 to 30 of its id.
pub record IsPacked (g : DataFrame) (payload rest : List ℕ) : Type 0 where
  pub id : g.stream_id < 2 ^ 31
  pub flags : IsByte g.flags
  pub size : g.length < 2 ^ 24
  pub counted : length payload ≡ g.length
  pub small : length (frame_bytes g payload rest) < 2 ^ 63

first_byte :
    (g : DataFrame) (tail : List ℕ)
    → g.stream_id < 2 ^ 31
    → (b : ℕ) × (load_8 ((spdy_data_frame_pack_header 8 g).1 ++ tail) ≡ done b)
      × ((b / 2 ^ 7 == 0) ≡ true)
unfolding load_8 spdy_data_frame_pack_header be_store_32
first_byte g tail h = (_, refl, ground arith)

at_start : (bytes : List ℕ) → at_cursor (spdy_data_use bytes) ≡ bytes
unfolding at_cursor
at_start bytes = refl

-- The first data frame on a connection.
pub spdy_frame_parse-first :
    (z : Zlib) (frame : Frame) (g : DataFrame) (payload rest : List ℕ) (env : Env (z.Strm)) (p : ℕ)
    (later : Answers)
    → IsPacked g payload rest
    → frame.header_parsed ≡ false
    → env.memory ≡ p ∷ later
    → p ≢ 0
    → let d = spdy_data_use (frame_bytes g payload rest) in
      spdy_frame_parse z frame d env
      ≡ done (
        ok,
        record frame {
          header_parsed = true;
          type = data_frame;
          payload = record g { stream_id = g.stream_id % 2 ^ 28; payload = some payload };
        },
        advance (advance d 8) g.length,
        record env { memory = later },
      )
unfolding spdy_frame_parse begin_frame spdy_frame_parse_header
spdy_frame_parse-first z frame g payload rest env p later packed fresh memory given =
    let d = spdy_data_use (frame_bytes g payload rest) in
    let (b, loads, high) = first_byte g (payload ++ rest) packed.id in
    let reads =
      parse-pack_header g (spdy_data_frame_init frame.payload) d 8 payload rest p later
        (record { inside = omega arith; small = packed.small }) refl packed.id packed.flags
        packed.size (omega arith) packed.counted given (at_start (frame_bytes g payload rest)) in
    rw (fresh, at_start (frame_bytes g payload rest), loads, high, memory, reads) refl
