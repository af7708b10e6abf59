-- ===== src/Zlib/Contract.antt =====
-- What src/spdy_zlib.c relies on in zlib, as far as a whole input is handed over at once: the manual's
-- description of deflate() with Z_FINISH and of inflate() with Z_SYNC_FLUSH and a preset dictionary.
use spindly.Prelude.{ℕ, ◌≤◌, ◌<◌, ◌≡◌, ◌⊎◌, List, [], length, take, drop}
use spindly.Zlib.{
  ZRet, z_ok, z_stream_end, z_need_dict, sync_flush, z_finish, ZStep, Zlib, spdy_zlib_dictionary,
}

-- "Progress has been made", or all is done.
abbrev pub Goes : ZRet → Type 0
Goes ret = (ret ≡ z_ok) ⊎ (ret ≡ z_stream_end)

-- A call with room for `room` bytes where `w` is still to be written: it writes as much as fits. If that
-- is all of it and there is room left, the end is reported, and `End` holds of the stream; if the room is
-- used up, `More` holds of the stream, the input left and what is still to be written.
abbrev pub Writes :
    {Strm : Type 0}
    → (End : Strm → Type 0) → (More : Strm → List ℕ → List ℕ → Type 0) → (room : ℕ) → (w : List ℕ)
    → ZStep Strm
    → Type 0
Writes End More room w step =
    Goes step.ret
    × (step.out ≡ take room w)
    × (length w < room → (step.ret ≡ z_stream_end) × (step.rest_in ≡ []) × End step.strm)
    × (room ≤ length w → More step.strm step.rest_in (drop room w))

-- `packed` is the compressed form of a text, with SPDY's dictionary. `Finishes s i w`: after the input `i` is
-- finished, the stream `s` has written `w`. `Yields s i v`: from the input `i`, the stream `s` writes `v`.
-- `IsOver s`: the stream `s` has reported its end.
pub record Contract (z : Zlib) : Type 1 where
  pub packed : List ℕ → List ℕ
  pub Finishes : z.Strm → (next_in w : List ℕ) → Type 0
  pub Yields : z.Strm → (next_in v : List ℕ) → Type 0
  pub IsOver : z.Strm → Type 0
  pub starts : z.deflate_init.0 ≡ z_ok
  pub takes_dictionary : (z.deflate_set_dictionary (z.deflate_init.1) spdy_zlib_dictionary).0 ≡ z_ok
  pub packs :
      (text : List ℕ)
      → Finishes
          (z.deflate_set_dictionary (z.deflate_init.1) spdy_zlib_dictionary).1
          text
          (packed text)
  pub finishing :
      (strm : z.Strm) (next_in w : List ℕ) (room : ℕ)
      → 0 < room
      → Finishes strm next_in w
      → Writes (λ _. Unit {0}) Finishes room w (z.deflate strm z_finish next_in room)
  pub packed_some : (text : List ℕ) → 0 < length (packed text)
  pub starts_inflating : (z.inflate_init2 0).0 ≡ z_ok
  -- A new stream reads the header of the compressed form and asks for the dictionary.
  pub asks :
      (text : List ℕ) (room : ℕ)
      → 0 < room
      → let step = z.inflate ((z.inflate_init2 0).1) sync_flush (packed text) room in
        (step.ret ≡ z_need_dict)
        × (step.out ≡ [])
        × ((z.inflate_set_dictionary step.strm spdy_zlib_dictionary).0 ≡ z_ok)
        × Yields (z.inflate_set_dictionary step.strm spdy_zlib_dictionary).1 step.rest_in text
  pub yielding :
      (strm : z.Strm) (next_in v : List ℕ) (room : ℕ)
      → 0 < room
      → Yields strm next_in v
      → Writes IsOver Yields room v (z.inflate strm sync_flush next_in room)
  -- Behind its end a stream reports its end again and writes nothing, until it is reset.
  pub over :
      (strm : z.Strm) (next_in : List ℕ) (room : ℕ)
      → 0 < room
      → IsOver strm
      → let step = z.inflate strm sync_flush next_in room in
        (step.ret ≡ z_stream_end) × (step.out ≡ []) × IsOver step.strm
