-- ===== src/SpdyData.antt =====
-- src/spdy_data.c and spdy_data.h: the cursor over received bytes.
pub mod Laws
use spindly.Prelude.{ℕ, ◌+◌, ◌-◌, ◌%◌, ◌^◌, ◌≤◌, ◌<◌, List, length, drop}

-- `buf` holds the bytes from `data` up to `data_end`, and `cursor` counts from `data`.
pub record SpdyData : Type 0 where
  pub buf : List ℕ
  pub cursor : ℕ
  pub needed : ℕ

-- spdy_data_use: the value does not depend on what the target held.
abbrev pub spdy_data_use : List ℕ → SpdyData
spdy_data_use data_in = record { buf = data_in; cursor = 0; needed = 0 }

-- spdy_data_copy: the new content of `data_out`.
abbrev pub spdy_data_copy : (data_out data_in : SpdyData) → SpdyData
spdy_data_copy data_out data_in = record {
  buf = data_in.buf;
  cursor = data_in.cursor;
  needed = data_in.needed;
}

-- The size_t `data->data_end - data->cursor`, which wraps if the cursor has passed the end.
unfoldable pub available : SpdyData → ℕ
available d = (length d.buf + 2 ^ 64 - d.cursor) % 2 ^ 64

-- The pointer `data->cursor`, as the bytes that can be read through it.
unfoldable pub at_cursor : SpdyData → List ℕ
at_cursor d = drop d.cursor d.buf

-- `data->cursor += n`
abbrev pub advance : SpdyData → ℕ → SpdyData
advance d n = record d { cursor = d.cursor + n }

-- The cursor lies in a buffer of a size that a process can hold.
pub record IsWithin (d : SpdyData) : Type 0 where
  pub inside : d.cursor ≤ length d.buf
  pub small : length d.buf < 2 ^ 63
