-- ===== src/DataFrame.antt =====
-- src/spdy_data_frame.c and spdy_data_frame.h: data frames.
pub mod Header
pub mod Payload
use spindly.Prelude.{
  ℕ, ◌+◌, ◌-◌, ◌*◌, ◌/◌, ◌%◌, ◌^◌, Option, none, some, List, [], ◌++◌, Run, done, ◌>>=◌, ltb, ◌==◌,
  if◌then◌else◌, set,
}
use spindly.Codes.{Code, ok, nomem, insuff, small_buffer, succeeded}
use spindly.Bytes.{load_8, be_load_32, be_store_32}
use spindly.Memory.{Answers, malloc, memcpy}
use spindly.SpdyData.{SpdyData, available, at_cursor, advance}

-- `payload` is the member `data`, with `none` for NULL.
pub record DataFrame : Type 0 where
  pub stream_id : ℕ
  pub flags : ℕ
  pub length : ℕ
  pub payload : Option (List ℕ)

abbrev pub min_length : ℕ
min_length = 8

abbrev pub spdy_data_frame_init : DataFrame → DataFrame
spdy_data_frame_init frame = record frame { stream_id = 0 }

-- A stream id other than 0 says that the header has been parsed before.
unfoldable pub spdy_data_frame_parse_header :
    DataFrame → SpdyData → Run (Code × DataFrame × SpdyData)
spdy_data_frame_parse_header frame d =
    if frame.stream_id == 0
    then (if ltb (available d) min_length
        then done (insuff, frame, record d { needed = min_length - available d })
        else do
          id ← be_load_32 (at_cursor d)
          let d4 = advance d 4
          first ← load_8 (at_cursor d4)
          word ← be_load_32 (at_cursor d4)
          done (
            ok,
            record {
              stream_id = id % 2 ^ 31;
              flags = first;
              length = word % 2 ^ 24;
              payload = none;
            },
            advance d4 4,
          ))
    else done (ok, frame, d)

unfoldable pub spdy_data_frame_parse :
    DataFrame → SpdyData → Answers → Run (Code × DataFrame × SpdyData × Answers)
spdy_data_frame_parse frame d memory = do
  (rc, f, d') ← spdy_data_frame_parse_header frame d
  if succeeded rc
      then (if ltb (available d') f.length
          then done (insuff, f, record d' { needed = f.length - available d' }, memory)
          else (let (p, later) = malloc memory in
              if p == 0 then done (nomem, record f { payload = none }, d', later) else do
                bytes ← memcpy f.length (at_cursor d')
                done (ok, record f { payload = some bytes }, advance d' f.length, later)))
      else done (rc, f, d', memory)

-- `x & 0x8FFFFFFF` on a uint32_t.
abbrev pub pack_mask : ℕ → ℕ
pack_mask x = x % 2 ^ 28 + x / 2 ^ 31 % 2 * 2 ^ 31

-- The code, what is written to `out`, and `*outlen`; an error writes neither.
unfoldable pub spdy_data_frame_pack_header : (bufsize : ℕ) → DataFrame → Code × List ℕ × ℕ
spdy_data_frame_pack_header bufsize frame = if ltb bufsize 8 then (small_buffer, [], 0) else (
  ok,
  be_store_32 (pack_mask frame.stream_id) ++ set (be_store_32 frame.length) 0 frame.flags,
  8,
)

abbrev pub spdy_data_frame_destroy : DataFrame → DataFrame
spdy_data_frame_destroy frame = record frame { payload = none }
