-- ===== src/Headers.antt =====
-- src/spdy_headers.c and spdy_headers.h: the payload of a HEADERS frame.
use spindly.Prelude.{ℕ, ◌-◌, ◌%◌, ◌^◌, Option, Run, done, ◌>>=◌, ltb, if◌then◌else◌}
use spindly.Codes.{Code, ok, insuff, succeeded}
use spindly.Bytes.{be_load_32}
use spindly.SpdyData.{SpdyData, available, at_cursor, advance}
use spindly.Zlib.{Zlib}
use spindly.NvBlock.{NvBlock}
use spindly.Env.{Env}
use spindly.NvInflate.{inflate_parse_at}
use spindly.SynStream.{advance_payload}

-- `nv_block` is a pointer, with `none` for NULL and for any other that leads to no block.
pub record Headers : Type 0 where
  pub stream_id : ℕ
  pub nv_block : Option NvBlock

-- SPDY_HEADERS_MIN_LENGTH
abbrev pub min_length : ℕ
min_length = 8

-- The member is a uint16_t.
unfoldable pub spdy_headers_parse_header : Headers → SpdyData → Run (Code × Headers × SpdyData)
spdy_headers_parse_header headers d =
    if ltb (available d) min_length
    then done (insuff, headers, record d { needed = min_length - available d })
    else (do
      id ← be_load_32 (at_cursor d)
      done (ok, record headers { stream_id = id % 2 ^ 31 % 2 ^ 16 }, advance d 4))

module _ (z : Zlib) where
  open z use {Strm}

  -- Behind the header.
  unfoldable pub parse_block :
      Headers
      → SpdyData
      → (frame_length : ℕ) → Env Strm
      → Run (Code × Headers × SpdyData × Env Strm)
  parse_block headers d frame_length env = do
    (rc, block, env') ← inflate_parse_at z headers.nv_block (at_cursor d) frame_length env
    let headers' = record headers { nv_block = block }
    if succeeded rc
        then done (ok, headers', advance_payload d frame_length min_length, env')
        else done (rc, headers', d, env')

  unfoldable pub spdy_headers_parse :
      Headers
      → SpdyData
      → (frame_length : ℕ) → Env Strm
      → Run (Code × Headers × SpdyData × Env Strm)
  unfolding parse_block
  spdy_headers_parse headers d frame_length env =
      if ltb (available d) min_length
      then done (insuff, headers, record d { needed = min_length - available d }, env)
      else (do
        (rc, headers', d') ← spdy_headers_parse_header headers d
        if succeeded rc
            then parse_block headers' d' frame_length env
            else done (rc, headers', d', env))
