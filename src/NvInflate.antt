-- ===== src/NvInflate.antt =====
-- spdy_nv_block_inflate_parse of src/spdy_nv_block.c.
pub mod RoundTrip
pub mod Again
use spindly.Prelude.{ℕ, Option, none, some, List, Run, done, fault, ◌>>=◌, if◌then◌else◌}
use spindly.Codes.{Code, succeeded}
use spindly.Zlib.{Zlib, spdy_zlib_inflate}
use spindly.NvBlock.{NvBlock, spdy_nv_block_parse}
use spindly.Env.{Env}

module _ (z : Zlib) where
  open z use {Strm}

  -- `data` is the pointer, and `data_length` bytes are inflated from it. The block is behind a pointer
  -- that may not be valid: it is first used when the inflated bytes are parsed.
  unfoldable pub inflate_parse_at :
      Option NvBlock
      → List ℕ
      → (data_length : ℕ) → Env Strm
      → Run (Code × Option NvBlock × Env Strm)
  inflate_parse_at block bytes data_length env = do
    r ← spdy_zlib_inflate z env.zlib_in bytes data_length env.memory
    let env' = record env { zlib_in = r.strm; memory = r.memory }
    if succeeded r.code
        then (elim block [
          | none ↦ fault
          | some b ↦ do
            (rc, b', later) ← spdy_nv_block_parse b r.dest r.memory
            done (rc, some b', record env' { memory = later })
        ])
        else done (r.code, block, env')

  -- With the address of a block in a struct.
  unfoldable pub spdy_nv_block_inflate_parse :
      NvBlock → List ℕ → (data_length : ℕ) → Env Strm → Run (Code × NvBlock × Env Strm)
  spdy_nv_block_inflate_parse block bytes data_length env = do
    r ← spdy_zlib_inflate z env.zlib_in bytes data_length env.memory
    let env' = record env { zlib_in = r.strm; memory = r.memory }
    if succeeded r.code
        then (do
          (rc, b', later) ← spdy_nv_block_parse block r.dest r.memory
          done (rc, b', record env' { memory = later }))
        else done (r.code, block, env')
