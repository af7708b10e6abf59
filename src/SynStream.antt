-- ===== src/SynStream.antt =====
-- src/spdy_syn_stream.c and spdy_syn_stream.h: the payload of a SYN_STREAM frame.
pub mod Header
pub mod Cursor
use spindly.Prelude.{
  ℕ, ◌+◌, ◌-◌, ◌*◌, ◌/◌, ◌%◌, ◌^◌, Option, none, some, List, [], ◌++◌, Run, done, abort, ◌>>=◌, ltb,
  ◌==◌, if◌then◌else◌, length,
}
use spindly.Codes.{Code, ok, inval, insuff, small_buffer, succeeded}
use spindly.Bytes.{load_8, be_load_32, be_store_16, be_store_32}
use spindly.Memory.{Answers}
use spindly.SpdyData.{SpdyData, available, at_cursor, advance}
use spindly.Zlib.{Zlib, spdy_zlib_deflate}
use spindly.NvBlock.{NvBlock, spdy_nv_block_init, spdy_nv_block_destroy}
use spindly.Hash.{hash_get}
use spindly.Env.{Env}
use spindly.NvInflate.{spdy_nv_block_inflate_parse}

pub record SynStream : Type 0 where
  pub stream_id : ℕ
  pub associated_to : ℕ
  pub priority : ℕ
  pub nv_block : NvBlock

-- A block of zero bytes, as memset leaves it, is an initialised block.
unfoldable pub spdy_syn_stream_init :
    SynStream → (stream_id associated_to prio : ℕ) → Option NvBlock → Run (Code × SynStream)
spdy_syn_stream_init str stream_id associated_to prio none = done (
  ok,
  record {
    stream_id = stream_id;
    associated_to = associated_to;
    priority = prio;
    nv_block = spdy_nv_block_init;
  },
)
spdy_syn_stream_init str stream_id associated_to prio (some _) = abort

-- SPDY_SYN_STREAM_MIN_LENGTH and SPDY_SYN_STREAM_HEADER_MIN_LENGTH
abbrev pub min_length : ℕ
min_length = 12

abbrev pub header_min_length : ℕ
header_min_length = 10

unfoldable pub spdy_syn_stream_parse_header :
    SynStream → SpdyData → Run (Code × SynStream × SpdyData)
spdy_syn_stream_parse_header syn d =
    if ltb (available d) header_min_length
    then done (insuff, syn, record d { needed = header_min_length - available d })
    else (do
      id ← be_load_32 (at_cursor d)
      let d4 = advance d 4
      associated ← be_load_32 (at_cursor d4)
      let d8 = advance d4 4
      prio ← load_8 (at_cursor d8)
      done (
        ok,
        record syn {
          stream_id = id % 2 ^ 31;
          associated_to = associated % 2 ^ 31;
          priority = prio / 2 ^ 6 % 4;
        },
        advance d8 2,
      ))

-- `data->cursor += frame_length - n`, where the subtraction is on uint32_t.
abbrev pub advance_payload : SpdyData → (frame_length n : ℕ) → SpdyData
advance_payload d frame_length n = advance d ((frame_length + 2 ^ 32 - n) % 2 ^ 32)

module _ (z : Zlib) where
  open z use {Strm}

  -- Behind the header: the id must be new, and the block is inflated and parsed.
  unfoldable pub parse_block :
      SynStream
      → SpdyData
      → (frame_length : ℕ) → Env Strm
      → Run (Code × SynStream × SpdyData × Env Strm)
  parse_block syn d frame_length env = do
    hn ← hash_get env.rounds env.store env.streamhash syn.stream_id
    if hn == 0
        then (do
          (rc, block, env') ←
              spdy_nv_block_inflate_parse z spdy_nv_block_init (at_cursor d) frame_length env
          let syn' = record syn { nv_block = block }
          if succeeded rc
              then done (ok, syn', advance_payload d frame_length header_min_length, env')
              else done (rc, syn', d, env'))
        else done (inval, syn, d, env)

  unfoldable pub spdy_syn_stream_parse :
      SynStream
      → SpdyData
      → (frame_length : ℕ) → Env Strm
      → Run (Code × SynStream × SpdyData × Env Strm)
  unfolding parse_block
  spdy_syn_stream_parse syn d frame_length env =
      if ltb (available d) frame_length
      then done (insuff, syn, record d { needed = frame_length - available d }, env)
      else (if ltb (available d) min_length
          then done (insuff, syn, record d { needed = min_length - available d }, env)
          else (do
            (rc, syn', d') ← spdy_syn_stream_parse_header syn d
            if succeeded rc
                then parse_block syn' d' frame_length env
                else done (rc, syn', d', env)))

  -- The deflated block behind the header of a packed frame: it is always the empty block. The code, the
  -- bytes, their number and the allocator's answers; `limit` is the size that the check names.
  unfoldable pub pack_empty_block :
      (header : List ℕ) → (bufsize limit outsize : ℕ) → Answers → Run (Code × List ℕ × ℕ × Answers)
  pack_empty_block header bufsize limit outsize memory = do
    r ← spdy_zlib_deflate z (be_store_16 0) 2 0 memory
    if succeeded r.code
        then (if ltb bufsize (limit + length r.dest)
            then done (small_buffer, [], 0, r.memory)
            else done (ok, header ++ r.dest, outsize + length r.dest, r.memory))
        else done (r.code, [], 0, r.memory)

  -- The bytes written to `out` and `*outsize`; an error gives neither a meaning.
  unfoldable pub spdy_syn_stream_pack :
      (bufsize : ℕ) → SynStream → Answers → Run (Code × List ℕ × ℕ × Answers)
  unfolding pack_empty_block
  spdy_syn_stream_pack bufsize str memory =
      if ltb bufsize 10
      then done (small_buffer, [], 0, memory)
      else pack_empty_block
          (be_store_32 str.stream_id
            ++ (be_store_32 str.associated_to ++ be_store_16 (str.priority * 2 ^ 14)))
          bufsize 10 10 memory

abbrev pub spdy_syn_stream_destroy : SynStream → Run (Unit {0})
spdy_syn_stream_destroy syn = spdy_nv_block_destroy syn.nv_block
