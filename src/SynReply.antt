-- ===== src/SynReply.antt =====
-- src/spdy_syn_reply.c and spdy_syn_reply.h: the payload of a SYN_REPLY frame.
pub mod Header
pub mod Payload
use spindly.Prelude.{ℕ, ◌-◌, ◌%◌, ◌^◌, List, [], ◌++◌, Run, done, ◌>>=◌, ltb, if◌then◌else◌}
use spindly.Codes.{Code, ok, insuff, small_buffer, succeeded}
use spindly.Bytes.{be_load_32, be_store_16, be_store_32}
use spindly.Memory.{Answers}
use spindly.SpdyData.{SpdyData, available, at_cursor, advance}
use spindly.Zlib.{Zlib}
use spindly.NvBlock.{NvBlock, spdy_nv_block_init, spdy_nv_block_destroy}
use spindly.Env.{Env}
use spindly.NvInflate.{spdy_nv_block_inflate_parse}
use spindly.SynStream.{advance_payload, pack_empty_block}

pub record SynReply : Type 0 where
  pub stream_id : ℕ
  pub nv_block : NvBlock

-- SPDY_SYN_REPLY_MIN_LENGTH and SPDY_SYN_REPLY_HEADER_MIN_LENGTH
abbrev pub min_length : ℕ
min_length = 8

abbrev pub header_min_length : ℕ
header_min_length = 6

unfoldable pub spdy_syn_reply_parse_header : SynReply → SpdyData → Run (Code × SynReply × SpdyData)
spdy_syn_reply_parse_header rep d =
    if ltb (available d) header_min_length
    then done (insuff, rep, record d { needed = header_min_length - available d })
    else (do
      id ← be_load_32 (at_cursor d)
      done (ok, record rep { stream_id = id % 2 ^ 31 }, advance d 6))

module _ (z : Zlib) where
  open z use {Strm}

  -- Behind the header.
  unfoldable pub parse_block :
      SynReply
      → SpdyData
      → (frame_length : ℕ) → Env Strm
      → Run (Code × SynReply × SpdyData × Env Strm)
  parse_block rep d frame_length env = do
    (rc, block, env') ←
        spdy_nv_block_inflate_parse z spdy_nv_block_init (at_cursor d) frame_length env
    let rep' = record rep { nv_block = block }
    if succeeded rc
        then done (ok, rep', advance_payload d frame_length header_min_length, env')
        else done (rc, rep', d, env')

  unfoldable pub spdy_syn_reply_parse :
      SynReply
      → SpdyData
      → (frame_length : ℕ) → Env Strm
      → Run (Code × SynReply × SpdyData × Env Strm)
  unfolding parse_block
  spdy_syn_reply_parse rep d frame_length env =
      if ltb (available d) min_length
      then done (insuff, rep, record d { needed = min_length - available d }, env)
      else (do
        (rc, rep', d') ← spdy_syn_reply_parse_header rep d
        if succeeded rc then parse_block rep' d' frame_length env else done (rc, rep', d', env))

  -- The size check names 10 bytes where the header has 6.
  unfoldable pub spdy_syn_reply_pack :
      (bufsize : ℕ) → SynReply → Answers → Run (Code × List ℕ × ℕ × Answers)
  unfolding pack_empty_block
  spdy_syn_reply_pack bufsize rep memory =
      if ltb bufsize 6
      then done (small_buffer, [], 0, memory)
      else pack_empty_block z (be_store_32 rep.stream_id ++ be_store_16 0) bufsize 10 6 memory

abbrev pub spdy_syn_reply_destroy : SynReply → Run (Unit {0})
spdy_syn_reply_destroy rep = spdy_nv_block_destroy rep.nv_block
