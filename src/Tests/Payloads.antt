-- ===== src/Tests/Payloads.antt =====
-- Received SYN_STREAM and SYN_REPLY payloads, with and without bytes behind the frame.
use spindly.Prelude.{none, length, ◌+◌, ◌≤◌, ◌≡◌, refl, true, [], ◌∷◌, ◌++◌, done, arith, replicate}
use spindly.Codes.{ok}
use spindly.Bytes.{be_store_16, load_8, be_load_32, be_load_16}
use spindly.Memory.{memcpy}
use spindly.SpdyData.{SpdyData, spdy_data_use, at_cursor, available, advance}
use spindly.Hash.{hash_get, get_loop}
use spindly.Zlib.{spdy_zlib_inflate, inflate_outer, inflate_inner, inflate_step}
use spindly.NvBlock.{NvBlock, spdy_nv_block_init, spdy_nv_block_parse}
use spindly.NvInflate.{spdy_nv_block_inflate_parse}
use spindly.Env.{Env}
use spindly.SynStream.{
  SynStream, spdy_syn_stream_init, spdy_syn_stream_parse_header, spdy_syn_stream_parse,
}
use spindly.SynStream.Cursor.{spdy_syn_stream_parse-cursor}
use spindly.SynReply.{SynReply, spdy_syn_reply_parse_header, spdy_syn_reply_parse}
use spindly.SynReply.Payload.{spdy_syn_reply_parse-cursor}
use spindly.Zlib.{Deflated, spdy_zlib_deflate}
use spindly.ControlFrame.{
  ControlFrame, zero_frame, spdy_control_mk_syn_stream, spdy_control_frame_parse_header,
}
use spindly.ControlFrame.Announced.{mk_syn_stream_announced}
use spindly.Phys.{env_of}
use spindly.Tests.Codec.{copying}
use spindly.Tests.Connection.{quiet, syn_input, some_syn, some_frame, frame_bytes, frame_packs}

abbrev blank_syn : SynStream
blank_syn = record { stream_id = 0; associated_to = 0; priority = 0; nv_block = spdy_nv_block_init }

abbrev blank_rep : SynReply
blank_rep = record { stream_id = 0; nv_block = spdy_nv_block_init }

header_read :
    spdy_syn_stream_parse_header blank_syn syn_input ≡ done (ok, some_syn, advance syn_input 10)
unfolding spdy_syn_stream_parse_header be_load_32 load_8 at_cursor available
header_read = refl

id_is_new : hash_get 1 quiet.store quiet.streamhash 1 ≡ done 0
unfolding hash_get get_loop
id_is_new = refl

-- The same frame with ten bytes behind it.
abbrev longer_input : SpdyData
longer_input = spdy_data_use (syn_input.buf ++ replicate 10 0)

abbrev env_after : Env (Unit {0})
env_after = record (env_of quiet) { memory = [] }

abbrev read_block : NvBlock
read_block = record spdy_nv_block_init { has_count = true }

longer_parses :
    spdy_syn_stream_parse copying blank_syn longer_input 12 (env_of quiet)
    ≡ done (ok, record some_syn { nv_block = read_block }, advance longer_input 12, env_after)
unfolding spdy_syn_stream_parse spdy_syn_stream_parse_header be_load_32 load_8 at_cursor available
    hash_get get_loop spdy_nv_block_inflate_parse spdy_zlib_inflate inflate_outer inflate_inner
    inflate_step memcpy spdy_nv_block_parse be_load_16
longer_parses = refl

spdy_syn_stream_parse-cursor_example :
    (12 ≤ available longer_input)
    × (12 ≤ available longer_input)
    × (advance longer_input 12 ≡ advance longer_input 12)
spdy_syn_stream_parse-cursor_example =
    spdy_syn_stream_parse-cursor copying blank_syn (record some_syn { nv_block = read_block })
      longer_input (advance longer_input 12) 12 (env_of quiet) env_after (omega arith) longer_parses

-- A reply for stream 7.
abbrev reply_bytes : SpdyData
reply_bytes = spdy_data_use (0 ∷ 0 ∷ 0 ∷ 7 ∷ 0 ∷ 0 ∷ 0 ∷ 0 ∷ [])

abbrev reply_7 : SynReply
reply_7 = record { stream_id = 7; nv_block = spdy_nv_block_init }

reply_header_read :
    spdy_syn_reply_parse_header blank_rep reply_bytes ≡ done (ok, reply_7, advance reply_bytes 6)
unfolding spdy_syn_reply_parse_header be_load_32 at_cursor available
reply_header_read = refl

abbrev longer_reply : SpdyData
longer_reply = spdy_data_use (reply_bytes.buf ++ replicate 6 0)

reply_parses :
    spdy_syn_reply_parse copying blank_rep longer_reply 8 (env_of quiet)
    ≡ done (ok, record reply_7 { nv_block = read_block }, advance longer_reply 8, env_after)
unfolding spdy_syn_reply_parse spdy_syn_reply_parse_header be_load_32 at_cursor available
    spdy_nv_block_inflate_parse spdy_zlib_inflate inflate_outer inflate_inner inflate_step memcpy
    spdy_nv_block_parse be_load_16
reply_parses = refl

spdy_syn_reply_parse-cursor_example :
    (8 ≤ available longer_reply) × (advance longer_reply 8 ≡ advance longer_reply 8)
spdy_syn_reply_parse-cursor_example =
    spdy_syn_reply_parse-cursor copying blank_rep (record reply_7 { nv_block = read_block })
      longer_reply (advance longer_reply 8) 8 (env_of quiet) env_after (omega arith) reply_parses

frame_is_made : spdy_control_mk_syn_stream 1 0 3 none ≡ done (ok, some_frame)
unfolding spdy_control_mk_syn_stream spdy_syn_stream_init
frame_is_made = refl

mk_syn_stream_announced_example :
    (f : ControlFrame) × (d : Deflated) × (spdy_control_frame_parse_header zero_frame
        (spdy_data_use frame_bytes)
      ≡ done (ok, f, advance (spdy_data_use frame_bytes) 8))
    × (f.type ≡ 1)
    × (f.length ≡ 10)
    × (spdy_zlib_deflate copying (be_store_16 0) 2 0 (7 ∷ []) ≡ done d)
    × (20 ≡ 8 + f.length + length d.dest)
mk_syn_stream_announced_example =
    mk_syn_stream_announced copying 1 0 3 128 20 some_frame zero_frame (7 ∷ []) [] frame_bytes
      frame_is_made frame_packs (omega arith) refl
