-- ===== src/Tests/Frames.antt =====
-- The second data frame on a connection, and a SYN_REPLY.
use spindly.Prelude.{
  ℕ, List, none, false, ◌%◌, ◌^◌, length, ◌++◌, ◌≡◌, some, [], ◌∷◌, done, arith, refl,
}
use spindly.Codes.{ok}
use spindly.SpdyData.{SpdyData, spdy_data_use, at_cursor, advance}
use spindly.Bytes.{be_store_16, be_store_32}
use spindly.Zlib.{spdy_zlib_deflate}
use spindly.NvBlock.{spdy_nv_block_init}
use spindly.SynReply.{SynReply, spdy_syn_reply_pack, spdy_syn_reply_parse_header}
use spindly.SynReply.Header.{syn_reply_parse_header-pack}
use spindly.DataFrame.{DataFrame, spdy_data_frame_pack_header}
use spindly.Frame.Again.{frame_bytes, IsPacked}
use spindly.LinkedList.{list_add, list_first}
use spindly.Demux.{dx_data, phys_demux}
use spindly.Demux.Again.{second_frame_misread}
use spindly.Tests.Storage.{no_lists, no_store}
use spindly.ControlFrame.{zero_frame}
use spindly.Phys.{Phys, inq, heap_of}
use spindly.Tests.Codec.{copying}
use spindly.Tests.Connection.{quiet, no_message}

-- A frame for stream 5, and behind it one for stream 6.
abbrev five : DataFrame
five = record { stream_id = 5; flags = 0; length = 1; payload = none }

abbrev six_bytes : List ℕ
six_bytes = 0 ∷ 0 ∷ 0 ∷ 6 ∷ 0 ∷ 0 ∷ 0 ∷ 1 ∷ 8 ∷ []

five-IsPacked : IsPacked five (9 ∷ []) six_bytes
unfolding spdy_data_frame_pack_header be_store_32
five-IsPacked = record {
  id = omega arith;
  flags = omega arith;
  size = omega arith;
  counted = refl;
  small = omega arith;
}

abbrev two_frames : Phys (Unit {0})
two_frames = record quiet {
  store = record no_store { heap = list_add no_lists inq 200 };
  indata = λ p. record {
    identifier = 0;
    bytes = frame_bytes five (9 ∷ []) six_bytes;
    datalen = length (frame_bytes five (9 ∷ []) six_bytes);
    copied = false;
    data_freed = false;
  };
  memory = 300 ∷ 304 ∷ [];
}

chunk_first : list_first (heap_of two_frames) inq ≡ 200
unfolding list_add
chunk_first = refl

second_frame_misread_example :
    (phys1 : Phys (Unit {0})) × (phys2 : Phys (Unit {0})) × (phys_demux copying zero_frame 1
        two_frames no_message
      ≡ done (ok, record no_message { type = dx_data }, phys1))
    × (phys1.frame.payload ≡ record five { stream_id = 5 % 2 ^ 28; payload = some (9 ∷ []) })
    × (phys_demux copying zero_frame 1 phys1 no_message
        ≡ done (ok, record no_message { type = dx_data }, phys2))
    × (phys2.frame.payload ≡ record five { stream_id = 5 % 2 ^ 28; payload = some (0 ∷ []) })
second_frame_misread_example =
    second_frame_misread copying zero_frame five (9 ∷ []) six_bytes five-IsPacked (omega arith)
      two_frames no_message no_message 0 0 200 300 304 [] (omega arith) refl (omega arith)
      chunk_first (omega arith) refl refl refl (omega arith) (omega arith)

abbrev reply : ℕ → SynReply
reply id = record { stream_id = id; nv_block = spdy_nv_block_init }

reply_packs :
    spdy_syn_reply_pack copying 128 (reply 7) (1 ∷ [])
    ≡ done (ok, 0 ∷ 0 ∷ 0 ∷ 7 ∷ 0 ∷ 0 ∷ 0 ∷ 0 ∷ [], 8, [])
unfolding spdy_syn_reply_pack spdy_zlib_deflate be_store_16 be_store_32
reply_packs = refl

abbrev reply_input : SpdyData
reply_input = spdy_data_use (0 ∷ 0 ∷ 0 ∷ 7 ∷ 0 ∷ 0 ∷ 0 ∷ 0 ∷ [])

reply_input-at : at_cursor reply_input ≡ (0 ∷ 0 ∷ 0 ∷ 7 ∷ 0 ∷ 0 ∷ 0 ∷ 0 ∷ []) ++ []
unfolding at_cursor
reply_input-at = refl

syn_reply_parse_header-pack_example :
    spdy_syn_reply_parse_header (reply 0) reply_input ≡ done (ok, reply 7, advance reply_input 6)
syn_reply_parse_header-pack_example =
    syn_reply_parse_header-pack copying 128 (reply 7) (reply 0) (1 ∷ [])
      (0 ∷ 0 ∷ 0 ∷ 7 ∷ 0 ∷ 0 ∷ 0 ∷ 0 ∷ []) 8 [] reply_input [] reply_packs
      (record { inside = omega arith; small = omega arith }) reply_input-at
