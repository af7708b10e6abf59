-- ===== src/Tests/Connection.antt =====
-- Control frames, and a connection with a few buffers and chunks.
use spindly.Prelude.{
  ◌<◌, ℕ, ◌≤◌, ◌≡◌, refl, true, false, none, some, List, [], ◌∷◌, ◌++◌, done, fault, abort, arith,
  length,
}
use spindly.Codes.{ok, insuff, inval}
use spindly.Bytes.{load_8, be_store_16, be_store_24, be_store_32}
use spindly.SpdyData.{SpdyData, spdy_data_use, available, at_cursor, advance}
use spindly.LinkedList.{update, list_add, list_first, list_next}
use spindly.LinkedList.Lists.{Lists, list_add-Lists}
use spindly.SynStream.{SynStream, spdy_syn_stream_parse_header, spdy_syn_stream_pack}
use spindly.SynStream.Header.{parse_header-pack}
use spindly.ControlFrame.{
  ControlFrame, zero_frame, zero_obj, ctrl_syn_stream, spdy_control_frame_parse_header,
  spdy_control_frame_pack_header, spdy_control_frame_pack, spdy_control_frame_parse,
}
use spindly.Zlib.{spdy_zlib_deflate}
use spindly.ControlFrame.Pack.{control_parse_header-pack_header, spdy_control_frame_pack-length}
use spindly.NvBlock.{spdy_nv_block_init}
use spindly.Frame.{Frame, data_frame, control_frame, spdy_frame_parse, spdy_frame_parse_header}
use spindly.Phys.{
  set_heap, Phys, client, stream_new, idle, Stream, OutData, InData, outq, inq, pendq, heap_of,
  env_of, phys_outgoing, phys_incoming, phys_sent,
}
use spindly.Phys.Queues.{
  report_each, report_each-phys_sent, phys_outgoing-phys_sent, phys_incoming-Lists,
}
use spindly.Stream.{spindly_stream_nack}
use spindly.Stream.Handshake.{spindly_stream_nack_aborts}
use spindly.Demux.{Demux, dx_none, phys_demux}
use spindly.Demux.Faults.{phys_demux_split}
use spindly.Tests.Storage.{no_lists, nothing_in, no_lists-Lists, no_store, some_hash}
use spindly.Tests.Codec.{copying}

abbrev pub some_syn : SynStream
some_syn = record { stream_id = 1; associated_to = 0; priority = 3; nv_block = spdy_nv_block_init }

abbrev pub some_frame : ControlFrame
some_frame = record zero_frame {
  header_parsed = true;
  version = 2;
  type = ctrl_syn_stream;
  length = 10;
  obj = record zero_obj { syn_stream = some_syn };
}

abbrev syn_bytes : List ℕ
syn_bytes = 0 ∷ 0 ∷ 0 ∷ 1 ∷ 0 ∷ 0 ∷ 0 ∷ 0 ∷ 192 ∷ 0 ∷ 0 ∷ 0 ∷ []

abbrev pub frame_bytes : List ℕ
frame_bytes = 128 ∷ 2 ∷ 0 ∷ 1 ∷ 0 ∷ 0 ∷ 0 ∷ 10 ∷ syn_bytes

pub frame_packs :
    spdy_control_frame_pack copying 128 some_frame (7 ∷ []) ≡ done (ok, frame_bytes, 20, [])
unfolding spdy_control_frame_pack spdy_control_frame_pack_header spdy_syn_stream_pack
    spdy_zlib_deflate be_store_16 be_store_24 be_store_32
frame_packs = refl

syn_packs : spdy_syn_stream_pack copying 128 some_syn (7 ∷ []) ≡ done (ok, syn_bytes, 12, [])
unfolding spdy_syn_stream_pack spdy_zlib_deflate be_store_16 be_store_32
syn_packs = refl

spdy_control_frame_pack-length_example : (length frame_bytes ≡ 20) × (20 ≤ 128)
spdy_control_frame_pack-length_example =
    spdy_control_frame_pack-length copying 128 some_frame (7 ∷ []) frame_bytes 20 [] frame_packs

abbrev frame_input : SpdyData
frame_input = spdy_data_use frame_bytes

frame_input-pack_header :
    at_cursor frame_input ≡ (spdy_control_frame_pack_header 128 some_frame).1 ++ syn_bytes
unfolding at_cursor spdy_control_frame_pack_header be_store_16 be_store_24
frame_input-pack_header = refl

control_parse_header-pack_header_example :
    spdy_control_frame_parse_header zero_frame frame_input
    ≡ done (
      ok,
      record zero_frame { header_parsed = true; version = 2; type = 1; flags = 0; length = 10 },
      advance frame_input 8,
    )
control_parse_header-pack_header_example =
    control_parse_header-pack_header some_frame zero_frame frame_input 128 syn_bytes
      (record { inside = omega arith; small = omega arith }) refl (omega arith) (omega arith)
      (omega arith) (omega arith) frame_input-pack_header

abbrev pub syn_input : SpdyData
syn_input = spdy_data_use syn_bytes

syn_input-at : at_cursor syn_input ≡ syn_bytes ++ []
unfolding at_cursor
syn_input-at = refl

parse_header-pack_example :
    spdy_syn_stream_parse_header zero_obj.syn_stream syn_input
    ≡ done (ok, some_syn, advance (advance (advance syn_input 4) 4) 2)
parse_header-pack_example =
    parse_header-pack copying 128 some_syn zero_obj.syn_stream (7 ∷ []) syn_bytes 12 [] syn_input []
      syn_packs (record { inside = omega arith; small = omega arith }) syn_input-at

-- A connection with a buffer to send.
abbrev no_stream : Stream
no_stream = record {
  state = stream_new;
  streamid = 2;
  userp = 0;
  prio = 0;
  config = 0;
  spdy = record { state = idle; store_received_data = false; store_frames = false };
}

abbrev three_out : OutData
three_out = record { len = 3; buffer = 1 ∷ 2 ∷ 3 ∷ []; stream = 0 }

-- The beginning of a SYN_STREAM frame.
abbrev cut_chunk : InData
cut_chunk = record {
  identifier = 0;
  bytes = 128 ∷ 2 ∷ [];
  datalen = 2;
  copied = false;
  data_freed = false;
}

abbrev blank : Frame
blank = record {
  header_parsed = false;
  type = data_frame;
  control = zero_frame;
  payload = record { stream_id = 0; flags = 0; length = 0; payload = none };
}

abbrev pub quiet : Phys (Unit {0})
quiet = record {
  side = client;
  protver = 2;
  num_streams = 0;
  streamid = 1;
  store = no_store;
  streamhash = some_hash;
  outgoing = 0;
  outgoing_tosend = 0;
  outdata = λ p. three_out;
  indata = λ p. cut_chunk;
  stream_at = λ p. no_stream;
  inq_size = 0;
  frame = blank;
  input = spdy_data_use [];
  parse = none;
  parsealloc = 0;
  parselen = 0;
  config = 0;
  zlib_in = tt;
  zlib_out = tt;
  memory = 300 ∷ [];
}

abbrev with_output : Phys (Unit {0})
with_output = record quiet { store = record no_store { heap = list_add no_lists 2 40 } }

with_output-Lists : Lists (heap_of with_output) (update nothing_in 2 (40 ∷ []))
with_output-Lists = list_add-Lists no_lists nothing_in no_lists-Lists 2 40 (omega arith) (λ k. refl)

phys_outgoing-phys_sent_example :
    (taken : Phys (Unit {0})) × (sent : Phys (Unit {0})) × (phys_outgoing with_output
      ≡ (ok, taken, some (1 ∷ 2 ∷ 3 ∷ []), 3))
    × Lists (heap_of taken) (update (update nothing_in 2 (40 ∷ [])) outq [])
    × (phys_sent taken 3 ≡ done (ok, sent))
    × Lists (heap_of sent) (
        update
          (update (update nothing_in 2 (40 ∷ [])) outq [])
          pendq
          (update nothing_in 2 (40 ∷ []) pendq ++ 40 ∷ []))
    × (sent.outgoing ≡ 0)
    × (sent.outgoing_tosend ≡ 0)
phys_outgoing-phys_sent_example =
    phys_outgoing-phys_sent with_output (update nothing_in 2 (40 ∷ [])) 40 [] with_output-Lists refl
      refl

phys_incoming-Lists_example :
    (phys' : Phys (Unit {0})) × (phys_incoming quiet (5 ∷ 6 ∷ []) 2 false 9 ≡ done (ok, phys'))
    × Lists (heap_of phys') (update nothing_in inq (300 ∷ []))
    × ((phys'.indata 300).bytes ≡ 5 ∷ 6 ∷ [])
    × ((phys'.indata 300).datalen ≡ 2)
    × ((phys'.indata 300).identifier ≡ 9)
phys_incoming-Lists_example =
    phys_incoming-Lists quiet nothing_in 300 [] (5 ∷ 6 ∷ []) 2 9 no_lists-Lists refl (omega arith)
      (λ k. refl)

abbrev sending : Phys (Unit {0})
sending = record with_output { outgoing = 40; outgoing_tosend = 3 }

report_each-phys_sent_example :
    (left : Phys (Unit {0})) × (report_each sending (1 ∷ 0 ∷ []) ≡ done left)
    × (left ≡ record sending { outgoing_tosend = 2 })
    × (phys_sent left 2
        ≡ done (
          ok,
          record (set_heap sending (list_add (heap_of sending) pendq 40)) {
            outgoing = 0;
            outgoing_tosend = 0;
          },
        ))
    × ((more : ℕ) → 2 < more → phys_sent left more ≡ done (inval, left))
report_each-phys_sent_example =
    report_each-phys_sent sending (1 ∷ 0 ∷ []) (omega arith) (omega arith)

spindly_stream_nack_aborts_example : spindly_stream_nack copying quiet 77 ≡ abort
spindly_stream_nack_aborts_example = spindly_stream_nack_aborts copying quiet 77

abbrev pub no_message : Demux
no_message = record { type = dx_none; stream = 0 }

abbrev two_chunks : Phys (Unit {0})
two_chunks = record quiet {
  store = record no_store { heap = list_add (list_add no_lists 3 300) 3 308 };
}

first_chunk : list_first (heap_of two_chunks) inq ≡ 300
unfolding list_add
first_chunk = refl

second_chunk : list_next (heap_of two_chunks) 300 ≡ 308
unfolding list_add
second_chunk = refl

cut_frame :
    spdy_frame_parse copying blank (spdy_data_use (128 ∷ 2 ∷ [])) (env_of two_chunks)
    ≡ done (
      insuff,
      record blank { header_parsed = true; type = control_frame },
      record (spdy_data_use (128 ∷ 2 ∷ [])) { needed = 6 },
      env_of two_chunks,
    )
unfolding spdy_frame_parse spdy_frame_parse_header spdy_control_frame_parse
    spdy_control_frame_parse_header load_8 at_cursor available
cut_frame = refl

phys_demux_split_example : phys_demux copying zero_frame 5 two_chunks no_message ≡ fault
phys_demux_split_example =
    phys_demux_split copying zero_frame two_chunks no_message 4 300 308
      (record blank { header_parsed = true; type = control_frame })
      (record (spdy_data_use (128 ∷ 2 ∷ [])) { needed = 6 }) (env_of two_chunks) (omega arith)
      first_chunk (omega arith) second_chunk (omega arith) refl refl cut_frame refl
