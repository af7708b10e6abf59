-- ===== src/Peer.antt =====
-- The two ends of a connection: the frame that _spindly_stream_init of src/spindly_stream.c makes for a new
-- stream, and what spindly_phys_demux of src/spindly_phys.c makes of it at the other end.
pub mod Read
pub mod Accept
pub mod Receive
pub mod Send
pub mod Exchange
use spindly.Prelude.{ℕ, true, List, ◌++◌}
use spindly.NvBlock.{spdy_nv_block_init}
use spindly.SynStream.{SynStream}
use spindly.SynStream.Header.{fixed_part}
use spindly.ControlFrame.{
  ControlFrame, ctrl_syn_stream, zero_frame, zero_obj, spdy_control_frame_pack_header,
}
use spindly.Phys.{phys_outbufsize}

abbrev pub opened_syn : (id prio : ℕ) → SynStream
opened_syn id prio = record {
  stream_id = id;
  associated_to = 0;
  priority = prio;
  nv_block = spdy_nv_block_init;
}

-- The frame of a new stream.
abbrev pub opened_frame : (id prio : ℕ) → ControlFrame
opened_frame id prio = record zero_frame {
  header_parsed = true;
  version = 2;
  type = ctrl_syn_stream;
  length = 10;
  obj = record zero_obj { syn_stream = opened_syn id prio };
}

-- Its bytes, where the empty block is deflated to `block`.
abbrev pub opened_bytes : (id prio : ℕ) → (block : List ℕ) → List ℕ
opened_bytes id prio block =
    (spdy_control_frame_pack_header phys_outbufsize (opened_frame id prio)).1
    ++ (fixed_part (opened_syn id prio) ++ block)
