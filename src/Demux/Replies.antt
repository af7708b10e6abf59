-- ===== src/Demux/Replies.antt =====
-- What the demultiplexer makes of a SYN_REPLY.
use spindly.Prelude.{Option, none, some, ◌==◌, length, if◌then◌else◌}
use spindly.Codes.{Code, ok, protocol}
use spindly.LinkedList.{Ptr, update}
use spindly.Hash.Cells.{Cells}
use spindly.Zlib.{Zlib}
use spindly.ControlFrame.{ControlFrame}
use spindly.Phys.{Phys, stream_acked, without_chunk}
use spindly.Demux.{Demux, dx_stream_ack}

-- What a reply comes to: the code, the message and the connection, by what is stored under its id.
abbrev pub after_reply : {Strm : Type 0} → Phys Strm → Demux → Option Ptr → Code × Demux × Phys Strm
after_reply phys message none = (protocol, message, phys)
after_reply phys message (some s) = (
  ok,
  record { type = dx_stream_ack; stream = s },
  record phys {
    stream_at = update phys.stream_at s (record (phys.stream_at s) { state = stream_acked });
  },
)

-- The connection once a frame is delivered: the chunk is off the queue if its bytes are used up.
abbrev pub settled : {Strm : Type 0} → Phys Strm → (chunk : Ptr) → Phys Strm
settled phys chunk =
    if phys.input.cursor == length phys.input.buf then without_chunk phys chunk else phys
