-- ===== src/Stream/Handshake.antt =====
-- Answering the peer's streams.
use spindly.Prelude.{◌≡◌, done, abort, if◌then◌else◌, arith}
use spindly.Codes.{inval}
use spindly.LinkedList.{Ptr}
use spindly.Zlib.{Zlib}
use spindly.ControlFrame.{
  spdy_control_frame_pack, spdy_control_frame_pack_header, pack_payload, spdy_control_mk_rst_stream,
}
use spindly.Phys.{Phys}
use spindly.Stream.{is_new, send_frame, stream_acknack, spindly_stream_nack}

-- Refusing a stream of the peer's fails an assertion whenever the stream is new, since no RST_STREAM can
-- be packed; any other stream is an invalid argument and nothing changes.
pub spindly_stream_nack_aborts :
    (z : Zlib) (phys : Phys (z.Strm)) (s : Ptr)
    → spindly_stream_nack z phys s
      ≡ (if is_new ((phys.stream_at s).state) then abort else done (inval, phys))
unfolding spindly_stream_nack stream_acknack send_frame spdy_control_frame_pack
    spdy_control_frame_pack_header pack_payload spdy_control_mk_rst_stream
spindly_stream_nack_aborts z phys s = ground arith
