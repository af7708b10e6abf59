-- ===== src/Stream.antt =====
-- src/spindly_stream.c: making streams, and answering the peer's.
pub mod Handshake
pub mod Opening
use spindly.Prelude.{
  ℕ, ◌+◌, ◌%◌, ◌^◌, Bool, true, false, none, Run, done, abort, ◌>>=◌, ◌>>◌, ltb, ◌==◌,
  if◌then◌else◌,
}
use spindly.Codes.{Code, ok, nomem, inval, succeeded}
use spindly.Memory.{malloc}
use spindly.LinkedList.{Ptr, update, list_add, list_first, list_remove}
use spindly.Hash.{hash_store}
use spindly.Zlib.{Zlib}
use spindly.ControlFrame.{
  ControlFrame, spdy_control_frame_init, spdy_control_frame_destroy, spdy_control_frame_pack,
  spdy_control_mk_syn_stream, spdy_control_mk_syn_reply, spdy_control_mk_rst_stream,
}
use spindly.Phys.{
  StreamState, stream_new, stream_acked, stream_closed, idle, SpdyStream, Stream, Phys, outq, pendq,
  phys_outbufsize, heap_of, set_heap, hash_rounds, phys_add_stream,
}

-- PRIO_MAX
abbrev pub prio_max : ℕ
prio_max = 7

-- _spindly_stream_init0, on a cleared struct.
abbrev pub stream_init0 : (store_received_data store_frames : Bool) → Code × SpdyStream
stream_init0 received frames =
    (ok, record { state = idle; store_received_data = received; store_frames = frames })

abbrev pub is_new : StreamState → Bool
is_new stream_new = true
is_new _ = false

module _ (z : Zlib) where
  open z use {Strm}

  -- Pack a frame into the first pending buffer and queue it: the part that _spindly_stream_init and
  -- stream_acknack share. On an error the buffer is in no list any more.
  unfoldable pub send_frame : Phys Strm → (s : Ptr) → ControlFrame → Run (Code × Phys Strm)
  send_frame phys s frame =
      let od = list_first (heap_of phys) pendq in
      if od == 0
      then abort
      else (let unlinked = set_heap phys (list_remove (heap_of phys) od) in
          do
            (rc, bytes, size, later) ← spdy_control_frame_pack z phys_outbufsize frame phys.memory
            let paid = record unlinked { memory = later }
            if succeeded rc
                then done (
                  ok,
                  record (set_heap paid (list_add (heap_of paid) outq od)) {
                    outdata =
                        update phys.outdata od (record { len = size; buffer = bytes; stream = s });
                  },
                )
                else done (rc, paid))

  -- The end of _spindly_stream_init: the stream joins the connection's list and the hash, whose answer
  -- is not looked at.
  unfoldable pub register_stream : Phys Strm → (s streamid : ℕ) → Run (Phys Strm)
  unfolding phys_add_stream
  register_stream phys s streamid = do
    let (rc, added) = phys_add_stream phys s
    (rc', store, later) ←
        hash_store (hash_rounds added) added.store added.streamhash streamid s added.memory
    done (record added { store = store; memory = later })

  -- `stack` is what the uninitialised `ctrl_frame` holds. The code, `*stream` and the connection; an error
  -- leaves `*stream` alone.
  unfoldable pub stream_init :
      (stack : ControlFrame)
      → Phys Strm
      → (prio userp config streamid : ℕ) → Run (Code × Ptr × Phys Strm)
  unfolding send_frame register_stream
  stream_init stack phys prio userp config streamid =
      if ltb prio_max prio
      then done (inval, 0, phys)
      else (let (s, later) = malloc phys.memory in
          let made : Stream = record {
            state = stream_new;
            streamid = streamid;
            userp = userp;
            prio = prio;
            config = config;
            spdy = (stream_init0 false false).1;
          } in
          let phys' = record phys { memory = later; stream_at = update phys.stream_at s made } in
          if s == 0
          then done (nomem, 0, record phys { memory = later })
          else (if streamid == 0
              then (do
                (rc, frame) ← spdy_control_mk_syn_stream phys.streamid 0 prio none
                (rc', sent) ← send_frame phys' s frame
                if succeeded rc'
                    then (do
                      added ← register_stream sent s phys.streamid
                      spdy_control_frame_destroy frame
                      done (ok, s, record added { streamid = (phys.streamid + 2) % 2 ^ 32 }))
                    else (do spdy_control_frame_destroy frame; done (rc', 0, sent)))
              else (do
                added ← register_stream phys' s streamid
                spdy_control_frame_destroy (spdy_control_frame_init stack)
                done (ok, s, added))))

  unfoldable pub spindly_stream_new :
      (stack : ControlFrame) → Phys Strm → (prio userp config : ℕ) → Run (Code × Ptr × Phys Strm)
  unfolding stream_init
  spindly_stream_new stack phys prio userp config = stream_init stack phys prio userp config 0

  unfoldable pub stream_acknack : Phys Strm → (s : Ptr) → (ack : Bool) → Run (Code × Phys Strm)
  unfolding send_frame
  stream_acknack phys s ack =
      let stream = phys.stream_at s in
      if is_new stream.state
      then (let (rc, frame) =
            if ack
            then spdy_control_mk_syn_reply stream.streamid none
            else spdy_control_mk_rst_stream stream.streamid 0 in
          do
            (rc', sent) ← send_frame phys s frame
            let answered = record stream { state = if ack then stream_acked else stream_closed }
            if succeeded rc'
                then done (ok, record sent { stream_at = update phys.stream_at s answered })
                else done (rc', sent))
      else done (inval, phys)

  unfoldable pub spindly_stream_ack : Phys Strm → (s : Ptr) → Run (Code × Phys Strm)
  unfolding stream_acknack
  spindly_stream_ack phys s = stream_acknack phys s true

  unfoldable pub spindly_stream_nack : Phys Strm → (s : Ptr) → Run (Code × Phys Strm)
  unfolding stream_acknack
  spindly_stream_nack phys s = stream_acknack phys s false
