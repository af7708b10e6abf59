-- ===== src/Demux.antt =====
-- spindly_phys_demux of src/spindly_phys.c, with parse_append.
pub mod Faults
pub mod Again
pub mod Replies
use spindly.Prelude.{
  ℕ, zero, suc, ◌+◌, Bool, true, false, none, some, ◌++◌, Run, done, fault, abort, spin, ◌>>=◌,
  ◌>>◌, ltb, leb, ◌==◌, if◌then◌else◌, length,
}
use spindly.Codes.{Code, ok, nomem, insuff, protocol, succeeded}
use spindly.Memory.{malloc, memcpy}
use spindly.SpdyData.{spdy_data_use, available, at_cursor}
use spindly.LinkedList.{Ptr, update, list_first, list_next}
use spindly.Hash.{hash_get, entry_at}
use spindly.Zlib.{Zlib}
use spindly.ControlFrame.{ControlFrame, ctrl_syn_stream, ctrl_syn_reply}
use spindly.Frame.{is_control, spdy_frame_parse, spdy_frame_destroy}
use spindly.Phys.{stream_acked, Phys, inq, heap_of, hash_rounds, env_of, remove_inqnode}
use spindly.Stream.{stream_init}

-- spindly_demux_t
pub data DemuxType : Type 0 where
  dx_none dx_goaway dx_stream_ack dx_stream_req dx_stream_kill dx_settings dx_ping dx_data
        dx_headers :
      DemuxType

-- struct spindly_demux: `stream` is `msg.stream.stream`.
pub record Demux : Type 0 where
  pub type : DemuxType
  pub stream : Ptr

abbrev pub is_insuff : Code → Bool
is_insuff insuff = true
is_insuff _ = false

module _ {Strm : Type 0} where
  -- The two chunks become one: what is left of the first and the `datalen` bytes of the second. The
  -- buffer is used as it is, whatever realloc answered; a write or a read outside it is a fault.
  unfoldable pub merge_chunks : Phys Strm → (n next : Ptr) → Run (Code × Phys Strm)
  merge_chunks phys n next = do
    let chunk = phys.indata next
    let needed = phys.input.needed + chunk.datalen
    let copylen = available phys.input
    let grow = ltb phys.parsealloc needed
    let (newp, later) = malloc phys.memory
    elim (phys.parse) [
      | none ↦ fault
      | some buffer ↦
          if grow
          then (if newp == 0 then done (nomem, record phys { memory = later }) else fault)
          else (do
            front ← memcpy copylen (at_cursor phys.input)
            back ← memcpy chunk.datalen chunk.bytes
            if ltb phys.parsealloc (copylen + chunk.datalen) then fault else (do
              (rc, phys') ← remove_inqnode phys n
              (rc', phys'') ← remove_inqnode phys' next
              whole ← memcpy needed (front ++ back)
              done (
                ok,
                record phys'' {
                  parse = some (front ++ back);
                  parselen = copylen;
                  input = spdy_data_use whole;
                },
              )))
    ]

  -- The code, `*more` and the connection.
  unfoldable pub parse_append : Phys Strm → Run (Code × Bool × Phys Strm)
  unfolding merge_chunks
  parse_append phys =
      let n = list_first (heap_of phys) inq in
      let next = list_next (heap_of phys) n in
      if n == 0
      then fault
      else (if next == 0
          then done (ok, false, phys)
          else (do (rc, phys') ← merge_chunks phys n next; done (rc, true, phys')))

module _ (z : Zlib) (stack : ControlFrame) where
  open z use {Strm}

  -- The case SPDY_CTRL_SYN_STREAM: the code, the message and the connection.
  unfoldable pub deliver_syn_stream : Phys Strm → Demux → Run (Code × Demux × Phys Strm)
  deliver_syn_stream phys message = do
    let syn = phys.frame.control.obj.syn_stream
    (rc, s, phys') ← stream_init z stack phys syn.priority 0 0 syn.stream_id
    done (rc, if succeeded rc then record { type = dx_stream_req; stream = s } else message, phys')

  -- The case SPDY_CTRL_SYN_REPLY.
  unfoldable pub deliver_syn_reply : Phys Strm → Demux → Run (Code × Demux × Phys Strm)
  deliver_syn_reply phys message = do
    let rep = phys.frame.control.obj.syn_reply
    n ← hash_get (hash_rounds phys) phys.store phys.streamhash rep.stream_id
    if n == 0 then done (protocol, message, phys) else (do
      e ← entry_at phys.store n
      let acked = record (phys.stream_at e.ptr) { state = stream_acked }
      done (
        ok,
        record { type = dx_stream_ack; stream = e.ptr },
        record phys { stream_at = update phys.stream_at e.ptr acked },
      ))

  -- The `switch` over a control frame's type; every other type fails an assertion.
  unfoldable pub deliver_control : Phys Strm → Demux → Run (Code × Demux × Phys Strm)
  unfolding deliver_syn_stream deliver_syn_reply
  deliver_control phys message =
      let type = phys.frame.control.type in
      if type == ctrl_syn_stream
      then deliver_syn_stream phys message
      else (if type == ctrl_syn_reply then deliver_syn_reply phys message else abort)

  -- After a frame was parsed. Whatever the delivery's code was, the result is OK; the queue's chunk
  -- `chunk` is done with when the cursor is at its end.
  unfoldable pub deliver : Phys Strm → Demux → (chunk : Ptr) → Run (Code × Demux × Phys Strm)
  unfolding deliver_control
  deliver phys message chunk = do
    (rc, message', phys') ←
        if is_control phys.frame.type
        then (do r ← deliver_control phys message; spdy_frame_destroy phys.frame; done r)
        else done (ok, record message { type = dx_data }, phys)
    if phys'.input.cursor == length phys'.input.buf
        then (do (rc', phys'') ← remove_inqnode phys' chunk; done (ok, message', phys''))
        else done (ok, message', phys')

  -- A connection with new input: `data_end <= cursor` takes the chunk. A `datalen` beyond the chunk's bytes is a
  -- fault here, and not only where the bytes behind them are read.
  unfoldable pub take_chunk : Phys Strm → (chunk : Ptr) → Run (Phys Strm)
  take_chunk phys chunk =
      if leb (length phys.input.buf) phys.input.cursor
      then (if chunk == 0 then fault else (do
        bytes ← memcpy (phys.indata chunk).datalen (phys.indata chunk).bytes
        done (record phys { input = spdy_data_use bytes })))
      else done phys

  -- The loop. `chunk` is the first of the queue when the function was called.
  unfoldable pub demux_loop : ℕ → Phys Strm → Demux → (chunk : Ptr) → Run (Code × Demux × Phys Strm)
  unfolding deliver take_chunk parse_append
  demux_loop zero phys message chunk = spin
  demux_loop (suc k) phys message chunk = do
    fed ← take_chunk phys chunk
    (rc, frame, input, env) ← spdy_frame_parse z fed.frame fed.input (env_of fed)
    let parsed = record fed {
      frame = frame;
      input = input;
      zlib_in = env.zlib_in;
      store = env.store;
      memory = env.memory;
    }
    if succeeded rc
        then deliver parsed message chunk
        else (if is_insuff rc
            then (do
              (rc', more, appended) ← parse_append parsed
              if succeeded rc'
                  then (if more
                      then demux_loop k appended message chunk
                      else done (ok, message, appended))
                  else done (rc', message, appended))
            else done (rc, message, parsed))

  -- `rounds` bounds the loop: a round that does not return takes two chunks off the queue.
  unfoldable pub phys_demux : (rounds : ℕ) → Phys Strm → Demux → Run (Code × Demux × Phys Strm)
  unfolding demux_loop
  phys_demux rounds phys message =
      demux_loop rounds phys (record message { type = dx_none }) (list_first (heap_of phys) inq)
