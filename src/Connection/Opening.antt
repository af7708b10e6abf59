-- ===== src/Connection/Opening.antt =====
-- _spindly_stream_init and spindly_stream_new of src/spindly_stream.c on whole connections.
use spindly.Prelude.{
  ℕ, ◌+◌, ◌%◌, ◌^◌, ◌≡◌, refl, false, none, List, done, ◌>>=◌, ◌>>◌, ◌==◌, if◌then◌else◌, arith,
  Post, Post-bind, Post-bind_any, Post-if, Post-done, ltb,
}
use spindly.Codes.{Code, ok, succeeded}
use spindly.Memory.{Answers, malloc}
use spindly.LinkedList.{Ptr, update}
use spindly.LinkedList.Segment.{has}
use spindly.Hash.Cells.{Cells}
use spindly.Zlib.{Zlib}
use spindly.ControlFrame.{
  ControlFrame, spdy_control_frame_init, spdy_control_frame_destroy, spdy_control_mk_syn_stream,
}
use spindly.Phys.{Phys, inq}
use spindly.Stream.{send_frame, register_stream, stream_init, spindly_stream_new, prio_max}
use spindly.Connection.{parity, IsConnection, IsConnected, IsConnectedAt, IsConnectedWith}
use spindly.Connection.Supply.{IsFresh}
use spindly.Connection.Unchanged.{malloc-IsSupply, malloc-IsFresh, alike, with_memory}
use spindly.Connection.Sending.{Sent, send_frame-Sent}
use spindly.Connection.Registering.{Registered, register_stream-Registered}

-- The next stream id has the same parity.
pub with_streamid :
    {Strm : Type 0} (phys : Phys Strm) (id : ℕ)
    → id % 2 ≡ parity phys.side
    → (k : Ptr) (nodes : List Ptr) → IsConnectedAt k nodes phys
    → IsConnectedAt k nodes (record phys { streamid = id })
with_streamid phys id e k nodes (f, cells, c, w) = (
  f,
  cells,
  record {
    lists = c.lists;
    hashed = c.hashed;
    linked = c.linked;
    held = c.held;
    distinct = c.distinct;
    counted = c.counted;
    sending = c.sending;
    buffers = c.buffers;
    supply = c.supply;
    unset = c.unset;
    ids = e;
  },
  w,
)

pub next_id : (id p : ℕ) → id % 2 ≡ p → ((id + 2) % 2 ^ 32) % 2 ≡ p
next_id id p e = omega arith

-- What remains of stream_init once the stream is allocated.
module _ (z : Zlib) (f : Ptr → List Ptr) (cells : Cells) (phys : Phys (z.Strm))
    (c : IsConnection phys f cells) (s : Ptr) (fresh : IsFresh f phys.outgoing s)
    (out : has s phys.memory ≡ false) where
  opened_own :
      (stack : ControlFrame) (prio : ℕ)
      → Post {A = Code × Ptr × Phys (z.Strm)}
          (λ r. IsConnectedWith (f inq) r.2)
          (◌>>=◌ {B = Code × Ptr × Phys (z.Strm)}
            (spdy_control_mk_syn_stream phys.streamid 0 prio none)
            (λ made. ◌>>=◌ {B = Code × Ptr × Phys (z.Strm)} (send_frame z phys s made.1) (λ r.
              if succeeded r.0
              then (◌>>=◌ {B = Code × Ptr × Phys (z.Strm)}
                  (register_stream z r.1 s phys.streamid)
                  (λ added.
                    ◌>>◌ {B = Code × Ptr × Phys (z.Strm)}
                      (spdy_control_frame_destroy made.1)
                      (done (ok, s, record added { streamid = (phys.streamid + 2) % 2 ^ 32 }))))
              else (◌>>◌ {B = Code × Ptr × Phys (z.Strm)}
                  (spdy_control_frame_destroy made.1)
                  (done (r.0, 0, r.1))))))
  opened_own stack prio =
      let P = λ (r : Code × Ptr × Phys (z.Strm)). IsConnectedWith (f inq) r.2 in
      let R = λ (m : Answers). has s m ≡ false in
      Post-bind_any P (spdy_control_mk_syn_stream phys.streamid 0 prio none) _ (λ made.
        Post-bind (λ r. Sent R f cells phys r.0 r.1) P (send_frame z phys s made.1) _
          (send_frame-Sent z R (λ p m h. ground arith) f cells phys c s made.1 out)
          (λ r sent.
            let (g, c2, out2, keep, side, w, _) = sent in
            Post-if P (succeeded r.0) _ _
              (λ _.
                Post-bind (Registered inq (f inq) r.1) P (register_stream z r.1 s phys.streamid) _
                  (register_stream-Registered z g cells r.1 s phys.streamid inq (f inq) refl refl w
                    c2 (keep s fresh) out2)
                  (λ added reg. Post-bind_any P (spdy_control_frame_destroy made.1) _ (λ _.
                    with_streamid added _
                      (rw (reg.1, side) (next_id phys.streamid (parity phys.side) c.ids)) inq
                      (f inq) reg.0)))
              (λ _.
                Post-bind_any P (spdy_control_frame_destroy made.1) _ (λ _. (g, cells, c2, w)))))

  opened_peer :
      (stack : ControlFrame) (id : ℕ)
      → Post {A = Code × Ptr × Phys (z.Strm)}
          (λ r. IsConnectedWith (f inq) r.2)
          (◌>>=◌ {B = Code × Ptr × Phys (z.Strm)} (register_stream z phys s id) (λ added.
            ◌>>◌ {B = Code × Ptr × Phys (z.Strm)}
              (spdy_control_frame_destroy (spdy_control_frame_init stack))
              (done (ok, s, added))))
  opened_peer stack id =
      let P = λ (r : Code × Ptr × Phys (z.Strm)). IsConnectedWith (f inq) r.2 in
      Post-bind (Registered inq (f inq) phys) P (register_stream z phys s id) _
        (register_stream-Registered z f cells phys s id inq (f inq) refl refl refl c fresh out)
        (λ added reg.
          Post-bind_any P (spdy_control_frame_destroy (spdy_control_frame_init stack)) _
            (λ _. reg.0))

-- stream_init keeps a connection whole, for a stream of its own and for one of the peer, and the input waiting.
pub stream_init-Post :
    (z : Zlib) (f : Ptr → List Ptr) (cells : Cells) (phys : Phys (z.Strm))
    → IsConnection phys f cells
    → (stack : ControlFrame) (prio userp config streamid : ℕ)
    → Post (λ r. IsConnectedWith (f inq) r.2) (stream_init z stack phys prio userp config streamid)
unfolding stream_init
stream_init-Post z f cells phys c stack prio userp config streamid =
    let P = λ (r : Code × Ptr × Phys (z.Strm)). IsConnectedWith (f inq) r.2 in
    let s = (malloc phys.memory).0 in
    let later = (malloc phys.memory).1 in
    let (_, supply) = malloc-IsSupply f phys.outgoing phys.memory c.supply in
    Post-if P (ltb prio_max prio) _ _ (λ _. (f, cells, c, refl))
      (λ _.
        Post-if P (s == 0) _ _ (λ _. (f, cells, with_memory f cells phys later c supply, refl))
          (λ e.
            let (fresh, out) = malloc-IsFresh f phys.outgoing phys.memory c.supply e in
            let phys' = record phys { memory = later; stream_at = update phys.stream_at s _ } in
            let c' : IsConnection phys' f cells =
              alike f cells phys phys' c refl refl refl refl refl refl refl supply in
            Post-if P (streamid == 0) _ _
              (λ _. opened_own z f cells phys' c' s fresh out stack prio)
              (λ _. opened_peer z f cells phys' c' s fresh out stack streamid)))

-- spindly_stream_new keeps a connection whole, whatever the priority and however the allocator answers.
pub spindly_stream_new-IsConnected :
    (z : Zlib) (f : Ptr → List Ptr) (cells : Cells) (phys phys' : Phys (z.Strm))
    → IsConnection phys f cells
    → (stack : ControlFrame) (prio userp config : ℕ) (rc : Code) (s : Ptr)
    → spindly_stream_new z stack phys prio userp config ≡ done (rc, s, phys')
    → IsConnected phys'
unfolding spindly_stream_new
spindly_stream_new-IsConnected z f cells phys phys' c stack prio userp config rc s e =
    let (g, cells', c', _) =
      Post-done (λ r. IsConnectedWith (f inq) r.2) (stream_init z stack phys prio userp config 0)
        (rc, s, phys') (stream_init-Post z f cells phys c stack prio userp config 0) e in
    (g, cells', c')
