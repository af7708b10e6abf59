-- ===== src/Connection/Answering.antt =====
-- stream_acknack of src/spindly_stream.c on whole connections.
use spindly.Prelude.{
  ℕ, ◌≡◌, refl, true, false, Bool, none, List, done, if◌then◌else◌, Post, Post-bind, Post-if,
  Post-done,
}
use spindly.Codes.{Code, succeeded}
use spindly.LinkedList.{Ptr}
use spindly.Hash.Cells.{Cells}
use spindly.Zlib.{Zlib}
use spindly.ControlFrame.{spdy_control_mk_syn_reply, spdy_control_mk_rst_stream}
use spindly.Phys.{Phys}
use spindly.Stream.{is_new, send_frame, stream_acknack, spindly_stream_ack, spindly_stream_nack}
use spindly.Connection.{IsConnection, IsConnected}
use spindly.Connection.Unchanged.{alike}
use spindly.Connection.Sending.{Sent, send_frame-Sent}

module _ (z : Zlib) (f : Ptr → List Ptr) (cells : Cells) (phys : Phys (z.Strm))
    (c : IsConnection phys f cells) (s : Ptr) where
  acknack-Post : (ack : Bool) → Post (λ r. IsConnected r.1) (stream_acknack z phys s ack)
  unfolding stream_acknack
  acknack-Post ack =
      let P = λ (r : Code × Phys (z.Strm)). IsConnected r.1 in
      let R = λ (m : List ℕ). Unit {0} in
      let stream = phys.stream_at s in
      let frame =
        (if ack
          then spdy_control_mk_syn_reply stream.streamid none
          else spdy_control_mk_rst_stream stream.streamid 0).1 in
      Post-if P (is_new stream.state) _ _
        (λ _.
          Post-bind (λ r. Sent R f cells phys r.0 r.1) P (send_frame z phys s frame) _
            (send_frame-Sent z R (λ p m h. tt) f cells phys c s frame tt)
            (λ r sent.
              let (g, c2, _, _, _, _, _) = sent in
              Post-if P (succeeded r.0) _ _
                (λ _.
                  (g, cells, alike g cells r.1 _ c2 refl refl refl refl refl refl refl c2.supply))
                (λ _. (g, cells, c2))))
        (λ _. (f, cells, c))

  -- spindly_stream_ack keeps a connection whole, on every branch, also when no frame can be made.
  pub spindly_stream_ack-IsConnected :
      (phys' : Phys (z.Strm)) (rc : Code)
      → spindly_stream_ack z phys s ≡ done (rc, phys')
      → IsConnected phys'
  unfolding spindly_stream_ack
  spindly_stream_ack-IsConnected phys' rc e =
      Post-done (λ r. IsConnected r.1) (stream_acknack z phys s true) (rc, phys')
        (acknack-Post true) e

  pub spindly_stream_nack-IsConnected :
      (phys' : Phys (z.Strm)) (rc : Code)
      → spindly_stream_nack z phys s ≡ done (rc, phys')
      → IsConnected phys'
  unfolding spindly_stream_nack
  spindly_stream_nack-IsConnected phys' rc e =
      Post-done (λ r. IsConnected r.1) (stream_acknack z phys s false) (rc, phys')
        (acknack-Post false) e
