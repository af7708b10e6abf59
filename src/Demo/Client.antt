-- ===== src/Demo/Client.antt =====
-- main of demo/client.c: it opens one stream and sends the frame. The socket is the system's.
pub mod Packet
use spindly.Prelude.{
  ℕ, ◌≡◌, ◌≢◌, Bool, Option, none, some, List, [], ◌==◌, Run, done, fault, spin, ◌>>=◌, ltb,
  if◌then◌else◌, Post-map, Post-self, Ends, Ends-bind, Ends-if, Ends-done, if-ne-spin, done-ne-spin,
}
use spindly.Memory.{Answers, memcpy}
use spindly.Memory.Copies.{memcpy-ne-spin}
use spindly.Zlib.{Zlib}
use spindly.ControlFrame.{ControlFrame}
use spindly.Phys.{Phys, client, phys_init, phys_outgoing, phys_sent}
use spindly.Stream.{spindly_stream_new}
use spindly.Connection.{IsConnected}
use spindly.Connection.Queues.{phys_outgoing-IsConnected, phys_sent-IsConnected}

-- What the system answers: whether there is a socket, whether connect succeeds, and what send returns, where 0
-- stands for the negative results too.
pub record Network : Type 0 where
  pub opened : Bool
  pub connected : Bool
  pub sent : ℕ

module _ (z : Zlib) where
  open z use {Strm}

  -- The bytes that send reads: none through the NULL that comes with a length of 0.
  unfoldable pub packet : Option (List ℕ) → (datalen : ℕ) → Run (List ℕ)
  packet none datalen = if datalen == 0 then done [] else fault
  packet (some buffer) datalen = memcpy datalen buffer

  -- What was sent is reported; the code that comes back is dropped.
  unfoldable pub report : Phys Strm → (sent : ℕ) → Run (Phys Strm)
  report phys sent =
      if ltb 0 sent then (do (_, phys') ← phys_sent phys sent; done phys') else done phys

  -- From the new stream on; its code is not looked at. Nothing is being sent yet, so phys_outgoing writes both of
  -- its results.
  unfoldable pub ask_for_stream :
      (stack : ControlFrame) → (sent : ℕ) → Phys Strm → Run (Option (List ℕ × Phys Strm))
  unfolding report
  ask_for_stream stack sent phys = do
    (_, _, asked) ← spindly_stream_new z stack phys 0 0 0
    let (_, out, buffer, datalen) = phys_outgoing asked
    bytes ← packet buffer datalen
    last ← report out sent
    done (some (bytes, last))

  -- The bytes for the socket and the connection, or `none` for the exit of errorout. `raw` is what malloc leaves
  -- in the connection's struct.
  unfoldable pub client_main :
      (stack : ControlFrame)
      → (raw : Phys Strm) → Answers
      → Network
      → Run (Option (List ℕ × Phys Strm))
  unfolding ask_for_stream
  client_main stack raw memory net =
      if net.opened
      then (do
        (phys, _) ← phys_init z raw client 0 0 memory
        if net.connected
            then (elim phys [ none ↦ fault | some made ↦ ask_for_stream stack net.sent made ])
            else done none)
      else done none

  sent-Ends :
      (phys : Phys Strm) (len : ℕ)
      → IsConnected phys
      → Ends (λ r. IsConnected r.1) (phys_sent phys len)
  unfolding phys_sent
  sent-Ends phys len (f, cells, c) =
      let m = phys_sent phys len in
      (
        if-ne-spin (ltb phys.outgoing_tosend len) _ _ done-ne-spin (
            if-ne-spin _ _ _ (if-ne-spin (phys.outgoing == 0) _ _ (λ e. cc) done-ne-spin)
              done-ne-spin),
        Post-map (λ r. m ≡ done r) (λ r. IsConnected r.1) m
            (λ r e. phys_sent-IsConnected f cells phys r.1 len r.0 c e) (Post-self m),
      )

  pub report-Ends :
      (phys : Phys Strm) (sent : ℕ) → IsConnected phys → Ends IsConnected (report phys sent)
  unfolding report
  report-Ends phys sent h =
      Ends-if IsConnected (ltb 0 sent) _ _
        (λ _.
          Ends-bind (λ r. IsConnected r.1) IsConnected (phys_sent phys sent) _
            (sent-Ends phys sent h) (λ r h'. Ends-done IsConnected r.1 h'))
        (λ _. Ends-done IsConnected phys h)

  pub packet-ne-spin : (buffer : Option (List ℕ)) (datalen : ℕ) → packet buffer datalen ≢ spin
  unfolding packet
  packet-ne-spin none datalen = if-ne-spin (datalen == 0) _ _ done-ne-spin (λ e. cc)
  packet-ne-spin (some buffer) datalen = memcpy-ne-spin datalen buffer

  pub outgoing-IsConnected :
      (phys : Phys Strm) → IsConnected phys → IsConnected (phys_outgoing phys).1
  outgoing-IsConnected phys (f, cells, c) = phys_outgoing-IsConnected f cells phys c
