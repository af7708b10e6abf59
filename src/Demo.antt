-- ===== src/Demo.antt =====
-- handleclient of demo/server.c: what a server does with bytes from its client. recv is the system's.
pub mod Client
pub mod Server
use spindly.Prelude.{
  ℕ, suc, ◌≡◌, ◌≢◌, true, Bool, Option, Post-map, Post-self, none, some, List, Run, done, spin,
  ◌>>=◌, ◌==◌, if◌then◌else◌, length, Post, Post-bind, Post-if, Post-bind-ne-spin, if-ne-spin,
  done-ne-spin, >>=-ne-spin,
}
use spindly.Codes.{succeeded}
use spindly.Memory.{malloc, memcpy}
use spindly.Memory.Copies.{memcpy-ne-spin}
use spindly.LinkedList.{Ptr}
use spindly.Hash.Cells.{Cells}
use spindly.Zlib.{Zlib}
use spindly.ControlFrame.{ControlFrame}
use spindly.Phys.{Phys, phys_incoming}
use spindly.Demux.{Demux, phys_demux}
use spindly.Connection.{IsConnection, IsConnected}
use spindly.Connection.Queues.{incoming-Post}
use spindly.Connection.Demultiplexing.{phys_demux-IsConnected}
use spindly.Connection.Ends.{phys_demux-ne-spin}

-- What recv answers: a negative number, or the bytes in the buffer.
pub data Received : Type 0 where
  failed : Received
  bytes : List ℕ → Received

-- `none` is a negative result, on which the connection is closed. `message` is what the struct on the stack
-- holds, and the message is only printed.
unfoldable pub handle_client :
    (z : Zlib) (stack : ControlFrame) (rounds : ℕ) (message : Demux)
    → Phys (z.Strm)
    → Received
    → Run (Option ℕ × Phys (z.Strm))
handle_client z stack rounds message phys failed = done (none, phys)
handle_client z stack rounds message phys (bytes buffer) =
    let len = length buffer in
    if len == 0 then done (none, phys) else (do
      (rc, fed) ← phys_incoming phys buffer len true 0
      if succeeded rc
          then (do
            (rc', message', read) ← phys_demux z stack rounds fed message
            done (if succeeded rc' then some len else none, read))
          else done (none, fed))

demux-Post :
    (z : Zlib) (stack : ControlFrame) (rounds : ℕ) (message : Demux) (phys : Phys (z.Strm))
    → IsConnected phys
    → Post (λ r. IsConnected r.2) (phys_demux z stack rounds phys message)
demux-Post z stack rounds message phys (f, cells, c) =
    let m = phys_demux z stack rounds phys message in
    Post-map (λ r. m ≡ done r) (λ r. IsConnected r.2) m
      (λ r e. phys_demux-IsConnected z stack f cells rounds phys r.2 message r.1 r.0 c e)
      (Post-self m)

demux-ne-spin :
    (z : Zlib) (stack : ControlFrame) (k : ℕ) (message : Demux) (phys : Phys (z.Strm))
    → IsConnected phys
    → phys_demux z stack (suc k) phys message ≢ spin
demux-ne-spin z stack k message phys (f, cells, c) =
    phys_demux-ne-spin z stack f cells k phys message c

incoming-ne-spin :
    {Strm : Type 0} (phys : Phys Strm) (buffer : List ℕ) (n : ℕ) (copy : Bool) (identifier : Ptr)
    → phys_incoming phys buffer n copy identifier ≢ spin
unfolding phys_incoming
incoming-ne-spin phys buffer n copy identifier =
    if-ne-spin ((malloc phys.memory).0 == 0) _ _ done-ne-spin (
      if-ne-spin copy _ _
        (if-ne-spin ((malloc (malloc phys.memory).1).0 == 0) _ _ done-ne-spin
          (>>=-ne-spin (memcpy n buffer) _ (memcpy-ne-spin n buffer) (λ copied. done-ne-spin)))
        done-ne-spin)

module _ (z : Zlib) (stack : ControlFrame) (f : Ptr → List Ptr) (cells : Cells) (message : Demux)
    (phys : Phys (z.Strm)) (c : IsConnection phys f cells) where
  handle_client-IsConnected :
      (rounds : ℕ) (answer : Received)
      → Post (λ r. IsConnected r.1) (handle_client z stack rounds message phys answer)
  unfolding handle_client
  handle_client-IsConnected rounds failed = (f, cells, c)
  handle_client-IsConnected rounds (bytes buffer) =
      let P = λ (r : Option ℕ × Phys (z.Strm)). IsConnected r.1 in
      let len = length buffer in
      Post-if P (len == 0) _ _ (λ _. (f, cells, c))
        (λ _.
          Post-bind (λ r. IsConnected r.1) P (phys_incoming phys buffer len true 0) _
            (incoming-Post f cells phys buffer len true 0 c)
            (λ r fed.
              Post-if P (succeeded r.0) _ _
                (λ _.
                  Post-bind (λ x. IsConnected x.2) P (phys_demux z stack rounds r.1 message) _
                    (demux-Post z stack rounds message r.1 fed) (λ x h. h))
                (λ _. fed)))

  handle_client-ne-spin :
      (k : ℕ) (answer : Received) → handle_client z stack (suc k) message phys answer ≢ spin
  unfolding handle_client
  handle_client-ne-spin k failed = done-ne-spin
  handle_client-ne-spin k (bytes buffer) =
      let len = length buffer in
      if-ne-spin (len == 0) _ _ done-ne-spin (
        Post-bind-ne-spin (λ r. IsConnected r.1) (phys_incoming phys buffer len true 0) _
          (incoming-ne-spin phys buffer len true 0) (incoming-Post f cells phys buffer len true 0 c)
          (λ r fed.
            if-ne-spin (succeeded r.0) _ _
              (>>=-ne-spin (phys_demux z stack (suc k) r.1 message) _
                (demux-ne-spin z stack k message r.1 fed) (λ x. done-ne-spin))
              done-ne-spin))

  -- Serving a client ends, and leaves the connection whole if it returns.
  pub handle_client_serves :
      (k : ℕ) (answer : Received)
      → (handle_client z stack (suc k) message phys answer ≢ spin)
        × Post (λ r. IsConnected r.1) (handle_client z stack (suc k) message phys answer)
  handle_client_serves k answer =
      (handle_client-ne-spin k answer, handle_client-IsConnected (suc k) answer)
