-- ===== src/Demo/Server.antt =====
-- main of demo/server.c: its loop over what select reports. The sockets are the system's.
use spindly.Prelude.{
  ℕ, suc, ◌≡◌, ◌≢◌, ◌⊎◌, inl, inr, refl, Bool, true, false, ◌&&◌, Option, none, some, List, [], ◌∷◌,
  ◌++◌, All, Run, done, fault, ◌>>=◌, ltb, if◌then◌else◌, length, Ends, Ends-bind, Ends-if,
  Ends-done, arith,
}
use spindly.Memory.{Answers}
use spindly.LinkedList.{Ptr}
use spindly.LinkedList.Segment.{has}
use spindly.LinkedList.IsList.{IsList}
use spindly.Zlib.{Zlib, CanInflate}
use spindly.ControlFrame.{ControlFrame}
use spindly.Phys.{Phys, server, heap_of, phys_init}
use spindly.Demux.{Demux}
use spindly.Connection.{IsConnected}
use spindly.Connection.Supply.{IsSupply}
use spindly.Connection.Filling.{nowhere, struct_heads}
use spindly.Connection.Initial.{phys_init-some}
use spindly.Demo.{Received, handle_client, handle_client_serves}

-- `clientsock`, with `none` for SOCKET_BAD, and `cl.phys_server`, with `none` for NULL.
pub record Server (Strm : Type 0) : Type 0 where
  pub clientsock : Option ℕ
  pub phys : Option (Phys Strm)

-- What the system does in one round of the loop: whether select times out, which sockets it reports, what recv
-- and accept answer (`none` is a failure), what the allocator gives a new connection, and what the
-- uninitialised structs on the stack and in new memory hold.
pub record Round (Strm : Type 0) : Type 0 where
  pub timed_out : Bool
  pub client_readable : Bool
  pub server_readable : Bool
  pub received : Received
  pub accepted : Option ℕ
  pub stack : ControlFrame
  pub message : Demux
  pub raw : Phys Strm
  pub memory : Answers

-- `clientsock > 0`
abbrev pub has_client : Option ℕ → Bool
has_client none = false
has_client (some fd) = ltb 0 fd

abbrev pub is_bad : Option ℕ → Bool
is_bad none = true
is_bad (some fd) = false

module _ (z : Zlib) where
  open z use {Strm}

  -- The client is readable; a negative result closes its socket.
  unfoldable pub serve_client : (rounds : ℕ) → Server Strm → Round Strm → Run (Server Strm)
  serve_client rounds s round = elim (s.phys) [
    | none ↦ fault
    | some phys ↦ do
      (len, phys') ← handle_client z round.stack rounds round.message phys round.received
      done (record {
        clientsock = elim len [ none ↦ none | some _ ↦ s.clientsock ];
        phys = some phys';
      })
  ]

  -- A new client; its handle is made whatever accept answered.
  unfoldable pub accept_client : Round Strm → Run (Server Strm)
  accept_client round = do
    (phys, later) ← phys_init z round.raw server 0 0 round.memory
    done (record { clientsock = round.accepted; phys = phys })

  -- One round; `none` is the exit on a timeout. The port's socket is in the set only if there was no client.
  unfoldable pub server_round : (rounds : ℕ) → Server Strm → Round Strm → Run (Option (Server Strm))
  unfolding serve_client accept_client
  server_round rounds s round = if round.timed_out then done none else (do
    served ←
        if has_client s.clientsock && round.client_readable
        then serve_client rounds s round
        else done s
    next ← if is_bad s.clientsock && round.server_readable then accept_client round else done served
    done (some next))

  -- The loop, over the rounds that the system makes.
  unfoldable pub server_main :
      (rounds : ℕ) → Server Strm → List (Round Strm) → Run (Option (Server Strm))
  unfolding server_round
  server_main rounds s [] = done (some s)
  server_main rounds s (round ∷ more) = do
    r ← server_round rounds s round
    elim r [ none ↦ done none | some s' ↦ server_main rounds s' more ]

  -- A server that has a client has a whole connection.
  abbrev pub IsServing : Server Strm → Type 0
  IsServing s =
      (s.clientsock ≡ none) ⊎ ((phys : Phys Strm) × (s.phys ≡ some phys) × IsConnected phys)

  -- The allocator has the addresses for a new connection, and new memory refers to no list.
  pub record CanAccept (round : Round Strm) : Type 0 where
    pub address : Ptr
    pub ods : Answers
    pub last : Answers
    pub answers : round.memory ≡ address ∷ (ods ++ last)
    pub supply : IsSupply nowhere 0 (address ∷ (ods ++ last))
    pub nonnull : address ≢ 0
    pub given : All (λ p. p ≢ 0) ods
    pub count : length ods ≡ 64
    pub unset : round.raw.parse ≡ none
    pub other : (h : Ptr) → has h struct_heads ≡ false → IsList (heap_of round.raw) h []

  serve_client-Ends :
      (k : ℕ) (s : Server Strm) (round : Round Strm)
      → has_client s.clientsock ≡ true
      → IsServing s
      → Ends IsServing (serve_client (suc k) s round)
  unfolding serve_client
  serve_client-Ends k s round client (inl bad) = absurd (let t = rw bad at client in cc)
  serve_client-Ends k s round client (inr (phys, at, (f, cells, c))) = rw at (
      Ends-bind (λ r. IsConnected r.1) IsServing
        (handle_client z round.stack (suc k) round.message phys round.received) _
        (handle_client_serves z round.stack f cells round.message phys c k round.received)
        (λ r h. Ends-done IsServing _ (inr (r.1, refl, h))))

  accept_client-Ends :
      (round : Round Strm) → CanAccept round → CanInflate z → Ends IsServing (accept_client round)
  unfolding accept_client
  accept_client-Ends round a fine =
      let (phys, f, made, c, _, _) =
        phys_init-some z round.raw a.unset a.other server 0 0 a.address a.ods a.last a.supply
          a.nonnull a.given a.count fine in
      rw (a.answers, made) (Ends-done IsServing _ (inr (phys, refl, (f, [], c))))

  -- A server that has not left serves on.
  abbrev pub IsServingStill : Option (Server Strm) → Type 0
  IsServingStill none = Unit {0}
  IsServingStill (some s) = IsServing s

  goes_on :
      (o : Option (Server Strm)) (f : Server Strm → Run (Option (Server Strm)))
      → IsServingStill o
      → ((s : Server Strm) → IsServing s → Ends IsServingStill (f s))
      → Ends IsServingStill (elim o [ none ↦ done none | some s ↦ f s ])
  goes_on none f h k = Ends-done IsServingStill none tt
  goes_on (some s) f h k = k s h

  server_round-Ends :
      (k : ℕ) (s : Server Strm) (round : Round Strm)
      → IsServing s
      → CanAccept round
      → CanInflate z
      → Ends IsServingStill (server_round (suc k) s round)
  unfolding server_round
  server_round-Ends k s round h a fine =
      let P = IsServingStill in
      let served =
        Ends-if IsServing (has_client s.clientsock && round.client_readable)
          (serve_client (suc k) s round) (done s)
          (λ e. serve_client-Ends k s round (ground arith) h) (λ _. Ends-done IsServing s h) in
      Ends-if P round.timed_out _ _ (λ _. Ends-done P none tt)
        (λ _. Ends-bind IsServing P _ _ served (λ s' h'.
          Ends-bind IsServing P
            (if is_bad s.clientsock && round.server_readable then accept_client round else done s')
            _
            (Ends-if IsServing (is_bad s.clientsock && round.server_readable) _ _
              (λ _. accept_client-Ends round a fine) (λ _. Ends-done IsServing s' h'))
            (λ last h''. Ends-done P (some last) h'')))

  -- With a zlib that can start, whatever select, recv and accept answer in round after round, where the
  -- allocator has the addresses for a new connection in each: a demo server that has a whole connection
  -- for its client, if it has a client, with at least one round for the demultiplexer, runs through the
  -- rounds without running out of rounds anywhere, and if it returns, it has left on a timeout, or it has
  -- a whole connection for its client, if it has one.
  pub server_main-Ends :
      (k : ℕ) (rounds : List (Round Strm)) (s : Server Strm)
      → IsServing s
      → All CanAccept rounds
      → CanInflate z
      → Ends IsServingStill (server_main (suc k) s rounds)
  unfolding server_main
  server_main-Ends k [] s h a fine = Ends-done IsServingStill (some s) h
  server_main-Ends k (round ∷ more) s h (a, later) fine =
      Ends-bind IsServingStill IsServingStill (server_round (suc k) s round) _
        (server_round-Ends k s round h a fine)
        (λ o h'.
          goes_on o (λ s'. server_main (suc k) s' more) h'
            (λ s' h''. server_main-Ends k more s' h'' later fine))
