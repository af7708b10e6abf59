-- ===== src/Tests/Serving.antt =====
-- A server that accepts a client, receives a data frame from it, and loses it; and a client that sends.
use spindly.Prelude.{
  ◌≡◌, done, ℕ, Bool, Option, true, false, none, some, List, [], ◌∷◌, inl, refl, Ends, arith,
}
use spindly.Zlib.{spdy_zlib_inflate_init}
use spindly.ControlFrame.{zero_frame}
use spindly.Phys.{Phys, client, phys_init}
use spindly.Demo.{Received, failed, bytes}
use spindly.Demo.Client.{Network, client_main}
use spindly.Demo.Client.Packet.{Outcome, client_main-Ends}
use spindly.Demo.Server.{Server, Round, CanAccept, IsServingStill, server_main, server_main-Ends}
use spindly.Tests.Codec.{copying}
use spindly.Tests.Storage.{no_lists-Lists}
use spindly.Tests.Connection.{quiet, no_message}
use spindly.Tests.Whole.{addresses, addresses-IsSupply, addresses-All, two_bytes}

-- A round, with 68 addresses for a new connection.
abbrev round_of :
    (timed_out client_readable server_readable : Bool)
    → Received
    → (accepted : Option ℕ) → Round (Unit {0})
round_of timed_out client_readable server_readable received accepted = record {
  timed_out = timed_out;
  client_readable = client_readable;
  server_readable = server_readable;
  received = received;
  accepted = accepted;
  stack = zero_frame;
  message = no_message;
  raw = quiet;
  memory = addresses 1000 68;
}

round_of-CanAccept :
    (t c s : Bool) (answer : Received) (fd : Option ℕ)
    → CanAccept copying (round_of t c s answer fd)
round_of-CanAccept t c s answer fd = record {
  address = 1000;
  ods = addresses 1001 64;
  last = addresses 1065 3;
  answers = refl;
  supply = addresses-IsSupply 1000 68 (omega arith);
  nonnull = omega arith;
  given = addresses-All 1001 64 (omega arith);
  count = refl;
  unset = refl;
  other = λ h out. no_lists-Lists h;
}

abbrev some_rounds : List (Round (Unit {0}))
some_rounds =
    round_of false false true failed (some 5)
    ∷ round_of false true false (bytes two_bytes) none
    ∷ round_of false true false (bytes []) none
    ∷ round_of true false false failed none
    ∷ []

abbrev alone : Server (Unit {0})
alone = record { clientsock = none; phys = none }

server_main-Ends_example : Ends (IsServingStill copying) (server_main copying 2 alone some_rounds)
unfolding spdy_zlib_inflate_init
server_main-Ends_example =
    server_main-Ends copying 1 some_rounds alone (inl refl)
      (
        round_of-CanAccept false false true failed (some 5),
        (
          round_of-CanAccept false true false (bytes two_bytes) none,
          (
            round_of-CanAccept false true false (bytes []) none,
            (round_of-CanAccept true false false failed none, tt),
          ),
        ),
      )
      (refl, refl)

abbrev online : Network
online = record { opened = true; connected = true; sent = 40 }

client_main-Ends_example :
    (phys : Phys (Unit {0})) × (phys_init copying quiet client 0 0 (addresses 1000 68)
      ≡ done (some phys, addresses 1065 3))
    × Ends
        (Outcome copying zero_frame phys online)
        (client_main copying zero_frame quiet (addresses 1000 68) online)
unfolding spdy_zlib_inflate_init
client_main-Ends_example =
    client_main-Ends copying zero_frame quiet 1000 (addresses 1001 64) (addresses 1065 3) online
      refl (λ h out. no_lists-Lists h) (addresses-IsSupply 1000 68 (omega arith)) (omega arith)
      (addresses-All 1001 64 (omega arith)) refl (refl, refl)
