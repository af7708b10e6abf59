-- ===== src/Tests/Whole.antt =====
-- Whole connections: a new one, one that reads a data frame, and one that opens a stream and sends.
use spindly.Prelude.{
  fault, ◌==◌, All, length, ◌++◌, ◌≢◌, spin, ℕ, zero, suc, ◌+◌, ◌<◌, ◌≡◌, ◌⊎◌, refl, inl, inr,
  false, some, List, [], ◌∷◌, done, arith,
}
use spindly.Codes.{ok}
use spindly.Bytes.{load_8, be_load_32}
use spindly.Memory.{Answers, memcpy}
use spindly.SpdyData.{at_cursor, available}
use spindly.LinkedList.{Ptr, update, list_add}
use spindly.LinkedList.Segment.{has}
use spindly.LinkedList.Lists.{list_add-Lists}
use spindly.Zlib.{spdy_zlib_inflate_init}
use spindly.Frame.{spdy_frame_parse, spdy_frame_parse_header}
use spindly.DataFrame.{spdy_data_frame_parse, spdy_data_frame_parse_header}
use spindly.ControlFrame.{ControlFrame, zero_frame}
use spindly.Phys.{Phys, client, server, outq, pendq, phys_init, phys_incoming, remove_inqnode}
use spindly.Demux.{Demux, dx_data, phys_demux, demux_loop, take_chunk, deliver}
use spindly.Connection.{IsConnection, IsConnected}
use spindly.Connection.Supply.{IsFresh, IsSupply, IsSupply-added}
use spindly.Connection.Idle.{phys_init-phys_demux}
use spindly.Connection.Initial.{phys_init-some}
use spindly.Connection.Ends.{phys_demux-ne-spin}
use spindly.Connection.Opening.{spindly_stream_new-IsConnected}
use spindly.Connection.Draining.{send_all, send_all-IsDrained}
use spindly.Connection.Demultiplexing.{phys_demux-IsConnected}
use spindly.Connection.Queues.{phys_incoming-IsConnected}
use spindly.Connection.Reach.{start, next, incoming, demuxed, Reach-IsConnected}
use spindly.Tests.Storage.{no_lists, nothing_in, no_lists-Lists, no_store}
use spindly.Tests.Codec.{copying}
use spindly.Tests.Connection.{quiet, no_message}
use spindly.Tests.Streams.{ready, opened, opens}

-- A connection with nothing in its lists.
pub idle-IsConnection :
    (m : Answers)
    → IsSupply nothing_in 0 m
    → IsConnection (record quiet { memory = m }) nothing_in []
idle-IsConnection m supply = record {
  lists = no_lists-Lists;
  hashed = refl;
  linked = refl;
  held = tt;
  distinct = tt;
  counted = omega arith;
  sending = inl refl;
  buffers = omega arith;
  supply = supply;
  unset = refl;
  ids = refl;
}

-- An answer that is given first and not again.
abbrev Given : Ptr → Answers → Type 0
Given p later = (p ≡ 0) ⊎ (IsFresh nothing_in 0 p × (has p later ≡ false))

given : (p : Ptr) (later : Answers) → has p later ≡ false → 0 < p → Given p later
given p later out lt =
    inr (record { nonnull = ground arith; unlisted = λ k. refl; unsent = ground arith }, out)

-- `n` addresses, one after the other.
abbrev pub addresses : ℕ → ℕ → Answers
addresses p zero = []
addresses p (suc n) = p ∷ addresses (p + 1) n

has-addresses : (q p n : ℕ) → q < p → has q (addresses p n) ≡ false
has-addresses q p zero lt = refl
has-addresses q p (suc n) lt = let rest = has-addresses q (p + 1) n (omega arith) in ground arith

pub addresses-IsSupply : (p n : ℕ) → 0 < p → IsSupply nothing_in 0 (addresses p n)
addresses-IsSupply p zero lt = tt
addresses-IsSupply p (suc n) lt = (
  given p (addresses (p + 1) n) (has-addresses p (p + 1) n (omega arith)) lt,
  addresses-IsSupply (p + 1) n (omega arith),
)

-- A data frame with two bytes.
abbrev pub two_bytes : List ℕ
two_bytes = 0 ∷ 0 ∷ 0 ∷ 1 ∷ 0 ∷ 0 ∷ 0 ∷ 2 ∷ 65 ∷ 66 ∷ []

abbrev before_input : Phys (Unit {0})
before_input = record quiet { memory = addresses 300 2 }

unfoldable with_input : Phys (Unit {0})
with_input = elim (phys_incoming before_input two_bytes 10 false 9) [ done r ↦ r.1 | _ ↦ quiet ]

unfoldable read_out : Phys (Unit {0})
unfolding with_input
read_out = elim (phys_demux copying zero_frame 3 with_input no_message) [ done r ↦ r.2 | _ ↦ quiet ]

comes_in : phys_incoming before_input two_bytes 10 false 9 ≡ done (ok, with_input)
unfolding with_input phys_incoming
comes_in = refl

reads_data :
    phys_demux copying zero_frame 3 with_input no_message
    ≡ done (ok, record no_message { type = dx_data }, read_out)
unfolding read_out with_input phys_incoming phys_demux demux_loop take_chunk deliver memcpy list_add
    spdy_frame_parse spdy_frame_parse_header spdy_data_frame_parse spdy_data_frame_parse_header
    load_8 be_load_32 at_cursor available remove_inqnode
reads_data = refl

Reach-IsConnected_example : IsConnected read_out
Reach-IsConnected_example =
    Reach-IsConnected copying before_input read_out
      (next with_input read_out
        (next before_input with_input start
          (incoming before_input with_input two_bytes 10 false 9 ok comes_in))
        (demuxed with_input read_out zero_frame 3 no_message _ ok reads_data))
      (nothing_in, [], idle-IsConnection (addresses 300 2) (addresses-IsSupply 300 2 (omega arith)))

with_input-IsConnected : IsConnected with_input
with_input-IsConnected =
    phys_incoming-IsConnected nothing_in [] before_input with_input two_bytes 10 false 9 ok
      (idle-IsConnection (addresses 300 2) (addresses-IsSupply 300 2 (omega arith))) comes_in

read_out-IsConnected : IsConnected read_out
read_out-IsConnected =
    phys_demux-IsConnected copying zero_frame (with_input-IsConnected.0) (with_input-IsConnected.1)
      3 with_input read_out no_message (record no_message { type = dx_data }) ok
      (with_input-IsConnected.2) reads_data

phys_demux-ne-spin_example : phys_demux copying zero_frame 3 with_input no_message ≢ spin
phys_demux-ne-spin_example =
    phys_demux-ne-spin copying zero_frame (with_input-IsConnected.0) (with_input-IsConnected.1) 2
      with_input no_message (with_input-IsConnected.2)

-- A new connection of a server.
pub addresses-All : (p n : ℕ) → 0 < p → All (λ q. q ≢ 0) (addresses p n)
addresses-All p zero lt = tt
addresses-All p (suc n) lt = (ground arith, addresses-All (p + 1) n (omega arith))

phys_init-some_example :
    (phys : Phys (Unit {0})) × (f : Ptr → List Ptr) × (phys_init copying quiet server 2 0
        (1000 ∷ (addresses 1001 64 ++ []))
      ≡ done (some phys, []))
    × IsConnection phys f []
    × (length (f pendq) ≡ 64)
    × ((k : Ptr) → (k == pendq) ≡ false → f k ≡ [])
unfolding spdy_zlib_inflate_init
phys_init-some_example =
    phys_init-some copying quiet refl (λ h out. no_lists-Lists h) server 2 0 1000
      (addresses 1001 64) [] (addresses-IsSupply 1000 65 (omega arith)) (omega arith)
      (addresses-All 1001 64 (omega arith)) refl (refl, refl)

-- A connection with one pending buffer, before and after a stream is opened.
abbrev one_pending : Ptr → List Ptr
one_pending = update nothing_in pendq (40 ∷ [])

ready-IsConnection : IsConnection ready one_pending []
ready-IsConnection = record {
  lists = list_add-Lists no_lists nothing_in no_lists-Lists pendq 40 (omega arith) (λ k. refl);
  hashed = refl;
  linked = refl;
  held = tt;
  distinct = tt;
  counted = omega arith;
  sending = inl refl;
  buffers = omega arith;
  supply =
      IsSupply-added nothing_in 0 (400 ∷ 404 ∷ 408 ∷ [])
        (
          given 400 (404 ∷ 408 ∷ []) refl (omega arith),
          (given 404 (408 ∷ []) refl (omega arith), (given 408 [] refl (omega arith), tt)),
        )
        pendq 40 refl;
  unset = refl;
  ids = refl;
}

spindly_stream_new-IsConnected_example : IsConnected opened
spindly_stream_new-IsConnected_example =
    spindly_stream_new-IsConnected copying one_pending [] ready opened ready-IsConnection zero_frame
      3 0 0 ok 400 opens

abbrev two_queued : Ptr → List Ptr
two_queued = update (update nothing_in outq (40 ∷ [])) outq (40 ∷ 44 ∷ [])

abbrev with_two : Phys (Unit {0})
with_two = record quiet {
  store = record no_store { heap = list_add (list_add no_lists outq 40) outq 44 };
  memory = [];
}

with_two-IsConnection : IsConnection with_two two_queued []
with_two-IsConnection = record {
  lists =
      list_add-Lists (list_add no_lists outq 40) (update nothing_in outq (40 ∷ []))
        (list_add-Lists no_lists nothing_in no_lists-Lists outq 40 (omega arith) (λ k. refl)) outq
        44 (omega arith) (λ k. ground arith);
  hashed = refl;
  linked = refl;
  held = tt;
  distinct = tt;
  counted = omega arith;
  sending = inl refl;
  buffers = omega arith;
  supply = tt;
  unset = refl;
  ids = refl;
}

send_all-IsDrained_example :
    (last : Phys (Unit {0})) × (f' : Ptr → List Ptr) × (send_all 3 with_two
      ≡ done ((1 ∷ 2 ∷ 3 ∷ []) ∷ (1 ∷ 2 ∷ 3 ∷ []) ∷ [], last))
    × IsConnection last f' []
    × (f' outq ≡ [])
    × (f' pendq ≡ 40 ∷ 44 ∷ [])
    × (last.outgoing ≡ 0)
send_all-IsDrained_example =
    send_all-IsDrained with_two two_queued [] 3 with_two-IsConnection refl (omega arith)

phys_init-phys_demux_example :
    (phys : Phys (Unit {0})) × (phys_init copying quiet client 0 0
        (1000 ∷ (addresses 1001 64 ++ []))
      ≡ done (some phys, []))
    × ((stack : ControlFrame) (message : Demux) (k : ℕ)
        → phys_demux copying stack (suc k) phys message ≡ fault)
unfolding spdy_zlib_inflate_init
phys_init-phys_demux_example =
    phys_init-phys_demux copying quiet client 0 0 1000 (addresses 1001 64) [] refl
      (λ h out. no_lists-Lists h) (addresses-IsSupply 1000 65 (omega arith)) (omega arith)
      (addresses-All 1001 64 (omega arith)) refl (refl, refl)
