-- ===== src/Demo/Client/Packet.antt =====
-- What main of demo/client.c sends.
use spindly.Prelude.{
  ℕ, ◌≡◌, ◌≢◌, ◌⊎◌, inl, inr, refl, true, false, Option, none, some, List, [], ◌∷◌, ◌++◌, All, done,
  length, Post, Post-done, Post-self, Ends-map, Run, true, ◌&&◌, ◌∙◌, Ends, Ends-bind, Ends-if,
  Ends-done,
}
use spindly.Codes.{ok, Code, succeeded}
use spindly.Bytes.{be_store_16}
use spindly.Memory.{malloc, Answers}
use spindly.Memory.Copies.{memcpy-whole}
use spindly.LinkedList.{Ptr, list_first}
use spindly.LinkedList.Segment.{has}
use spindly.LinkedList.IsList.{IsList, ne→==}
use spindly.LinkedList.Lists.{list_first-cons, list_first-nil}
use spindly.Hash.Cells.{Cells}
use spindly.Zlib.{Zlib, Deflated, spdy_zlib_deflate, CanInflate}
use spindly.ControlFrame.{ControlFrame}
use spindly.Phys.{Phys, client, outq, pendq, heap_of, phys_init, phys_outgoing}
use spindly.Stream.{spindly_stream_new}
use spindly.Connection.{IsConnection, IsConnected}
use spindly.Connection.Supply.{IsSupply}
use spindly.Connection.Filling.{nowhere, struct_heads}
use spindly.Connection.Initial.{phys_init-some, phys_init-IsNew, IsNew}
use spindly.Connection.Asking.{Asked, spindly_stream_new-Asked, spindly_stream_new-outgoing}
use spindly.Connection.Ends.{stream_init-ne-spin}
use spindly.Peer.{opened_bytes}
use spindly.Peer.Send.{HoldsOpened, LeavesOpened, spindly_stream_new-LeavesOpened}
use spindly.Demo.Client.{
  Network, packet, report, ask_for_stream, client_main, packet-ne-spin, report-Ends,
  outgoing-IsConnected,
}

module _ (z : Zlib) where
  open z use {Strm}

  -- What the client gives send, when spindly_stream_new on `phys` has returned `rc`: nothing if it was refused, and
  -- else the frame of stream 1, whose empty block is deflated.
  abbrev pub IsPacket : Phys Strm → Code → List ℕ → Type 0
  IsPacket phys rc bytes =
      ((succeeded rc ≡ false) × (bytes ≡ []))
      ⊎ ((rc ≡ ok)
          × (d : Deflated) × (spdy_zlib_deflate z (be_store_16 0) 2 0 (malloc phys.memory).1
              ≡ done d)
          × (bytes ≡ opened_bytes 1 0 d.dest))

  module _ (f : Ptr → List Ptr) (cells : Cells) (phys : Phys Strm) (c : IsConnection phys f cells)
      (empty : f outq ≡ []) (new : IsNew client phys) (stack : ControlFrame) where
    abbrev opened : Run (Code × Ptr × Phys Strm)
    opened = spindly_stream_new z stack phys 0 0 0

    -- Where spindly_stream_new leaves the new connection.
    record HasAsked (r : Code × Ptr × Phys Strm) : Type 0 where
      run : opened ≡ done r
      queue : Asked f r.0 r.2
      holds : HoldsOpened z 1 0 (malloc phys.memory).1 (list_first (heap_of phys) pendq) r.0 r.2
      idle : r.2.outgoing ≡ 0

    opened-HasAsked : (r : Code × Ptr × Phys Strm) → opened ≡ done r → HasAsked r
    opened-HasAsked r run = record {
      run = run;
      queue =
          Post-done (λ r. Asked f r.0 r.2) opened r
            (spindly_stream_new-Asked z f cells phys c empty stack 0 0 0) run;
      holds = rw new.id at (
          Post-done (LeavesOpened z stack phys 0 0 0) opened r
            (spindly_stream_new-LeavesOpened z stack phys 0 0 0) run);
      idle =
          Post-done (λ r. r.2.outgoing ≡ phys.outgoing) opened r
            (spindly_stream_new-outgoing z phys stack 0 0 0) run
          ∙ new.idle;
    }

    outgoing-IsPacket :
        (r : Code × Ptr × Phys Strm)
        → HasAsked r
        → Post (IsPacket phys r.0) (packet z (phys_outgoing r.2).2 (phys_outgoing r.2).3)
    unfolding packet phys_outgoing
    outgoing-IsPacket r a = elim (a.queue) [
      | inl (refused, (g, cells', c', e)) ↦
          rw (a.idle, list_first-nil (heap_of (r.2)) g c'.lists outq e) (inl (refused, refl))
      | inr (od, rest, first, good, (g, cells', c', e)) ↦
          let (pending, _) = list_first-cons (heap_of phys) f c.lists pendq od rest first in
          let (queued, ne) = list_first-cons (heap_of (r.2)) g c'.lists outq od [] e in
          let (d, run, bytes, len) = (rw pending at (a.holds)) good in
          rw (a.idle, queued, ne→== ne, len, memcpy-whole (r.2.outdata od).buffer)
            (inr (good, d, run, bytes))
    ]

    asked-IsConnected : (r : Code × Ptr × Phys Strm) → HasAsked r → IsConnected r.2
    asked-IsConnected r a = elim (a.queue) [
      | inl (refused, (g, cells', c', e)) ↦ (g, cells', c')
      | inr (od, rest, first, good, (g, cells', c', e)) ↦ (g, cells', c')
    ]

    -- What the client has given send, and the connection that it has then.
    abbrev pub Sends : List ℕ × Phys Strm → Type 0
    Sends (bytes, last) =
        (rc : Code) × (s : Ptr) × (asked : Phys Strm) × (opened ≡ done (rc, s, asked))
        × IsPacket phys rc bytes
        × IsConnected last

    abbrev HasSent : Option (List ℕ × Phys Strm) → Type 0
    HasSent none = ⊥
    HasSent (some sent) = Sends sent

    ask_for_stream-Ends : (sent : ℕ) → Ends HasSent (ask_for_stream z stack sent phys)
    unfolding ask_for_stream spindly_stream_new
    ask_for_stream-Ends sent =
        Ends-bind (λ r. opened ≡ done r) HasSent opened _
          (stream_init-ne-spin z stack f cells phys 0 0 0 0 c, Post-self opened)
          (λ r run.
            let next = phys_outgoing r.2 in
            let m = packet z next.2 next.3 in
            let a = opened-HasAsked r run in
            Ends-bind (IsPacket phys r.0) HasSent m _
              (packet-ne-spin z next.2 next.3, outgoing-IsPacket r a)
              (λ bytes sends.
                Ends-bind IsConnected HasSent (report z next.1 sent) _
                  (report-Ends z next.1 sent (outgoing-IsConnected z r.2 (asked-IsConnected r a)))
                  (λ last whole.
                    Ends-done HasSent (some (bytes, last)) (r.0, r.1, r.2, run, sends, whole))))

  -- What the client comes to: it has left just if the socket could not be opened or connected.
  abbrev pub Outcome :
      (stack : ControlFrame) → Phys Strm → Network → Option (List ℕ × Phys Strm) → Type 0
  Outcome stack phys net none = (net.opened && net.connected) ≡ false
  Outcome stack phys net (some sent) =
      ((net.opened && net.connected) ≡ true)
      × (rc : Code) × (s : Ptr) × (asked : Phys Strm) × (spindly_stream_new z stack phys 0 0 0
          ≡ done (rc, s, asked))
      × IsPacket phys rc (sent.0)
      × IsConnected (sent.1)

  asked-Outcome :
      (stack : ControlFrame) (phys : Phys Strm) (net : Network) (f : Ptr → List Ptr)
      (c : IsConnection phys f []) (empty : f outq ≡ []) (new : IsNew client phys)
      → net.opened ≡ true
      → net.connected ≡ true
      → (r : Option (List ℕ × Phys Strm)) → HasSent f [] phys c empty new stack r
      → Outcome stack phys net r
  asked-Outcome stack phys net f c empty new o on none h = absurd h
  asked-Outcome stack phys net f c empty new o on (some sent) (rc, s, asked, run, sends, whole) =
      (rw (o, on) refl, rc, s, asked, run, sends, whole)

  -- With a zlib that can start, answers of the allocator that are pairwise different or NULL, the first 65 not
  -- NULL, and new memory whose lists are empty: phys_init makes a connection, and whatever the socket does, the
  -- demo client does not run out of rounds anywhere. If it returns, it has left just if the socket could not
  -- be opened or connected; else it has asked for a stream on that connection, the connection is whole, and it
  -- has given send nothing if the stream was refused, and exactly the frame of stream 1 with priority 0 and
  -- the empty block as zlib compressed it if the stream was made.
  pub client_main-Ends :
      (stack : ControlFrame) (raw : Phys Strm) (address : ℕ) (ods last : Answers) (net : Network)
      → raw.parse ≡ none
      → ((h : Ptr) → has h struct_heads ≡ false → IsList (heap_of raw) h [])
      → IsSupply nowhere 0 (address ∷ (ods ++ last))
      → address ≢ 0
      → All (λ p. p ≢ 0) ods
      → length ods ≡ 64
      → CanInflate z
      → (phys : Phys Strm) × (phys_init z raw client 0 0 (address ∷ (ods ++ last))
          ≡ done (some phys, last))
        × Ends (Outcome stack phys net) (client_main z stack raw (address ∷ (ods ++ last)) net)
  unfolding client_main
  client_main-Ends stack raw address ods last net unset other supply ne given count fine =
      let (phys, f, made, c, _, empty) =
        phys_init-some z raw unset other client 0 0 address ods last supply ne given count fine in
      let new =
        phys_init-IsNew z raw unset other client 0 0 (address ∷ (ods ++ last)) last phys made in
      let P = Outcome stack phys net in
      (
        phys,
        made,
        rw made (
            Ends-if P net.opened _ _
              (λ o.
                Ends-if P net.connected _ _
                  (λ on.
                    Ends-map (HasSent f [] phys c (empty outq refl) new stack) P _
                      (asked-Outcome stack phys net f c (empty outq refl) new o on)
                      (ask_for_stream-Ends f [] phys c (empty outq refl) new stack net.sent))
                  (λ off. Ends-done P none (rw (o, off) refl)))
              (λ closed. Ends-done P none (rw closed refl))),
      )
