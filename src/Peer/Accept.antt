-- ===== src/Peer/Accept.antt =====
-- _spindly_stream_init of src/spindly_stream.c for a stream that the peer has opened.
use spindly.Prelude.{
  ℕ, ◌≤◌, ◌≡◌, ◌≢◌, inl, inr, refl, false, none, some, List, [], ◌∷◌, ◌++◌, done, arith, le→ltb,
  ==_refl,
}
use spindly.Codes.{ok}
use spindly.Memory.{Answers}
use spindly.LinkedList.{Ptr, update}
use spindly.LinkedList.Segment.{has}
use spindly.LinkedList.IsList.{ne→==}
use spindly.Hash.Cells.{Cells, IsHash, nodes_of, find}
use spindly.Hash.Map.{entry, stored, hash_store-find}
use spindly.Zlib.{Zlib}
use spindly.ControlFrame.{ControlFrame, spdy_control_frame_init, spdy_control_frame_destroy}
use spindly.Phys.{stream_new, Stream, Phys, streams, lhead, hash_rounds, phys_add_stream}
use spindly.Stream.{stream_init0, stream_init, register_stream}
use spindly.Connection.{IsConnection}
use spindly.Connection.Supply.{IsFresh, IsSupply}
use spindly.Connection.Unchanged.{alike}
use spindly.Connection.Streams.{connection-IsHash, added-IsConnection}

-- The new stream's struct.
abbrev pub peers_stream : (prio id : ℕ) → Stream
peers_stream prio id = record {
  state = stream_new;
  streamid = id;
  userp = 0;
  prio = prio;
  config = 0;
  spdy = (stream_init0 false false).1;
}

module _ {Strm : Type 0} (phys : Phys Strm) (prio id s p : ℕ) (later : Answers) where
  -- With the struct, and a place in the list of streams.
  abbrev listed : Phys Strm
  listed = record phys {
    memory = p ∷ later;
    stream_at = update phys.stream_at s (peers_stream prio id);
  }

  abbrev added : Phys Strm
  added = (phys_add_stream listed s).1

  -- And with an entry in the lookup.
  unfoldable pub accepted : Phys Strm
  accepted = record added { store = stored added.store added.streamhash id s p; memory = later }

module _ (z : Zlib) (f : Ptr → List Ptr) (cells : Cells) (phys : Phys (z.Strm))
    (c : IsConnection phys f cells) (prio id s p : ℕ) (later : Answers) (np : p ≢ 0) (ns : s ≢ 0)
    (ne : id ≢ 0) (absent : find id cells ≡ none)
    (supply : IsSupply f phys.outgoing (s ∷ p ∷ later)) where
  s-IsFresh : IsFresh f phys.outgoing s × (has s (p ∷ later) ≡ false)
  s-IsFresh = elim (supply.0) [ inl z ↦ absurd (ns z) | inr h ↦ h ]

  listed-IsConnection : IsConnection (listed phys prio id s p later) f cells
  listed-IsConnection =
      alike f cells phys (listed phys prio id s p later) c refl refl refl refl refl refl refl
        supply.1

  p_new : has p (nodes_of cells) ≡ false
  p_new = elim (supply.1.0) [
    | inl z ↦ absurd (np z)
    | inr h ↦ rw (c.linked) at (h.0.unlisted lhead)
  ]

  register_accepts :
      (register_stream z (listed phys prio id s p later) s id
        ≡ done (accepted phys prio id s p later))
      × IsHash
          (accepted phys prio id s p later).store
          (accepted phys prio id s p later).streamhash
          (cells ++ (p, entry id s) ∷ [])
      × (find id (cells ++ (p, entry id s) ∷ []) ≡ some s)
  unfolding register_stream accepted phys_add_stream
  register_accepts =
      let (fresh, out) = s-IsFresh in
      let g = update f streams (f streams ++ s ∷ []) in
      let big = added phys prio id s p later in
      let c' =
        added-IsConnection f cells (listed phys prio id s p later) listed-IsConnection s fresh
          out in
      let n = c.counted in
      let (run, is, laws) =
        hash_store-find (hash_rounds big) big.store phys.streamhash id cells
          (connection-IsHash g cells big c') ne (omega arith) s p later absent np p_new in
      (rw run refl, is, rw (==_refl id) at (laws id))

  pub stream_init-accepted :
      (stack : ControlFrame)
      → prio ≤ 7
      → phys.memory ≡ s ∷ p ∷ later
      → spdy_control_frame_destroy (spdy_control_frame_init stack) ≡ done tt
      → (stream_init z stack phys prio 0 0 id ≡ done (ok, s, accepted phys prio id s p later))
        × IsHash
            (accepted phys prio id s p later).store
            (accepted phys prio id s p later).streamhash
            (cells ++ (p, entry id s) ∷ [])
        × (find id (cells ++ (p, entry id s) ∷ []) ≡ some s)
  unfolding stream_init accepted
  stream_init-accepted stack low m clean =
      let (run, is, found) = register_accepts in
      (rw (le→ltb 7 prio low, m, ne→== ns, ne→== ne, run, clean) refl, is, found)
