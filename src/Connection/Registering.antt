-- ===== src/Connection/Registering.antt =====
-- The end of _spindly_stream_init in src/spindly_stream.c on whole connections.
use spindly.Prelude.{
  ℕ, ◌<◌, ◌≡◌, ◌≢◌, inl, inr, refl, false, none, List, [], ◌∷◌, ◌++◌, ◌==◌, arith, length,
  Bool-cases, Option-cases, Post, Post-bind, Post-if,
}
use spindly.Codes.{Code}
use spindly.Memory.{Answers, malloc}
use spindly.LinkedList.{Ptr, update}
use spindly.LinkedList.Segment.{has}
use spindly.Hash.{HashStore, hash_get, hash_store}
use spindly.Hash.Cells.{Cells, find, hash_get-node_of}
use spindly.Hash.Map.{entry, find-none, hash_store_refused}
use spindly.Zlib.{Zlib}
use spindly.Phys.{Phys, streams, lhead, hash_rounds, phys_add_stream}
use spindly.Stream.{register_stream}
use spindly.Connection.{IsConnection, IsConnectedAt}
use spindly.Connection.Supply.{IsFresh}
use spindly.Connection.Unchanged.{malloc-IsSupply, malloc-IsFresh, with_memory}
use spindly.Connection.Streams.{connection-IsHash, added-IsConnection, stored-IsConnection}

abbrev pub Registered : {Strm : Type 0} → Ptr → List Ptr → Phys Strm → Phys Strm → Type 0
Registered k nodes phys phys' = IsConnectedAt k nodes phys' × (phys'.side ≡ phys.side)

module _ {Strm : Type 0} (f : Ptr → List Ptr) (cells : Cells) (phys : Phys Strm)
    (c : IsConnection phys f cells) (counted : length cells < phys.num_streams) (s id : ℕ) (k : Ptr)
    (off : (k == lhead) ≡ false) (nodes : List Ptr) (w : f k ≡ nodes) where
  -- What _spindly_hash_store does to a connection whose new stream is counted.
  abbrev Stored : Code × HashStore × Answers → Type 0
  Stored r = IsConnectedAt k nodes (record phys { store = r.1; memory = r.2 })

  store_new :
      find id cells ≡ none
      → (id == 0) ≡ false
      → Post Stored (hash_store (hash_rounds phys) phys.store phys.streamhash id s phys.memory)
  unfolding hash_store
  store_new absent ne =
      let is = connection-IsHash f cells phys c in
      let m = phys.memory in
      let (_, supply) = malloc-IsSupply f phys.outgoing m c.supply in
      let nonzero : id ≢ 0 = ground arith in
      let got =
        hash_get-node_of (hash_rounds phys) phys.store phys.streamhash id cells is nonzero
          (omega arith) in
      rw (got, find-none id cells absent)
        (Post-if Stored ((malloc m).0 == 0) _ _
          (λ _. (f, cells, with_memory f cells phys (malloc m).1 c supply, w))
          (λ e.
            let (fresh, out) = malloc-IsFresh f phys.outgoing m c.supply e in
            (
              update f lhead (f lhead ++ (malloc m).0 ∷ []),
              cells ++ ((malloc m).0, entry id s) ∷ [],
              stored-IsConnection f cells phys c id s (malloc m).0 (malloc m).1 absent counted fresh
                  out supply,
              rw off w,
            )))

  store_Post :
      Post Stored (hash_store (hash_rounds phys) phys.store phys.streamhash id s phys.memory)
  store_Post = elim (Bool-cases (id == 0)) [
    | inl zero ↦ unfold hash_store hash_get in rw zero tt
    | inr ne ↦ elim (Option-cases (find id cells)) [
      | inl absent ↦ store_new absent ne
      | inr (v, present) ↦
          let nonzero : id ≢ 0 = ground arith in
          rw
            (hash_store_refused (hash_rounds phys) phys.store phys.streamhash id cells
              (connection-IsHash f cells phys c) nonzero (omega arith) s v phys.memory present)
            (f, cells, c, w)
    ]
  ]

-- The end of stream_init keeps a connection whole.
pub register_stream-Registered :
    (z : Zlib) (f : Ptr → List Ptr) (cells : Cells) (phys : Phys (z.Strm)) (s id : ℕ) (k : Ptr)
    (nodes : List Ptr)
    → (k == lhead) ≡ false
    → (k == streams) ≡ false
    → f k ≡ nodes
    → IsConnection phys f cells
    → IsFresh f phys.outgoing s
    → has s phys.memory ≡ false
    → Post (Registered k nodes phys) (register_stream z phys s id)
unfolding register_stream phys_add_stream
register_stream-Registered z f cells phys s id k nodes off apart w c fresh out =
    let added = (phys_add_stream phys s).1 in
    let g = update f streams (f streams ++ s ∷ []) in
    let c' = added-IsConnection f cells phys c s fresh out in
    let lt : length cells < added.num_streams = let n = c.counted in omega arith in
    Post-bind (Stored g cells added c' lt s id k off nodes (rw apart w)) (Registered k nodes phys)
      (hash_store (hash_rounds added) added.store added.streamhash id s added.memory) _
      (store_Post g cells added c' lt s id k off nodes (rw apart w)) (λ r h. (h, refl))
