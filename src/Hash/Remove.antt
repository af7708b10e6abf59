-- ===== src/Hash/Remove.antt =====
-- Removal from the hash and its destruction.
use spindly.Prelude.{
  ℕ, zero, suc, ◌<◌, ◌≡◌, ◌≢◌, none, some, List, [], ◌∷◌, ◌++◌, done, ◌==◌, if◌then◌else◌, arith,
  length, All, Bool-cases, inl, inr, ==_refl,
}
use spindly.Codes.{ok, inval}
use spindly.LinkedList.{Ptr, list_first, list_remove}
use spindly.LinkedList.Segment.{Seg-nil, Seg-cons, not-mem_middle, same_first}
use spindly.LinkedList.IsList.{IsList, ne→==, list_remove-middle}
use spindly.Hash.{Hash, HashStore, hash_remove, drop_node, destroy_loop, next_of, hash_destroy}
use spindly.Hash.Cells.{
  Cells, nodes_of, Holds, HasDistinctIds, IsHash, node_of, find, hash_get-node_of, entry_at-some,
}
use spindly.Hash.Map.{Holds-update, find-some, find-none}

-- The cells without the node that has the id.
unfoldable pub erase : ℕ → Cells → Cells
erase id [] = []
erase id ((p, e) ∷ cells) = if e.id == id then cells else (p, e) ∷ erase id cells

pub find-erase :
    (j id : ℕ) (cells : Cells)
    → HasDistinctIds cells
    → find j (erase id cells) ≡ (if id == j then none else find j cells)
unfolding find erase
find-erase j id [] d = ground arith
find-erase j id ((p, e) ∷ cells) (a, d) = ground (arith, find-erase j id cells d)

distinct-erase : (id : ℕ) (cells : Cells) → HasDistinctIds cells → HasDistinctIds (erase id cells)
unfolding find erase
distinct-erase id [] d = tt
distinct-erase id ((p, e) ∷ cells) (a, d) =
    ground (arith, find-erase e.id id cells d, distinct-erase id cells d)

Holds-erase : (s : HashStore) (id : ℕ) (cells : Cells) → Holds s cells → Holds s (erase id cells)
unfolding erase
Holds-erase s id [] h = tt
Holds-erase s id ((p, e) ∷ cells) (a, h) = ground (arith, Holds-erase s id cells h)

-- Where the node of a present id stands.
split_at :
    (id v : ℕ) (cells : Cells)
    → find id cells ≡ some v
    → (xs ys : List Ptr) × (nodes_of cells ≡ xs ++ node_of id cells ∷ ys)
      × (nodes_of (erase id cells) ≡ xs ++ ys)
unfolding find node_of erase
split_at id v [] h = cc
split_at id v ((p, e) ∷ cells) h = elim (Bool-cases (e.id == id)) [
  | inl same ↦ ([], nodes_of cells, rw same, rw same)
  | inr other ↦
      let (xs, ys, a, b) = split_at id v cells (rw other at h) in
      (p ∷ xs, ys, rw (other, ← a), rw (other, ← b))
]

module _ (rounds : ℕ) (s : HashStore) (h : Hash) (id : ℕ) (cells : Cells) (is : IsHash s h cells)
    (ne : id ≢ 0) (fuel : length cells < rounds) where
  -- Removing a present id: its node is unlinked and freed, and is found no more.
  pub hash_remove-find :
      (v : ℕ)
      → find id cells ≡ some v
      → (hash_remove rounds s h id ≡ done (ok, drop_node s (node_of id cells)))
        × IsHash (drop_node s (node_of id cells)) h (erase id cells)
        × ((drop_node s (node_of id cells)).entries (node_of id cells) ≡ none)
        × ((j : ℕ) → find j (erase id cells) ≡ (if id == j then none else find j cells))
  unfolding hash_remove
  hash_remove-find v present =
      let p = node_of id cells in
      let (xs, ys, a, b) = split_at id v cells present in
      let whole : IsList s.heap h.lhead (xs ++ p ∷ ys) = rw a at is.linked in
      let out = not-mem_middle s.heap.nodes h.lhead 0 _ _ 0 p xs ys whole in
      (
        rw (
          hash_get-node_of rounds s h id cells is ne fuel,
          ne→== (find-some s h.lhead 0 _ _ id v cells is.linked present),
        ),
        record {
          linked = rw b (list_remove-middle s.heap h.lhead p xs ys whole);
          held =
              Holds-update s (list_remove s.heap p) p none (erase id cells) (rw b out)
                (Holds-erase s id cells is.held);
          distinct = distinct-erase id cells is.distinct;
        },
        rw (==_refl p),
        λ j. find-erase j id cells is.distinct,
      )

  -- Removing an absent id is refused.
  pub hash_remove_absent : find id cells ≡ none → hash_remove rounds s h id ≡ done (inval, s)
  unfolding hash_remove
  hash_remove_absent absent =
      rw (hash_get-node_of rounds s h id cells is ne fuel, find-none id cells absent)

-- What _spindly_hash_destroy leaves: an empty list, and every node freed.
abbrev pub IsDestroyed : HashStore → Hash → Cells → HashStore → Type 0
IsDestroyed s h cells s' = IsHash s' h [] × All (λ c. s'.entries c.0 ≡ none) cells

destroy_loop-IsDestroyed :
    (k : ℕ) (s : HashStore) (h : Hash) (cells : Cells)
    → IsHash s h cells
    → length cells < k
    → (s' : HashStore) × (destroy_loop k s (list_first s.heap h.lhead) ≡ done s')
      × IsHash s' h []
      × All (λ c. s'.entries c.0 ≡ none) cells
      × ((q : Ptr) → s.entries q ≡ none → s'.entries q ≡ none)
unfolding destroy_loop next_of
destroy_loop-IsDestroyed zero s h cells is fuel = absurd (omega arith)
destroy_loop-IsDestroyed (suc k) s h [] is fuel =
    let (e, _) = Seg-nil s.heap.nodes h.lhead 0 _ _ 0 is.linked in (s, rw e, is, tt, λ q a. a)
destroy_loop-IsDestroyed (suc k) s h ((p, e) ∷ cells) is fuel =
    let (at, np, out, _, _, t) =
      Seg-cons s.heap.nodes h.lhead 0 _ _ 0 p (nodes_of cells) is.linked in
    let s1 = drop_node s p in
    let is1 : IsHash s1 h cells = record {
      linked = list_remove-middle s.heap h.lhead p [] (nodes_of cells) is.linked;
      held = Holds-update s (list_remove s.heap p) p none cells out is.held.1;
      distinct = is.distinct.1;
    } in
    let (s', run, done', gone, keep) = destroy_loop-IsDestroyed k s1 h cells is1 (omega arith) in
    let next =
      same_first s.heap.nodes s1.heap.nodes h.lhead p _ _ 0 _ _ 0 (nodes_of cells) t is1.linked in
    (
      s',
      rw (at, ne→== np, entry_at-some s p e is.held.0, next) run,
      done',
      (keep p (rw (==_refl p)), gone),
      λ q a. keep q (ground arith),
    )

-- On a well-formed hash, with more rounds than nodes, _spindly_hash_destroy returns, so it reads the `next` of no
-- node that was freed; after it the hash is empty and well formed and every node is freed.
pub hash_destroy-IsDestroyed :
    (rounds : ℕ) (s : HashStore) (h : Hash) (cells : Cells)
    → IsHash s h cells
    → length cells < rounds
    → (s' : HashStore) × (hash_destroy rounds s h ≡ done (ok, s')) × IsDestroyed s h cells s'
unfolding hash_destroy
hash_destroy-IsDestroyed rounds s h cells is fuel =
    let (s', run, empty, gone, _) = destroy_loop-IsDestroyed rounds s h cells is fuel in
    (s', rw run, (empty, gone))
