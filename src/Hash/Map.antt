-- ===== src/Hash/Map.antt =====
-- The hash is a finite map from ids to pointers.
use spindly.Prelude.{
  ℕ, ◌<◌, ◌≡◌, ◌≢◌, refl, true, false, Option, none, some, [], ◌∷◌, ◌++◌, done, ◌==◌, if◌then◌else◌,
  arith, length, ==_refl,
}
use spindly.Codes.{ok, nomem, inval}
use spindly.Memory.{Answers, malloc}
use spindly.LinkedList.{Ptr, Heap, update, list_add}
use spindly.LinkedList.Segment.{has, Seg, Seg-cons}
use spindly.LinkedList.IsList.{ne→==, list_add-append}
use spindly.Hash.{HashEntry, Hash, HashStore, hash_store}
use spindly.Hash.Cells.{
  Cells, nodes_of, Holds, HasDistinctIds, IsHash, node_of, find, hash_get-node_of,
}

abbrev pub entry : (id ptr : ℕ) → HashEntry
entry id ptr = record { id = id; ptr = ptr }

pub nodes_of-append :
    (cells : Cells) (p : Ptr) (e : HashEntry)
    → nodes_of (cells ++ (p, e) ∷ []) ≡ nodes_of cells ++ p ∷ []
nodes_of-append [] p e = refl
nodes_of-append ((q, _) ∷ cells) p e = rw (nodes_of-append cells p e)

pub find-none : (id : ℕ) (cells : Cells) → find id cells ≡ none → node_of id cells ≡ 0
unfolding find node_of
find-none id [] h = refl
find-none id ((p, e) ∷ cells) h = ground (arith, find-none id cells)

pub Holds-update :
    (s : HashStore) (heap : Heap) (p : Ptr) (v : Option HashEntry) (cells : Cells)
    → has p (nodes_of cells) ≡ false
    → Holds s cells
    → Holds (record { heap = heap; entries = update s.entries p v }) cells
Holds-update s heap p v [] out h = tt
Holds-update s heap p v ((q, e) ∷ cells) out (a, h) =
    (ground arith, Holds-update s heap p v cells (ground arith) h)

Holds-append :
    (s : HashStore) (cells : Cells) (p : Ptr) (e : HashEntry)
    → Holds s cells
    → s.entries p ≡ some e
    → Holds s (cells ++ (p, e) ∷ [])
Holds-append s [] p e h a = (a, tt)
Holds-append s (c ∷ cells) p e (b, h) a = (b, Holds-append s cells p e h a)

pub find-append :
    (j : ℕ) (cells : Cells) (p : Ptr) (id ptr : ℕ)
    → find id cells ≡ none
    → find j (cells ++ (p, entry id ptr) ∷ []) ≡ (if id == j then some ptr else find j cells)
unfolding find
find-append j [] p id ptr h = refl
find-append j ((q, e) ∷ cells) p id ptr h = ground (arith, find-append j cells p id ptr)

distinct-append :
    (cells : Cells) (p : Ptr) (id ptr : ℕ)
    → find id cells ≡ none
    → HasDistinctIds cells
    → HasDistinctIds (cells ++ (p, entry id ptr) ∷ [])
unfolding find
distinct-append [] p id ptr h d = (refl, tt)
distinct-append ((q, e) ∷ cells) p id ptr h (a, d) = (
  ground (arith, find-append e.id cells p id ptr),
  distinct-append cells p id ptr (ground arith) d,
)

-- The store after _spindly_hash_store has put a new node at `p`.
abbrev pub stored : HashStore → Hash → (id ptr p : ℕ) → HashStore
stored s h id ptr p = record {
  heap = list_add s.heap h.lhead p;
  entries = update s.entries p (some (entry id ptr));
}

pub stored-IsHash :
    (s : HashStore) (h : Hash) (id ptr p : ℕ) (cells : Cells)
    → IsHash s h cells
    → find id cells ≡ none
    → p ≢ 0
    → has p (nodes_of cells) ≡ false
    → IsHash (stored s h id ptr p) h (cells ++ (p, entry id ptr) ∷ [])
stored-IsHash s h id ptr p cells is absent ne out =
    let heap = list_add s.heap h.lhead p in
    let v = some (entry id ptr) in
    let old = Holds-update s heap p v cells out is.held in
    let at : update s.entries p v p ≡ v = rw (==_refl p) in
    record {
      linked =
          rw (nodes_of-append cells p (entry id ptr))
            (list_add-append s.heap h.lhead p (nodes_of cells) ne out is.linked);
      held = Holds-append (stored s h id ptr p) cells p (entry id ptr) old at;
      distinct = distinct-append cells p id ptr absent is.distinct;
    }

-- A present id has a node, and it is no NULL.
pub find-some :
    (s : HashStore) (head prev first last id v : ℕ) (cells : Cells)
    → Seg s.heap.nodes head prev first last 0 (nodes_of cells)
    → find id cells ≡ some v
    → node_of id cells ≢ 0
unfolding find node_of
find-some s head prev first last id v [] g h = cc
find-some s head prev first last id v ((p, e) ∷ cells) g h =
    let (_, ne, _, _, _, t) = Seg-cons s.heap.nodes head prev first last 0 p (nodes_of cells) g in
    ground (arith, find-some s head p (s.heap.nodes p).next last id v cells t)

module _ (rounds : ℕ) (s : HashStore) (h : Hash) (id : ℕ) (cells : Cells) (is : IsHash s h cells)
    (ne : id ≢ 0) (fuel : length cells < rounds) where
  -- Storing under a new id: the new node is last, and is found.
  pub hash_store-find :
      (ptr p : ℕ) (later : Answers)
      → find id cells ≡ none
      → p ≢ 0
      → has p (nodes_of cells) ≡ false
      → (hash_store rounds s h id ptr (p ∷ later) ≡ done (ok, stored s h id ptr p, later))
        × IsHash (stored s h id ptr p) h (cells ++ (p, entry id ptr) ∷ [])
        × ((j : ℕ)
            → find j (cells ++ (p, entry id ptr) ∷ [])
              ≡ (if id == j then some ptr else find j cells))
  unfolding hash_store
  hash_store-find ptr p later absent np out = (
    rw (hash_get-node_of rounds s h id cells is ne fuel, find-none id cells absent, ne→== np) refl,
    stored-IsHash s h id ptr p cells is absent np out,
    λ j. find-append j cells p id ptr absent,
  )

  -- Storing under a present id is refused, and no memory is asked for.
  pub hash_store_refused :
      (ptr v : ℕ) (memory : Answers)
      → find id cells ≡ some v
      → hash_store rounds s h id ptr memory ≡ done (inval, s, memory)
  unfolding hash_store
  hash_store_refused ptr v memory present = rw (
    hash_get-node_of rounds s h id cells is ne fuel,
    ne→== (find-some s h.lhead 0 _ _ id v cells is.linked present),
  )

  -- Storing under a new id when the allocation fails reports that, and the hash is as before.
  pub hash_store_nomem :
      (ptr : ℕ) (memory : Answers)
      → find id cells ≡ none
      → ((malloc memory).0 == 0) ≡ true
      → hash_store rounds s h id ptr memory ≡ done (nomem, s, (malloc memory).1)
  unfolding hash_store
  hash_store_nomem ptr memory absent null =
      rw (hash_get-node_of rounds s h id cells is ne fuel, find-none id cells absent, null)
