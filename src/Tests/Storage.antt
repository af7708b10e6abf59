-- ===== src/Tests/Storage.antt =====
-- Lists and hashes with a few nodes.
use spindly.Prelude.{◌≡◌, refl, false, none, some, List, [], ◌∷◌, done, arith, inl, inr}
use spindly.Codes.{ok, nomem, inval}
use spindly.LinkedList.{Ptr, Heap, update, list_add, list_remove}
use spindly.LinkedList.Segment.{has, Seg}
use spindly.LinkedList.Lists.{Lists, list_add-Lists, list_remove-Lists}
use spindly.Hash.{Hash, HashStore, hash_get, hash_destroy}
use spindly.Hash.Cells.{Cells, IsHash, find, node_of, hash_get-node_of}
use spindly.Hash.Map.{entry, stored, hash_store-find}
use spindly.Memory.{Answers}
use spindly.Hash.Calls.{
  Call, store, remove, lookup, code, value, hash_calls, Table, table_call, table_calls, cells_call,
  Represents, AreServed,
}
use spindly.Hash.Refinement.{hash_calls-table_calls}
use spindly.Hash.Remove.{erase, IsDestroyed, hash_destroy-IsDestroyed}

abbrev pub no_lists : Heap
no_lists = record {
  nodes = λ p. record { next = 0; prev = 0; head = 0 };
  heads = λ h. record { last = 0; first = 0 };
}

abbrev pub nothing_in : Ptr → List Ptr
nothing_in h = []

pub no_lists-Lists : Lists no_lists nothing_in
unfolding Seg
no_lists-Lists h = (refl, refl)

abbrev one_in : Ptr → List Ptr
one_in = update nothing_in 1 (100 ∷ [])

abbrev one_node : Heap
one_node = list_add no_lists 1 100

one_node-Lists : Lists one_node one_in
one_node-Lists = list_add-Lists no_lists nothing_in no_lists-Lists 1 100 (omega arith) (λ k. refl)

fresh_104 : (k : Ptr) → has 104 (one_in k) ≡ false
fresh_104 k = ground arith

list_add-Lists_example : Lists (list_add one_node 1 104) (update one_in 1 (100 ∷ 104 ∷ []))
list_add-Lists_example = list_add-Lists one_node one_in one_node-Lists 1 104 (omega arith) fresh_104

list_remove-Lists_example : Lists (list_remove one_node 100) (update one_in 1 [])
list_remove-Lists_example = list_remove-Lists one_node one_in one_node-Lists 1 100 [] [] refl

abbrev pub no_store : HashStore
no_store = record { heap = no_lists; entries = λ p. none }

abbrev pub some_hash : Hash
some_hash = record { lhead = 5; phys = 1 }

no_store-IsHash : IsHash no_store some_hash []
no_store-IsHash = record { linked = no_lists-Lists 5; held = tt; distinct = tt }

abbrev pub cells_7 : Cells
cells_7 = (200, entry 7 70) ∷ []

abbrev pub store_7 : HashStore
store_7 = stored no_store some_hash 7 70 200

pub store_7-IsHash : IsHash store_7 some_hash cells_7
unfolding find
store_7-IsHash =
    (hash_store-find 1 no_store some_hash 7 [] no_store-IsHash (omega arith) (omega arith) 70 200 []
      refl (omega arith) refl).1

pub find_7 : find 7 cells_7 ≡ some 70
unfolding find
find_7 = refl

pub find_9 : find 9 cells_7 ≡ none
unfolding find
find_9 = refl

hash_get-node_of_example : hash_get 2 store_7 some_hash 7 ≡ done (node_of 7 cells_7)
hash_get-node_of_example =
    hash_get-node_of 2 store_7 some_hash 7 cells_7 store_7-IsHash (omega arith) (omega arith)

-- A new id, a lookup, a removal, the removed node's address again, a duplicate, and a failed allocation.
abbrev some_calls : List Call
some_calls = store 9 90 ∷ lookup 9 ∷ remove 7 ∷ store 8 80 ∷ store 8 81 ∷ store 6 60 ∷ []

abbrev some_answers : Answers
some_answers = 204 ∷ 200 ∷ 0 ∷ []

abbrev table_7 : Table
table_7 j = find j cells_7

table_run :
    (table_calls table_7 some_calls some_answers).0
    ≡ code ok ∷ value (some 90) ∷ code ok ∷ code ok ∷ code inval ∷ code nomem ∷ []
unfolding find table_calls table_call
table_run = refl

some_calls-AreServed : AreServed table_7 cells_7 some_calls some_answers
unfolding find table_call cells_call erase
some_calls-AreServed = (
  omega arith,
  inr refl,
  (
    omega arith,
    tt,
    (
      omega arith,
      tt,
      (omega arith, inr refl, (omega arith, inl refl, (omega arith, inl refl, tt))),
    ),
  ),
)

hash_calls-table_calls_example :
    (s' : HashStore) × (cells' : Cells) × (hash_calls 9 store_7 some_hash some_calls some_answers
      ≡ done (
        (table_calls table_7 some_calls some_answers).0,
        s',
        (table_calls table_7 some_calls some_answers).2,
      ))
    × IsHash s' some_hash cells'
    × Represents cells' (table_calls table_7 some_calls some_answers).1
hash_calls-table_calls_example =
    hash_calls-table_calls 9 some_hash some_calls store_7 cells_7 table_7 some_answers
      store_7-IsHash (λ j. refl) (omega arith) some_calls-AreServed

hash_destroy-IsDestroyed_example :
    (s' : HashStore) × (hash_destroy 2 store_7 some_hash ≡ done (ok, s'))
    × IsDestroyed store_7 some_hash cells_7 s'
hash_destroy-IsDestroyed_example =
    hash_destroy-IsDestroyed 2 store_7 some_hash cells_7 store_7-IsHash (omega arith)
