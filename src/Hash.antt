-- ===== src/Hash.antt =====
-- src/hash.c and hash.h: the lookup from stream ids to pointers, a linked list that is scanned. Its
-- loops take the rounds that they may run; one more than there are nodes is enough.
pub mod Cells
pub mod Map
pub mod Remove
pub mod Calls
pub mod Refinement
use spindly.Prelude.{
  ℕ, zero, suc, not, Option, none, some, Run, done, fault, spin, assert, ◌>>=◌, ◌>>◌, ◌==◌,
  if◌then◌else◌,
}
use spindly.Codes.{Code, ok, nomem, inval}
use spindly.Memory.{Answers, malloc}
use spindly.LinkedList.{Ptr, Heap, update, list_init, list_add, list_first, list_next, list_remove}

-- struct hashnode, less its list node
pub record HashEntry : Type 0 where
  pub id : ℕ
  pub ptr : Ptr

-- struct hash: `lhead` is the address of its list head.
pub record Hash : Type 0 where
  pub lhead : Ptr
  pub phys : Ptr

-- The lists and the hash nodes; a node that is not allocated, or was freed, is `none`.
pub record HashStore : Type 0 where
  pub heap : Heap
  pub entries : Ptr → Option HashEntry

abbrev pub hash_init : HashStore → (lhead phys : Ptr) → Hash × HashStore
hash_init s lhead phys =
    (record { lhead = lhead; phys = phys }, record s { heap = list_init s.heap lhead })

-- n->id and n->ptr
unfoldable pub entry_at : HashStore → Ptr → Run HashEntry
entry_at s n = elim (s.entries n) [ none ↦ fault | some e ↦ done e ]

-- The loop from node `n`.
unfoldable pub get_loop : ℕ → HashStore → ℕ → Ptr → Run Ptr
unfolding entry_at
get_loop zero s id n = spin
get_loop (suc k) s id n =
    if n == 0
    then done 0
    else do e ← entry_at s n; if e.id == id then done n else get_loop k s id (list_next s.heap n)

-- The node that has the id, or NULL.
unfoldable pub hash_get : (rounds : ℕ) → HashStore → Hash → (id : ℕ) → Run Ptr
hash_get rounds s h id = do assert (not (id == 0)); get_loop rounds s id (list_first s.heap h.lhead)

unfoldable pub hash_store :
    (rounds : ℕ) → HashStore → Hash → (id ptr : ℕ) → Answers → Run (Code × HashStore × Answers)
hash_store rounds s h id ptr memory = do
  n ← hash_get rounds s h id
  if n == 0
      then (let (p, later) = malloc memory in
          if p == 0
          then done (nomem, s, later)
          else done (
            ok,
            record {
              heap = list_add s.heap h.lhead p;
              entries = update s.entries p (some (record { id = id; ptr = ptr }));
            },
            later,
          ))
      else done (inval, s, memory)

-- Unlink a node and free it.
abbrev pub drop_node : HashStore → Ptr → HashStore
drop_node s n = record { heap = list_remove s.heap n; entries = update s.entries n none }

unfoldable pub hash_remove : (rounds : ℕ) → HashStore → Hash → (id : ℕ) → Run (Code × HashStore)
hash_remove rounds s h id = do
  n ← hash_get rounds s h id
  done (if n == 0 then (inval, s) else (ok, drop_node s n))

-- The read of a node's `next`, which faults if the node was freed.
unfoldable pub next_of : HashStore → Ptr → Run Ptr
unfolding entry_at
next_of s n = do e ← entry_at s n; done (list_next s.heap n)

-- The loop from node `n`, whose `next` is read before it is unlinked and freed.
unfoldable pub destroy_loop : ℕ → HashStore → Ptr → Run HashStore
unfolding next_of
destroy_loop zero s n = spin
destroy_loop (suc k) s n =
    if n == 0 then done s else do next ← next_of s n; destroy_loop k (drop_node s n) next

unfoldable pub hash_destroy : (rounds : ℕ) → HashStore → Hash → Run (Code × HashStore)
unfolding destroy_loop
hash_destroy rounds s h = do s' ← destroy_loop rounds s (list_first s.heap h.lhead); done (ok, s')
