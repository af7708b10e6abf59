-- ===== src/Hash/Calls.antt =====
-- Sequences of calls of src/hash.c, and the finite map that they maintain.
use spindly.Prelude.{
  ℕ, ◌≡◌, ◌≢◌, ◌⊎◌, false, Option, none, some, List, [], ◌∷◌, ◌++◌, Run, done, ◌>>=◌, ◌==◌,
  if◌then◌else◌,
}
use spindly.Codes.{Code, ok, nomem, inval}
use spindly.Memory.{Answers, malloc}
use spindly.LinkedList.{Ptr}
use spindly.LinkedList.Segment.{has}
use spindly.Hash.{Hash, HashStore, entry_at, hash_get, hash_store, hash_remove}
use spindly.Hash.Cells.{Cells, nodes_of, find}
use spindly.Hash.Map.{entry}
use spindly.Hash.Remove.{erase}

pub data Call : Type 0 where
  store : (id ptr : ℕ) → Call
  remove : (id : ℕ) → Call
  lookup : (id : ℕ) → Call

abbrev pub id_of : Call → ℕ
id_of (store id ptr) = id
id_of (remove id) = id
id_of (lookup id) = id

pub data Reply : Type 0 where
  code : Code → Reply
  value : Option Ptr → Reply

-- One call; a lookup reads the pointer of the node that it finds, as the callers do.
unfoldable pub hash_call :
    (rounds : ℕ) → HashStore → Hash → Call → Answers → Run (Reply × HashStore × Answers)
hash_call rounds s h (store id ptr) memory = do
  (rc, s', later) ← hash_store rounds s h id ptr memory
  done (code rc, s', later)
hash_call rounds s h (remove id) memory = do
  (rc, s') ← hash_remove rounds s h id
  done (code rc, s', memory)
hash_call rounds s h (lookup id) memory = do
  n ← hash_get rounds s h id
  if n == 0
      then done (value none, s, memory)
      else do e ← entry_at s n; done (value (some e.ptr), s, memory)

unfoldable pub hash_calls :
    (rounds : ℕ) → HashStore → Hash → List Call → Answers → Run (List Reply × HashStore × Answers)
hash_calls rounds s h [] memory = done ([], s, memory)
hash_calls rounds s h (call ∷ calls) memory = do
  (reply, s', later) ← hash_call rounds s h call memory
  (replies, s'', last) ← hash_calls rounds s' h calls later
  done (reply ∷ replies, s'', last)

-- The finite map: what is stored under an id.
abbrev pub Table : Type 0
Table = ℕ → Option Ptr

abbrev pub put : Table → ℕ → Option Ptr → Table
put t id v j = if id == j then v else t j

-- What a call answers and does to the map. Storing under a new id asks for memory.
unfoldable pub table_call : Table → Call → Answers → Reply × Table × Answers
table_call t (store id ptr) memory = elim (t id) [
  | some _ ↦ (code inval, t, memory)
  | none ↦
      let (p, later) = malloc memory in
      if p == 0 then (code nomem, t, later) else (code ok, put t id (some ptr), later)
]
table_call t (remove id) memory = elim (t id) [
  | some _ ↦ (code ok, put t id none, memory)
  | none ↦ (code inval, t, memory)
]
table_call t (lookup id) memory = (value (t id), t, memory)

unfoldable pub table_calls : Table → List Call → Answers → List Reply × Table × Answers
table_calls t [] memory = ([], t, memory)
table_calls t (call ∷ calls) memory =
    let (reply, t', later) = table_call t call memory in
    let (replies, t'', last) = table_calls t' calls later in (reply ∷ replies, t'', last)

-- The nodes that a call leaves.
unfoldable pub cells_call : Cells → Call → Answers → Cells
cells_call cells (store id ptr) memory = elim (find id cells) [
  | some _ ↦ cells
  | none ↦
      let (p, later) = malloc memory in if p == 0 then cells else cells ++ (p, entry id ptr) ∷ []
]
cells_call cells (remove id) memory = erase id cells
cells_call cells (lookup id) memory = cells

abbrev pub Represents : Cells → Table → Type 0
Represents cells t = (j : ℕ) → find j cells ≡ t j

-- The next answer is NULL, or no node of the hash.
abbrev pub AnswersFresh : Cells → Answers → Type 0
AnswersFresh cells [] = Unit {0}
AnswersFresh cells (p ∷ later) = (p ≡ 0) ⊎ (has p (nodes_of cells) ≡ false)

-- What a call needs of the allocator.
abbrev pub IsServed : Cells → Call → Answers → Type 0
IsServed cells (store id ptr) memory = AnswersFresh cells memory
IsServed cells (remove id) memory = Unit {0}
IsServed cells (lookup id) memory = Unit {0}

-- No call has the id 0, and what the allocator answers is NULL or an address that is no node of the hash then:
-- the address of a node that was removed may come again.
abbrev pub AreServed : Table → Cells → List Call → Answers → Type 0
AreServed t cells [] memory = Unit {0}
AreServed t cells (call ∷ calls) memory =
    (id_of call ≢ 0)
    × IsServed cells call memory
    × AreServed (table_call t call memory).1 (cells_call cells call memory) calls
        (table_call t call memory).2
