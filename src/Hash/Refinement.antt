-- ===== src/Hash/Refinement.antt =====
-- What a call of src/hash.c does to the hash, it does to the finite map.
use spindly.Prelude.{
  ℕ, suc, ◌+◌, ◌≤◌, ◌<◌, ◌≡◌, ◌≢◌, inl, inr, refl, sym, ◌∙◌, true, none, some, List, [], ◌∷◌, done,
  ◌==◌, arith, length, length-append, Option-cases, Bool-cases,
}
use spindly.Memory.{Answers, malloc}
use spindly.LinkedList.IsList.{ne→==}
use spindly.Hash.Calls.{
  Call, store, remove, lookup, id_of, hash_call, hash_calls, Table, table_call, table_calls,
  cells_call, Represents, AnswersFresh, IsServed, AreServed,
}
use spindly.Hash.{HashEntry, Hash, HashStore, entry_at, drop_node}
use spindly.Hash.Cells.{Cells, Holds, entry_at-some, IsHash, node_of, find, hash_get-node_of}
use spindly.Hash.Map.{
  entry, stored, find-none, find-some, hash_store-find, hash_store_refused, hash_store_nomem,
}
use spindly.Hash.Remove.{erase, hash_remove-find, hash_remove_absent}

length-erase : (id : ℕ) (cells : Cells) → length (erase id cells) ≤ length cells
unfolding erase
length-erase id [] = omega arith
length-erase id ((p, e) ∷ cells) = ground (arith, length-erase id cells)

erase-absent : (id : ℕ) (cells : Cells) → find id cells ≡ none → erase id cells ≡ cells
unfolding find erase
erase-absent id [] h = refl
erase-absent id ((p, e) ∷ cells) h = ground (arith, erase-absent id cells)

-- A call leaves at most one node more.
length-cells_call :
    (cells : Cells) (call : Call) (memory : Answers)
    → length (cells_call cells call memory) ≤ suc (length cells)
unfolding cells_call
length-cells_call cells (store id ptr) memory =
    let p = (malloc memory).0 in ground (arith, length-append cells ((p, entry id ptr) ∷ []))
length-cells_call cells (remove id) memory = omega (arith, length-erase id cells)
length-cells_call cells (lookup id) memory = omega arith

entry_of_node :
    (s : HashStore) (id v : ℕ) (cells : Cells)
    → Holds s cells
    → find id cells ≡ some v
    → (e : HashEntry) × (entry_at s (node_of id cells) ≡ done e) × (e.ptr ≡ v)
unfolding find node_of
entry_of_node s id v [] held h = cc
entry_of_node s id v ((p, e) ∷ cells) (at, held) h = elim (Bool-cases (e.id == id)) [
  | inl same ↦ (e, rw same (entry_at-some s p e at), let e = rw same at h in cc)
  | inr other ↦ rw other (entry_of_node s id v cells held (rw other at h))
]

module _ (rounds : ℕ) (s : HashStore) (h : Hash) (cells : Cells) (t : Table) (is : IsHash s h cells)
    (rep : Represents cells t) (fuel : length cells < rounds) where
  -- One call does to the hash what it does to the map.
  Refines : Call → Answers → Type 0
  Refines call memory =
      (s' : HashStore) × (hash_call rounds s h call memory
        ≡ done ((table_call t call memory).0, s', (table_call t call memory).2))
      × IsHash s' h (cells_call cells call memory)
      × Represents (cells_call cells call memory) (table_call t call memory).1

  store_refused-Refines :
      (id ptr : ℕ) (memory : Answers)
      → id ≢ 0
      → find id cells ≡ none
      → ((malloc memory).0 == 0) ≡ true
      → Refines (store id ptr) memory
  unfolding Refines hash_call table_call cells_call
  store_refused-Refines id ptr memory ne absent null =
      let run = hash_store_nomem rounds s h id cells is ne fuel ptr memory absent null in
      let here : t id ≡ none = sym (rep id) ∙ absent in
      (
        s,
        rw (run, table_call, here, null) refl,
        rw (cells_call, absent, null) is,
        rw (cells_call, absent, table_call, here, null) rep,
      )

  store_new-Refines :
      (id ptr : ℕ) (memory : Answers)
      → id ≢ 0
      → find id cells ≡ none
      → AnswersFresh cells memory
      → Refines (store id ptr) memory
  unfolding Refines hash_call table_call cells_call
  store_new-Refines id ptr [] ne absent fresh = store_refused-Refines id ptr [] ne absent refl
  store_new-Refines id ptr (p ∷ later) ne absent (inl null) =
      store_refused-Refines id ptr (p ∷ later) ne absent (rw null refl)
  store_new-Refines id ptr (p ∷ later) ne absent (inr out) = elim (Bool-cases (p == 0)) [
    | inl null ↦ store_refused-Refines id ptr (p ∷ later) ne absent null
    | inr given ↦
        let np : p ≢ 0 = ground arith in
        let (run, is', laws) =
          hash_store-find rounds s h id cells is ne fuel ptr p later absent np out in
        let here : t id ≡ none = sym (rep id) ∙ absent in
        (
          stored s h id ptr p,
          rw (run, table_call, here, given) refl,
          rw (cells_call, absent, given) is',
          rw (cells_call, absent, table_call, here, given) (λ j. rw (laws j, rep j) refl),
        )
  ]

  store-Refines :
      (id ptr : ℕ) (memory : Answers)
      → id ≢ 0
      → AnswersFresh cells memory
      → Refines (store id ptr) memory
  unfolding Refines hash_call table_call cells_call
  store-Refines id ptr memory ne fresh = elim (Option-cases (find id cells)) [
    | inr (v, present) ↦
        let run = hash_store_refused rounds s h id cells is ne fuel ptr v memory present in
        let here : t id ≡ some v = sym (rep id) ∙ present in
        (
          s,
          rw (run, table_call, here) refl,
          rw (cells_call, present) is,
          rw (cells_call, present, table_call, here) rep,
        )
    | inl absent ↦ store_new-Refines id ptr memory ne absent fresh
  ]

  remove-Refines : (id : ℕ) (memory : Answers) → id ≢ 0 → Refines (remove id) memory
  unfolding Refines hash_call table_call cells_call
  remove-Refines id memory ne = elim (Option-cases (find id cells)) [
    | inr (v, present) ↦
        let (run, is', _, laws) = hash_remove-find rounds s h id cells is ne fuel v present in
        let here : t id ≡ some v = sym (rep id) ∙ present in
        (
          drop_node s (node_of id cells),
          rw (run, table_call, here) refl,
          is',
          rw (table_call, here) (λ j. rw (laws j, rep j) refl),
        )
    | inl absent ↦
        let run = hash_remove_absent rounds s h id cells is ne fuel absent in
        let here : t id ≡ none = sym (rep id) ∙ absent in
        let same = erase-absent id cells absent in
        (s, rw (run, table_call, here) refl, rw same is, rw (same, table_call, here) rep)
  ]

  lookup-Refines : (id : ℕ) (memory : Answers) → id ≢ 0 → Refines (lookup id) memory
  unfolding Refines hash_call table_call cells_call
  lookup-Refines id memory ne =
      let run = hash_get-node_of rounds s h id cells is ne fuel in
      elim (Option-cases (find id cells)) [
        | inr (v, present) ↦
            let here : t id ≡ some v = sym (rep id) ∙ present in
            let some_node = find-some s h.lhead 0 _ _ id v cells is.linked present in
            let (e, at, ptr) = entry_of_node s id v cells is.held present in
            (s, rw (run, ne→== some_node, at, here, ptr) refl, is, rep)
        | inl absent ↦
            let here : t id ≡ none = sym (rep id) ∙ absent in
            (s, rw (run, find-none id cells absent, here) refl, is, rep)
      ]

  call-Refines :
      (call : Call) (memory : Answers)
      → id_of call ≢ 0
      → IsServed cells call memory
      → Refines call memory
  call-Refines (store id ptr) memory ne fresh = store-Refines id ptr memory ne fresh
  call-Refines (remove id) memory ne fresh = remove-Refines id memory ne
  call-Refines (lookup id) memory ne fresh = lookup-Refines id memory ne

-- For a well-formed hash that holds a finite map, any sequence of stores, removals and lookups (of ids that are
-- not 0, and with more rounds than there are nodes and calls), and an allocator whose answers are NULL or no
-- node of the hash at the time: the calls return, answer as the finite map does, a duplicate id, an absent id
-- and a failed allocation included, and leave a well-formed hash that holds what the finite map does.
pub hash_calls-table_calls :
    (rounds : ℕ) (h : Hash) (calls : List Call) (s : HashStore) (cells : Cells) (t : Table)
    (memory : Answers)
    → IsHash s h cells
    → Represents cells t
    → length cells + length calls < rounds
    → AreServed t cells calls memory
    → (s' : HashStore) × (cells' : Cells) × (hash_calls rounds s h calls memory
        ≡ done ((table_calls t calls memory).0, s', (table_calls t calls memory).2))
      × IsHash s' h cells'
      × Represents cells' (table_calls t calls memory).1
unfolding hash_calls table_calls Refines
hash_calls-table_calls rounds h [] s cells t memory is rep fuel served = (s, cells, refl, is, rep)
hash_calls-table_calls rounds h (call ∷ calls) s cells t memory is rep fuel (ne, fresh, served) =
    let (s1, run, is1, rep1) =
      call-Refines rounds s h cells t is rep (omega arith) call memory ne fresh in
    let one_more = length-cells_call cells call memory in
    let (s', cells', runs, is', rep') =
      hash_calls-table_calls rounds h calls s1 (cells_call cells call memory)
        (table_call t call memory).1 (table_call t call memory).2 is1 rep1 (omega arith) served in
    (s', cells', rw (run, runs) refl, is', rep')
