-- ===== src/Connection/Filling.antt =====
-- The first part of spindly_phys_init in src/spindly_phys.c: the list heads and the pending queue.
use spindly.Prelude.{
  All, ◌≢◌, ℕ, zero, suc, ◌+◌, ◌≡◌, ◌⊎◌, inl, inr, refl, true, false, Option, none, some, List, [],
  ◌∷◌, ◌++◌, ◌==◌, arith, length, length-append, Bool-cases, ==_iff, ==_refl,
}
use spindly.Memory.{Answers, malloc}
use spindly.LinkedList.{Ptr, Heap, update, list_init, list_add}
use spindly.LinkedList.Segment.{has, Seg}
use spindly.LinkedList.IsList.{IsList, ne→==}
use spindly.LinkedList.Lists.{Lists, list_add-Lists}
use spindly.Phys.{OutData, streams, outq, inq, pendq, lhead, fill_pendq}
use spindly.Connection.Supply.{IsSupply, IsSupply-added}
use spindly.Connection.Unchanged.{malloc-IsSupply, malloc-IsFresh}

-- No list has nodes.
abbrev pub nowhere : Ptr → List Ptr
nowhere h = []

-- The list heads inside the struct.
abbrev pub struct_heads : List Ptr
struct_heads = streams ∷ outq ∷ inq ∷ pendq ∷ lhead ∷ []

-- The head at `h` is set up.
list_init-IsList :
    (g : Heap) (h k : Ptr) → (k == h) ≡ true ⊎ IsList g k [] → IsList (list_init g h) k []
unfolding list_init Seg
list_init-IsList g h k (inl e) = rw e (refl, refl)
list_init-IsList g h k (inr l) = ground arith

-- The pending queue is filled before the head of the lookup is set up; the order makes no difference.
module _ (g : Heap) (od : Ptr) where
  same_nodes :
      (list_init (list_add g pendq od) lhead).nodes ≡ (list_add (list_init g lhead) pendq od).nodes
  unfolding list_init list_add
  same_nodes = elim (Bool-cases ((g.heads pendq).last == 0)) [
    | inl e ↦ rw (==_refl od, e) refl
    | inr e ↦ rw (==_refl od, e) refl
  ]

  same_heads :
      (k : Ptr)
      → (list_init (list_add g pendq od) lhead).heads k
        ≡ (list_add (list_init g lhead) pendq od).heads k
  unfolding list_init list_add
  same_heads k = elim (Bool-cases ((g.heads pendq).last == 0)) [
    | inl e ↦
        rw (==_refl od, e)
          (elim (Bool-cases (k == lhead)) [
            | inl x ↦ let y = (==_iff k lhead).0 x in rw y refl
            | inr x ↦ rw x refl
          ])
    | inr e ↦
        rw (==_refl od, e)
          (elim (Bool-cases (k == lhead)) [
            | inl x ↦ let y = (==_iff k lhead).0 x in rw y refl
            | inr x ↦ rw x refl
          ])
  ]

  add_before_init :
      (f : Ptr → List Ptr)
      → Lists (list_add (list_init g lhead) pendq od) f
      → Lists (list_init (list_add g pendq od) lhead) f
  add_before_init f all k = rw (same_nodes, same_heads k) (all k)

-- What fill_pendq leaves when no allocation is refused: `n` more pending buffers.
pub record IsFilled (f : Ptr → List Ptr) (n : ℕ) (g : Heap) (memory : Answers) (f' : Ptr → List Ptr)
    : Type 0 where
  pub lists : Lists (list_init g lhead) f'
  pub others : (k : Ptr) → (k == pendq) ≡ false → f' k ≡ f k
  pub pending : length (f' pendq) ≡ length (f pendq) + n
  pub supply : IsSupply f' 0 memory

abbrev pub Filled : (Ptr → List Ptr) → ℕ → Option (Heap × (Ptr → OutData)) × Answers → Type 0
Filled f n (none, memory) = Unit {0}
Filled f n (some (g, table), memory) = (f' : Ptr → List Ptr) × IsFilled f n g memory f'

-- `n` buffers after a first one.
cons-Filled :
    (f : Ptr → List Ptr) (od : Ptr) (n : ℕ) (r : Option (Heap × (Ptr → OutData)) × Answers)
    → Filled (update f pendq (f pendq ++ od ∷ [])) n r
    → Filled f (suc n) r
cons-Filled f od n (none, memory) h = tt
cons-Filled f od n (some (g, table), memory) (f', h) = (
  f',
  record {
    lists = h.lists;
    others = λ k ne. let same = rw ne at (h.others k ne) in same;
    pending = let l = h.pending in let m = length-append (f pendq) (od ∷ []) in omega arith;
    supply = h.supply;
  },
)

pub fill_pendq-Filled :
    (n : ℕ) (g : Heap) (table : Ptr → OutData) (memory : Answers) (f : Ptr → List Ptr)
    → Lists (list_init g lhead) f
    → IsSupply f 0 memory
    → Filled f n (fill_pendq n g table memory)
unfolding fill_pendq
fill_pendq-Filled zero g table memory f all supply =
    (f, record { lists = all; others = λ k ne. refl; pending = omega arith; supply = supply })
fill_pendq-Filled (suc n) g table memory f all supply = elim (Bool-cases ((malloc memory).0 == 0)) [
  | inl refused ↦ rw refused tt
  | inr given ↦
      let od = (malloc memory).0 in
      let (fresh, out) = malloc-IsFresh f 0 memory supply given in
      let (_, rest) = malloc-IsSupply f 0 memory supply in
      let f1 = update f pendq (f pendq ++ od ∷ []) in
      let lists : Lists (list_init (list_add g pendq od) lhead) f1 =
        add_before_init g od f1
          (list_add-Lists (list_init g lhead) f all pendq od fresh.nonnull fresh.unlisted) in
      rw given (
        cons-Filled f od n _ (
          fill_pendq-Filled n (list_add g pendq od) _ (malloc memory).1 f1 lists
            (IsSupply-added f 0 (malloc memory).1 rest pendq od out)))
]

-- The five heads, whatever was there before.
pub heads_set :
    (g : Heap)
    → ((h : Ptr) → has h struct_heads ≡ false → IsList g h [])
    → Lists
        (list_init (list_init (list_init (list_init (list_init g streams) outq) inq) pendq) lhead)
        nowhere
unfolding list_init Seg
heads_set g other h = let o = other h in ground arith

-- When no allocation is refused, every round makes a buffer.
pub fill_pendq-some :
    (n : ℕ) (g : Heap) (table : Ptr → OutData) (ods last : Answers)
    → length ods ≡ n
    → All (λ p. p ≢ 0) ods
    → (x : Heap × (Ptr → OutData)) × (fill_pendq n g table (ods ++ last) ≡ (some x, last))
unfolding fill_pendq
fill_pendq-some zero g table [] last count given = ((g, table), refl)
fill_pendq-some zero g table (od ∷ ods) last count given = absurd (omega arith)
fill_pendq-some (suc n) g table [] last count given = absurd (omega arith)
fill_pendq-some (suc n) g table (od ∷ ods) last count (ne, given) =
    let cleared = update table od (record { len = 0; buffer = []; stream = 0 }) in
    let (x, e) = fill_pendq-some n (list_add g pendq od) cleared ods last (omega arith) given in
    (x, rw (ne→== ne) e)
