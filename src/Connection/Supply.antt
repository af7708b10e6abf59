-- ===== src/Connection/Supply.antt =====
-- The coming answers of the allocator, seen from the lists of src/spindly_phys.c.
use spindly.Prelude.{
  ◌≡◌, ◌≢◌, ◌⊎◌, inl, inr, true, false, List, [], ◌∷◌, ◌++◌, ◌==◌, arith, Bool-cases,
}
use spindly.Memory.{Answers}
use spindly.LinkedList.{Ptr, update}
use spindly.LinkedList.Segment.{has, has-append}

-- In no list, and not the buffer that is being sent.
pub record IsFresh (f : Ptr → List Ptr) (outgoing p : Ptr) : Type 0 where
  pub nonnull : p ≢ 0
  pub unlisted : (k : Ptr) → has p (f k) ≡ false
  pub unsent : p ≢ outgoing

-- Each answer is NULL, or fresh and not given again.
abbrev pub IsSupply : (Ptr → List Ptr) → (outgoing : Ptr) → Answers → Type 0
IsSupply f outgoing [] = Unit {0}
IsSupply f outgoing (p ∷ memory) =
    ((p ≡ 0) ⊎ (IsFresh f outgoing p × (has p memory ≡ false))) × IsSupply f outgoing memory

pub IsSupply-map :
    (f f' : Ptr → List Ptr) (o o' : Ptr) (memory : Answers)
    → ((q : Ptr) → has q memory ≡ true → IsFresh f o q → IsFresh f' o' q)
    → IsSupply f o memory
    → IsSupply f' o' memory
IsSupply-map f f' o o' [] keep s = tt
IsSupply-map f f' o o' (p ∷ memory) keep (first, rest) = (
  elim first [ inl z ↦ inl z | inr (fresh, out) ↦ inr (keep p (ground arith) fresh, out) ],
  IsSupply-map f f' o o' memory (λ q h. keep q (ground arith)) rest,
)

-- One more node in a list.
pub has-added :
    (f : Ptr → List Ptr) (h p q : Ptr)
    → q ≢ p
    → ((k : Ptr) → has q (f k) ≡ false)
    → (k : Ptr) → has q (update f h (f h ++ p ∷ []) k) ≡ false
has-added f h p q ne out k = elim (Bool-cases (k == h)) [
  | inl e ↦ rw (e, has-append q (f h) (p ∷ []), out h) (ground arith)
  | inr e ↦ rw e (out k)
]

-- One node less at the front of a list.
pub has-removed :
    (f : Ptr → List Ptr) (h p q : Ptr) (ps : List Ptr)
    → f h ≡ p ∷ ps
    → ((k : Ptr) → has q (f k) ≡ false)
    → (k : Ptr) → has q (update f h ps k) ≡ false
has-removed f h p q ps e out k = elim (Bool-cases (k == h)) [
  | inl same ↦ let whole = rw e at (out h) in rw same (ground arith)
  | inr other ↦ rw other (out k)
]

-- A node of a list is not fresh.
pub first-ne :
    (f : Ptr → List Ptr) (h p q : Ptr) (ps : List Ptr)
    → f h ≡ p ∷ ps
    → ((k : Ptr) → has q (f k) ≡ false)
    → q ≢ p
first-ne f h p q ps e out = let whole = rw e at (out h) in ground arith

module _ (f : Ptr → List Ptr) (o : Ptr) (memory : Answers) (supply : IsSupply f o memory) where
  pub IsSupply-added :
      (h p : Ptr) → has p memory ≡ false → IsSupply (update f h (f h ++ p ∷ [])) o memory
  IsSupply-added h p out =
      IsSupply-map f (update f h (f h ++ p ∷ [])) o o memory
        (λ q mem fresh. record {
          nonnull = fresh.nonnull;
          unlisted = has-added f h p q (ground arith) fresh.unlisted;
          unsent = fresh.unsent;
        })
        supply

  -- The removed node may become the one that is sent.
  pub IsSupply-removed :
      (h p : Ptr) (ps : List Ptr) (o' : Ptr)
      → f h ≡ p ∷ ps
      → (o' ≡ o) ⊎ (o' ≡ p)
      → IsSupply (update f h ps) o' memory
  IsSupply-removed h p ps o' e which =
      IsSupply-map f (update f h ps) o o' memory
        (λ q mem fresh. record {
          nonnull = fresh.nonnull;
          unlisted = has-removed f h p q ps e fresh.unlisted;
          unsent =
              let ne = first-ne f h p q ps e fresh.unlisted in
              let un = fresh.unsent in ground arith;
        })
        supply
