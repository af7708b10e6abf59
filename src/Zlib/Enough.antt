-- ===== src/Zlib/Enough.antt =====
-- The answers of the allocator that the loops of src/spdy_zlib.c take: one for each chunk of output.
use spindly.Prelude.{
  ◌⊎◌, inl, inr, false, Bool-cases, ltb, ◌==◌, ℕ, suc, ◌-◌, ◌/◌, ◌≤◌, ◌<◌, ◌≡◌, ◌≢◌, List, ◌∷◌,
  length, drop, All, arith, length-drop,
}
use spindly.Memory.{Answers}
use spindly.Zlib.{chunk}

-- The answers that are taken where `w` is written.
abbrev pub answers_for : List ℕ → ℕ
answers_for w = suc (length w / chunk)

-- No allocation fails, and there are answers for all that is written.
pub record IsEnough (w : List ℕ) (memory : Answers) : Type 0 where
  pub given : All (λ p. p ≢ 0) memory
  pub many : answers_for w ≤ length memory

pub IsEnough-tail :
    (w : List ℕ) (p : ℕ) (memory : Answers)
    → chunk ≤ length w
    → IsEnough w (p ∷ memory)
    → IsEnough (drop chunk w) memory
IsEnough-tail w p memory long e = record {
  given = e.given.1;
  many = omega (arith, length-drop chunk w, e.many);
}

pub answers_for-short : (w : List ℕ) → length w < chunk → answers_for w ≡ 1
answers_for-short w h = omega arith

pub answers_for-long :
    (w : List ℕ) → chunk ≤ length w → answers_for w ≡ suc (answers_for (drop chunk w))
answers_for-long w h = omega (arith, length-drop chunk w)

pub fits_or_fills : (w : List ℕ) → (length w < chunk) ⊎ (chunk ≤ length w)
fits_or_fills w = elim (Bool-cases (ltb (length w) chunk)) [
  | inl h ↦ inl (ground arith)
  | inr h ↦ inr (ground arith)
]

pub room_left : (w : List ℕ) → length w < chunk → (chunk - length w == 0) ≡ false
room_left w h = ground arith

pub not_null : (w : List ℕ) (p : ℕ) (memory : Answers) → IsEnough w (p ∷ memory) → (p == 0) ≡ false
not_null w p memory e = let ne = e.given.0 in ground arith
