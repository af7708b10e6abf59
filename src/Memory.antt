-- ===== src/Memory.antt =====
-- The C library's allocator and byte copies, as far as the sources use them. What the coming
-- allocations answer is an argument, a list of addresses: 0 is NULL, and a list that is used up
-- answers NULL. `malloc`, `calloc` and `realloc` each take one answer.
pub mod Copies
use spindly.Prelude.{ℕ, zero, suc, List, [], ◌∷◌, Run, done, fault, ◌>>=◌}

abbrev pub Answers : Type 0
Answers = List ℕ

abbrev pub malloc : Answers → ℕ × Answers
malloc [] = (0, [])
malloc (p ∷ later) = (p, later)

-- The `n` bytes that memcpy reads through a pointer.
unfoldable pub memcpy : ℕ → List ℕ → Run (List ℕ)
memcpy zero src = done []
memcpy (suc n) [] = fault
memcpy (suc n) (b ∷ src) = do bytes ← memcpy n src; done (b ∷ bytes)
