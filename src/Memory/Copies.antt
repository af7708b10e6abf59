-- ===== src/Memory/Copies.antt =====
-- What memcpy reads.
use spindly.Prelude.{
  ℕ, zero, suc, ◌≤◌, ◌≡◌, ◌≢◌, refl, List, [], ◌∷◌, ◌++◌, done, spin, >>=-ne-spin, arith, length,
  take, append-nil,
}
use spindly.Memory.{memcpy}

pub memcpy-take : (n : ℕ) (src : List ℕ) → n ≤ length src → memcpy n src ≡ done (take n src)
unfolding memcpy
memcpy-take zero src h = refl
memcpy-take (suc n) [] h = absurd (omega arith)
memcpy-take (suc n) (b ∷ src) h = rw (memcpy-take n src (omega arith))

pub memcpy-append : (xs ys : List ℕ) → memcpy (length xs) (xs ++ ys) ≡ done xs
unfolding memcpy
memcpy-append [] ys = refl
memcpy-append (x ∷ xs) ys = rw (memcpy-append xs ys)

pub memcpy-whole : (bytes : List ℕ) → memcpy (length bytes) bytes ≡ done bytes
memcpy-whole bytes = rw (append-nil bytes) at (memcpy-append bytes [])

-- A copy ends.
pub memcpy-ne-spin : (n : ℕ) (src : List ℕ) → memcpy n src ≢ spin
unfolding memcpy
memcpy-ne-spin zero src = λ e. cc
memcpy-ne-spin (suc n) [] = λ e. cc
memcpy-ne-spin (suc n) (b ∷ src) =
    >>=-ne-spin (memcpy n src) _ (memcpy-ne-spin n src) (λ bytes e. cc)
