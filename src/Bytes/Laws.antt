-- ===== src/Bytes/Laws.antt =====
-- Loads and stores undo one another, and loads end (src/spdy_bytes.h).
use spindly.Prelude.{ℕ, ◌+◌, ◌*◌, ◌%◌, ◌^◌, ◌≡◌, ◌≢◌, ap, List, [], ◌∷◌, ◌++◌, done, spin, arith}
use spindly.Bytes.{IsByte, load_8, be_load_16, be_load_32, be_store_16, be_store_32}

-- A 16-bit load behind a 16-bit store gives the number modulo 2 ^ 16.
pub load_16-store_16 :
    (x : ℕ) (rest : List ℕ) → be_load_16 (be_store_16 x ++ rest) ≡ done (x % 2 ^ 16)
unfolding be_load_16 be_store_16
load_16-store_16 x rest = ap done (omega arith)

-- A 32-bit load behind a 32-bit store gives the number modulo 2 ^ 32.
pub load_32-store_32 :
    (x : ℕ) (rest : List ℕ) → be_load_32 (be_store_32 x ++ rest) ≡ done (x % 2 ^ 32)
unfolding be_load_32 be_store_32
load_32-store_32 x rest = ap done (omega arith)

-- A store behind a load of bytes writes those bytes.
pub store_16-load_16 : (a b : ℕ) → IsByte a → IsByte b → be_store_16 (b + a * 2 ^ 8) ≡ a ∷ b ∷ []
unfolding be_store_16
store_16-load_16 a b ha hb = ground arith

-- A load ends.
pub load_8-ne-spin : (bytes : List ℕ) → load_8 bytes ≢ spin
unfolding load_8
load_8-ne-spin [] = λ e. cc
load_8-ne-spin (a ∷ bytes) = λ e. cc

pub be_load_16-ne-spin : (bytes : List ℕ) → be_load_16 bytes ≢ spin
unfolding be_load_16
be_load_16-ne-spin [] = λ e. cc
be_load_16-ne-spin (a ∷ []) = λ e. cc
be_load_16-ne-spin (a ∷ b ∷ bytes) = λ e. cc

pub be_load_32-ne-spin : (bytes : List ℕ) → be_load_32 bytes ≢ spin
unfolding be_load_32
be_load_32-ne-spin [] = λ e. cc
be_load_32-ne-spin (a ∷ []) = λ e. cc
be_load_32-ne-spin (a ∷ b ∷ []) = λ e. cc
be_load_32-ne-spin (a ∷ b ∷ c ∷ []) = λ e. cc
be_load_32-ne-spin (a ∷ b ∷ c ∷ d ∷ bytes) = λ e. cc
