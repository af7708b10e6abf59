-- ===== src/Bytes.antt =====
-- src/spdy_bytes.h: big-endian loads and stores. A pointer into a buffer is the list of the bytes
-- from it to the buffer's end, so that a load outside the buffer is a `fault`. What C writes with
-- `|`, `<<`, `>>` and `&` is sum, product, quotient and remainder by powers of two.
pub mod Laws
use spindly.Prelude.{ℕ, ◌+◌, ◌*◌, ◌/◌, ◌%◌, ◌^◌, ◌<◌, List, [], ◌∷◌, Run, done, fault}

abbrev pub IsByte : ℕ → Type 0
IsByte b = b < 256

-- *p
unfoldable pub load_8 : List ℕ → Run ℕ
load_8 (a ∷ _) = done a
load_8 _ = fault

-- BE_LOAD_16(p)
unfoldable pub be_load_16 : List ℕ → Run ℕ
be_load_16 (a ∷ b ∷ _) = done (b + a * 2 ^ 8)
be_load_16 _ = fault

-- BE_LOAD_32(p)
unfoldable pub be_load_32 : List ℕ → Run ℕ
be_load_32 (a ∷ b ∷ c ∷ d ∷ _) = done (d + c * 2 ^ 8 + b * 2 ^ 16 + a * 2 ^ 24)
be_load_32 _ = fault

-- The bytes that BE_STORE_16(p, x), BE_STORE_24 and BE_STORE_32 write.
unfoldable pub be_store_16 : ℕ → List ℕ
be_store_16 x = (x / 2 ^ 8 % 256) ∷ (x % 256) ∷ []

unfoldable pub be_store_24 : ℕ → List ℕ
be_store_24 x = (x / 2 ^ 16 % 256) ∷ (x / 2 ^ 8 % 256) ∷ (x % 256) ∷ []

unfoldable pub be_store_32 : ℕ → List ℕ
be_store_32 x = (x / 2 ^ 24 % 256) ∷ (x / 2 ^ 16 % 256) ∷ (x / 2 ^ 8 % 256) ∷ (x % 256) ∷ []
