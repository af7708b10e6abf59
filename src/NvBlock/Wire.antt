-- ===== src/NvBlock/Wire.antt =====
-- A block of plain names and values, and its bytes: spdy_nv_block_pack of src/spdy_nv_block.c.

use spindly.Prelude.{
  ℕ, Bool, ◌+◌, ◌%◌, ◌^◌, ◌<◌, ◌≡◌, ◌≢◌, refl, ap, true, some, List, [], ◌∷◌, ◌++◌, done, arith,
  length, drop, All, length-append, take-append, append-nil, ne→test,
}
use spindly.Codes.{ok}
use spindly.Bytes.{be_store_16}
use spindly.Memory.{Answers}
use spindly.NvBlock.{
  held, NvPair, NvBlock, until_nul, packed_size, pack_text, pack_pairs, spdy_nv_block_pack,
}

-- A text that survives: no NUL inside, and a length of 16 bits.
pub record IsPlain (s : List ℕ) : Type 0 where
  pub no_nul : All (λ b. b ≢ 0) s
  pub short : length s < 2 ^ 16

abbrev pub Names : Type 0
Names = List (List ℕ × List ℕ)

abbrev pub ArePlain : Names → Type 0
ArePlain [] = Unit {0}
ArePlain ((name, value) ∷ names) = IsPlain name × IsPlain value × ArePlain names

-- The pair of two texts, as the parser makes it.
abbrev pub pair_of : List ℕ → List ℕ → NvPair
pair_of name value = record {
  name = held (name ++ 0 ∷ []);
  values_count = 0;
  values = held (value ++ 0 ∷ []);
}

-- With any number of values, which is not looked at.
abbrev pub pairs_with : (values_count : ℕ) → Names → List NvPair
pairs_with k [] = []
pairs_with k ((name, value) ∷ names) =
    record (pair_of name value) { values_count = k } ∷ pairs_with k names

abbrev pub pairs_of : Names → List NvPair
pairs_of names = pairs_with 0 names

abbrev pub block_of : Names → NvBlock
block_of names = record {
  has_count = true;
  count = length names;
  pairs_parsed = length names;
  pairs = some (pairs_of names);
}

-- The two allocations for each pair succeed, and what is left of the answers behind them.
abbrev pub Grants : Names → Answers → Type 0
Grants [] memory = Unit {0}
Grants (_ ∷ names) [] = ⊥
Grants (_ ∷ names) (p ∷ []) = ⊥
Grants (_ ∷ names) (p ∷ q ∷ memory) = (p ≢ 0) × (q ≢ 0) × Grants names memory

abbrev pub answers_left : Names → Answers → Answers
answers_left [] memory = memory
answers_left (_ ∷ names) memory = answers_left names (drop 2 memory)

-- The bytes of a packed block behind its count.
abbrev pub wire : Names → List ℕ
wire [] = []
wire ((name, value) ∷ names) = pack_text name ++ (pack_text value ++ wire names)

until_nul-plain : (s rest : List ℕ) → All (λ b. b ≢ 0) s → until_nul (s ++ 0 ∷ rest) ≡ done s
unfolding until_nul
until_nul-plain [] rest h = refl
until_nul-plain (b ∷ s) rest (ne, h) = ground (arith, until_nul-plain s rest)

pack_pairs-wire :
    (k : ℕ) (names : Names)
    → ArePlain names
    → pack_pairs (length names) (pairs_with k names) ≡ done (wire names)
unfolding pack_pairs
pack_pairs-wire k [] h = refl
pack_pairs-wire k ((name, value) ∷ names) (p, q, h) =
    rw (
      until_nul-plain name [] p.no_nul,
      until_nul-plain value [] q.no_nul,
      pack_pairs-wire k names h,
    )

-- A packed text is its length and its bytes.
pub pack_text-plain : (s : List ℕ) → IsPlain s → pack_text s ≡ be_store_16 (length s) ++ s
unfolding pack_text
pack_text-plain s p =
    let small : length s % 2 ^ 16 ≡ length s = omega (arith, p.short) in
    rw (small) (ap (λ t. be_store_16 (length s) ++ t) (rw (append-nil s) at (take-append s [])))

packed_size-wire :
    (k : ℕ) (names : Names)
    → ArePlain names
    → packed_size (length names) (pairs_with k names) ≡ done (length (wire names))
unfolding packed_size be_store_16
packed_size-wire k [] h = refl
packed_size-wire k ((name, value) ∷ names) (p, q, h) =
    rw
      (
        until_nul-plain name [] p.no_nul,
        until_nul-plain value [] q.no_nul,
        packed_size-wire k names h,
        pack_text-plain name p,
        pack_text-plain value q,
      )
      (ap done (
        omega (
          arith,
          length-append name (pack_text value ++ wire names),
          length-append name (be_store_16 (length value) ++ (value ++ wire names)),
          length-append value (wire names),
        )))

pub length_store : (x : ℕ) (t : List ℕ) → 2 + length t ≡ length (be_store_16 x ++ t)
unfolding be_store_16
length_store x t = omega arith

-- The bytes of a packed block.
abbrev pub block_bytes : Names → List ℕ
block_bytes names = be_store_16 (length names) ++ wire names

-- Packing looks at the count and the texts alone.
pub pack-block_bytes :
    (has : Bool) (parsed k : ℕ) (names : Names) (a : ℕ) (memory : Answers)
    → ArePlain names
    → a ≢ 0
    → spdy_nv_block_pack
        (record {
          has_count = has;
          count = length names;
          pairs_parsed = parsed;
          pairs = some (pairs_with k names);
        })
        (a ∷ memory)
      ≡ done (ok, block_bytes names, length (block_bytes names), memory)
unfolding spdy_nv_block_pack
pack-block_bytes has parsed k names a memory plain na =
    rw (packed_size-wire k names plain, ne→test _ 0 na, pack_pairs-wire k names plain)
      (ap (λ n. done (ok, block_bytes names, n, memory)) (length_store (length names) (wire names)))

pub spdy_nv_block_pack-block_bytes :
    (names : Names) (a : ℕ) (memory : Answers)
    → ArePlain names
    → a ≢ 0
    → spdy_nv_block_pack (block_of names) (a ∷ memory)
      ≡ done (ok, block_bytes names, length (block_bytes names), memory)
spdy_nv_block_pack-block_bytes names a memory plain na =
    pack-block_bytes true (length names) 0 names a memory plain na
