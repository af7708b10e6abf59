-- ===== src/CreateNvBlock/RoundTrip.antt =====
-- What bin/create_nv_block.c packs is read by spdy_nv_block_parse of src/spdy_nv_block.c.
use spindly.Prelude.{
  ℕ, ◌*◌, ◌^◌, ◌<◌, ◌≡◌, ◌≢◌, refl, Bool, some, List, [], ◌∷◌, ◌++◌, done, length, map, All, arith,
  append_assoc, append-nil, ne→test,
}
use spindly.Codes.{ok}
use spindly.Memory.{Answers}
use spindly.NvBlock.{NvPair, spdy_nv_block_init, spdy_nv_block_parse}
use spindly.NvBlock.Wire.{
  Names, ArePlain, pairs_with, block_of, block_bytes, Grants, answers_left, pack-block_bytes,
}
use spindly.NvBlock.RoundTrip.{spdy_nv_block_parse-block_bytes}
use spindly.CreateNvBlock.{
  delimiter, skip, token, strtok, split_pair, new_pair, collect, array_of, create_nv_block,
}

-- A text that is not empty and has no delimiter.
abbrev pub IsToken : List ℕ → Type 0
IsToken s = (0 < length s) × All (λ b. b ≢ delimiter) s

abbrev pub AreTokens : Names → Type 0
AreTokens [] = Unit {0}
AreTokens ((name, value) ∷ names) = IsToken name × IsToken value × AreTokens names

-- The argument of a pair.
abbrev pub argument : List ℕ × List ℕ → List ℕ
argument (name, value) = name ++ delimiter ∷ value

token-before :
    (s rest : List ℕ) → All (λ b. b ≢ delimiter) s → token (s ++ delimiter ∷ rest) ≡ (s, rest)
unfolding token
token-before [] rest h = refl
token-before (b ∷ s) rest (ne, h) = rw (token-before s rest h, ne→test b delimiter ne) refl

token-whole : (s : List ℕ) → All (λ b. b ≢ delimiter) s → token s ≡ (s, [])
unfolding token
token-whole [] h = refl
token-whole (b ∷ s) (ne, h) = rw (token-whole s h, ne→test b delimiter ne) refl

skip-token : (b : ℕ) (s : List ℕ) → b ≢ delimiter → skip (b ∷ s) ≡ b ∷ s
unfolding skip
skip-token b s ne = rw (ne→test b delimiter ne) refl

strtok-before : (s rest : List ℕ) → IsToken s → strtok (s ++ delimiter ∷ rest) ≡ some (s, rest)
unfolding strtok
strtok-before [] rest (some_in, h) = absurd (omega arith)
strtok-before (b ∷ s) rest (some_in, (ne, h)) =
    rw (skip-token b (s ++ delimiter ∷ rest) ne, token-before (b ∷ s) rest (ne, h)) refl

strtok-whole : (s : List ℕ) → IsToken s → strtok s ≡ some (s, [])
unfolding strtok
strtok-whole [] (some_in, h) = absurd (omega arith)
strtok-whole (b ∷ s) (some_in, (ne, h)) = rw (skip-token b s ne, token-whole (b ∷ s) (ne, h)) refl

split_pair-argument :
    (name value : List ℕ)
    → IsToken name
    → IsToken value
    → split_pair (argument (name, value)) ≡ some (name, value)
unfolding split_pair
split_pair-argument name value n v =
    rw (split_pair, strtok-before name value n, strtok-whole value v) refl

-- Four allocations for each argument, none of which fails.
abbrev pub GrantsArgs : Names → Answers → Type 0
GrantsArgs names memory = All (λ p. p ≢ 0) memory × (4 * length names < length memory)

collect-arguments :
    (names : Names) (front : List NvPair) (memory : Answers)
    → AreTokens names
    → GrantsArgs names memory
    → (a : ℕ) × (later : Answers) × (collect (map argument names) front memory
        ≡ done (some (front ++ pairs_with 1 names, a ∷ later)))
      × (a ≢ 0)
unfolding collect
collect-arguments [] front [] t (given, many) = absurd (omega arith)
collect-arguments [] front (a ∷ later) t ((na, given), many) =
    (a, later, rw (append-nil front) refl, na)
collect-arguments (n ∷ names) front [] t (given, many) = absurd (omega arith)
collect-arguments (n ∷ names) front (p ∷ []) t (given, many) = absurd (omega arith)
collect-arguments (n ∷ names) front (p ∷ q ∷ []) t (given, many) = absurd (omega arith)
collect-arguments (n ∷ names) front (p ∷ q ∷ r ∷ []) t (given, many) = absurd (omega arith)
collect-arguments ((name, value) ∷ names) front (p ∷ q ∷ r ∷ s ∷ memory) (n, v, t)
      ((np, (nq, (nr, (ns, given)))), many) =
    let pair = new_pair name value in
    let (a, later, run, na) =
      collect-arguments names (front ++ pair ∷ []) memory t (given, omega arith) in
    let regroup = append_assoc front (pair ∷ []) (pairs_with 1 names) in
    (
      a,
      later,
      rw
          (
            ne→test p 0 np,
            split_pair-argument name value n v,
            ne→test q 0 nq,
            ne→test r 0 nr,
            ne→test s 0 ns,
            run,
            regroup,
          )
          refl,
      na,
    )

length-pairs_with : (k : ℕ) (names : Names) → length (pairs_with k names) ≡ length names
length-pairs_with k [] = refl
length-pairs_with k (_ ∷ names) = rw (length-pairs_with k names)

array_of-pairs_with :
    (k : ℕ) (names : Names)
    → 0 < length names
    → array_of (pairs_with k names) ≡ some (pairs_with k names)
array_of-pairs_with k [] h = absurd (omega arith)
array_of-pairs_with k (_ ∷ names) h = refl

-- For one to 65535 pairs of a name and a value, each not empty, shorter than 2^16 bytes and without a NUL and
-- a `=`, given as arguments `name=value`, and allocators that refuse nothing: whatever the tool's uninitialised
-- members hold, it hands a block's bytes and their number to printf, and spdy_nv_block_parse reads the pairs back.
pub create_nv_block-parse :
    (has_count : Bool) (parsed : ℕ) (names : Names) (memory memory' : Answers) (b : ℕ)
    → AreTokens names
    → ArePlain names
    → 0 < length names
    → length names < 2 ^ 16
    → GrantsArgs names memory
    → b ≢ 0
    → Grants names memory'
    → (bytes : List ℕ) × (create_nv_block has_count parsed (map argument names) memory
        ≡ done (some (length bytes, bytes)))
      × (spdy_nv_block_parse spdy_nv_block_init bytes (b ∷ memory')
          ≡ done (ok, block_of names, answers_left names memory'))
unfolding create_nv_block
create_nv_block-parse has_count parsed names memory memory' b tokens plain some_names few granted nb
      grants =
    let (a, later, run, na) = collect-arguments names [] memory tokens granted in
    (
      block_bytes names,
      rw
          (
            run,
            length-pairs_with 1 names,
            array_of-pairs_with 1 names some_names,
            pack-block_bytes has_count parsed 1 names a later plain na,
          )
          refl,
      rw (append-nil (block_bytes names)) at
          (spdy_nv_block_parse-block_bytes names [] b memory' plain some_names few nb grants),
    )
