-- ===== src/NvInflate/RoundTrip.antt =====
-- The header compression end to end: spdy_nv_block_pack of src/spdy_nv_block.c, spdy_zlib_deflate of
-- src/spdy_zlib.c, and spdy_nv_block_inflate_parse.
use spindly.Prelude.{
  ℕ, zero, suc, ◌+◌, ◌-◌, ◌*◌, ◌^◌, ◌≤◌, ◌<◌, ◌≡◌, ◌≢◌, refl, List, [], ◌∷◌, done, arith, length,
  drop, All, append-nil, length-drop,
}
use spindly.Codes.{ok}
use spindly.Memory.{Answers}
use spindly.Zlib.{Zlib, chunk, spdy_zlib_deflate, Deflated}
use spindly.Zlib.Contract.{Contract}
use spindly.Zlib.Enough.{answers_for, IsEnough}
use spindly.Zlib.Compress.{spdy_zlib_deflate-packed}
use spindly.Zlib.Decompress.{spdy_zlib_inflate-packed}
use spindly.NvBlock.{spdy_nv_block_init, spdy_nv_block_pack, spdy_nv_block_parse}
use spindly.NvBlock.Wire.{
  Names, ArePlain, Grants, answers_left, block_of, block_bytes, spdy_nv_block_pack-block_bytes,
}
use spindly.NvBlock.RoundTrip.{spdy_nv_block_parse-block_bytes}
use spindly.Env.{Env}
use spindly.NvInflate.{spdy_nv_block_inflate_parse}

-- The answers that inflating and parsing a block takes: for the inflated bytes, the array, and two for each
-- pair.
abbrev pub answers_needed : Names → ℕ
answers_needed names = answers_for (block_bytes names) + suc (2 * length names)

-- A block that can be sent: plain names and values, between 1 and 65535 of them, and a size of at most a
-- chunk, packed and compressed.
pub record IsSendable (z : Zlib) (c : Contract z) (names : Names) : Type 0 where
  pub plain : ArePlain names
  pub some_names : 0 < length names
  pub few : length names < 2 ^ 16
  pub packs_small : length (block_bytes names) ≤ chunk
  pub deflates_small : length (c.packed (block_bytes names)) ≤ chunk

pub All-drop : (n : ℕ) (m : Answers) → All (λ p. p ≢ 0) m → All (λ p. p ≢ 0) (drop n m)
All-drop zero m h = h
All-drop (suc n) [] h = tt
All-drop (suc n) (p ∷ m) (_, h) = All-drop n m h

Grants-All :
    (names : Names) (m : Answers)
    → All (λ p. p ≢ 0) m
    → 2 * length names ≤ length m
    → Grants names m
Grants-All [] m h n = tt
Grants-All (_ ∷ names) [] h n = absurd (omega arith)
Grants-All (_ ∷ names) (p ∷ []) h n = absurd (omega arith)
Grants-All (_ ∷ names) (p ∷ q ∷ m) (a, (b, h)) n = (a, b, Grants-All names m h (omega arith))

pub All-answers_left :
    (names : Names) (m : Answers) → All (λ p. p ≢ 0) m → All (λ p. p ≢ 0) (answers_left names m)
All-answers_left [] m h = h
All-answers_left (_ ∷ names) m h = All-answers_left names (drop 2 m) (All-drop 2 m h)

pub length-answers_left :
    (names : Names) (m : Answers) → length (answers_left names m) ≡ length m - 2 * length names
length-answers_left [] m = omega arith
length-answers_left (_ ∷ names) m =
    omega (arith, length-answers_left names (drop 2 m), length-drop 2 m)

parse_granted :
    (z : Zlib) (c : Contract z) (names : Names) (memory : Answers)
    → IsSendable z c names
    → All (λ p. p ≢ 0) memory
    → suc (2 * length names) ≤ length memory
    → spdy_nv_block_parse spdy_nv_block_init (block_bytes names) memory
      ≡ done (ok, block_of names, answers_left names (drop 1 memory))
parse_granted z c names [] s given many = absurd (omega arith)
parse_granted z c names (b ∷ later) s (nb, given) many =
    let grants = Grants-All names later given (omega arith) in
    rw (append-nil (block_bytes names)) at
      (spdy_nv_block_parse-block_bytes names [] b later s.plain s.some_names s.few nb grants)

-- What inflating and parsing leaves of the answers.
abbrev pub answers_after : Names → Answers → Answers
answers_after names memory =
    answers_left names (drop 1 (drop (answers_for (block_bytes names)) memory))

module _ (z : Zlib) (c : Contract z) (names : Names) (s : IsSendable z c names) where
  open z use {Strm}

  -- The receiving half: a new context reads the compressed block and has reached its end.
  pub inflate_parse-packed :
      (env : Env Strm)
      → env.zlib_in ≡ (z.inflate_init2 0).1
      → All (λ p. p ≢ 0) env.memory
      → answers_needed names ≤ length env.memory
      → (strm : Strm) × (spdy_nv_block_inflate_parse z spdy_nv_block_init
            (c.packed (block_bytes names))
            (length (c.packed (block_bytes names)))
            env
          ≡ done (
            ok,
            block_of names,
            record env { zlib_in = strm; memory = answers_after names env.memory },
          ))
        × c.IsOver strm
  unfolding spdy_nv_block_inflate_parse
  inflate_parse-packed env new given many =
      let bytes = block_bytes names in
      let enough : IsEnough bytes env.memory = record {
        given = given;
        many = omega (arith, many);
      } in
      let (strm, run, over) =
        spdy_zlib_inflate-packed z c bytes env.memory s.deflates_small enough in
      let left = drop (answers_for bytes) env.memory in
      let all_left = All-drop (answers_for bytes) env.memory given in
      let size : suc (2 * length names) ≤ length left =
        omega (arith, many, length-drop (answers_for bytes) env.memory) in
      (strm, rw (new, run, parse_granted z c names left s all_left size) refl, over)

  -- For a block that can be sent, an allocator that refuses nothing and has an answer for each allocation, and a
  -- zlib that keeps its contract: spdy_nv_block_pack writes the block, spdy_zlib_deflate compresses what was
  -- written, and spdy_nv_block_inflate_parse with a new context makes the same block of the compressed bytes.
  pub inflate_parse-deflate :
      (a used : ℕ) (memory memory' : Answers) (env : Env Strm)
      → a ≢ 0
      → IsEnough (c.packed (block_bytes names)) memory'
      → env.zlib_in ≡ (z.inflate_init2 0).1
      → All (λ p. p ≢ 0) env.memory
      → answers_needed names ≤ length env.memory
      → (bytes : List ℕ) × (d : Deflated) × (env' : Env Strm) × (spdy_nv_block_pack
            (block_of names)
            (a ∷ memory)
          ≡ done (ok, bytes, length bytes, memory))
        × (spdy_zlib_deflate z bytes (length bytes) used memory' ≡ done d)
        × ((d.code ≡ ok) × (d.data_used ≡ used + length bytes))
        × (spdy_nv_block_inflate_parse z spdy_nv_block_init d.dest (length d.dest) env
            ≡ done (ok, block_of names, env'))
  inflate_parse-deflate a used memory memory' env na enough new given many =
      let (strm, run, _) = inflate_parse-packed env new given many in
      (
        block_bytes names,
        _,
        _,
        spdy_nv_block_pack-block_bytes names a memory s.plain na,
        spdy_zlib_deflate-packed z c (block_bytes names) used memory' s.packs_small enough,
        (refl, refl),
        run,
      )
