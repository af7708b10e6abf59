-- ===== src/NvBlock/RoundTrip.antt =====
-- A block that is packed and parsed again.
use Prim.Native.Nat.add
use spindly.NvBlock.Safety.{minus_zero}
use spindly.Prelude.{
  ℕ, suc, ◌+◌, ◌%◌, ◌^◌, ◌<◌, ◌≡◌, ◌≢◌, refl, ap, sym, ◌∙◌, false, List, [], ◌∷◌, ◌++◌, done, ltb,
  arith, le→ltb, length, set, drop, replicate, length-append, drop-append, set-append, append_assoc,
  get_elem?-append, ne→test,
}
use spindly.Codes.{ok}
use spindly.Bytes.{be_load_16, be_store_16}
use spindly.Bytes.Laws.{load_16-store_16}
use spindly.Memory.{Answers}
use spindly.Memory.Copies.{memcpy-append}
use spindly.NvBlock.{
  held, NvPair, spdy_nv_pair_init, spdy_nv_block_init, item, read_item, pair_at, parse_pairs,
  parse_counted, spdy_nv_block_parse, pack_text, spdy_nv_block_pack,
}
use spindly.NvBlock.Wire.{
  IsPlain, Names, ArePlain, pair_of, pairs_of, block_of, Grants, answers_left, wire,
  pack_text-plain, length_store, block_bytes, spdy_nv_block_pack-block_bytes,
}

read_item-pack :
    (s rest : List ℕ) (p : ℕ) (later : Answers)
    → IsPlain s
    → p ≢ 0
    → read_item (pack_text s ++ rest) (p ∷ later) ≡ done (item (s ++ 0 ∷ []) rest later)
unfolding read_item be_load_16 be_store_16
read_item-pack s rest p later plain given =
    rw (pack_text-plain s plain)
      (ground (arith, memcpy-append s rest, drop-append s rest, length-append s rest))

one_round :
    (n i : ℕ) (pairs : List NvPair) (name value rest : List ℕ) (a b : ℕ) (memory : Answers)
    (pair : NvPair)
    → IsPlain name
    → IsPlain value
    → a ≢ 0
    → b ≢ 0
    → pair_at pairs i ≡ done pair
    → parse_pairs (suc n) i pairs (pack_text name ++ (pack_text value ++ rest)) (a ∷ b ∷ memory)
      ≡ parse_pairs n
          (i + 1)
          (set pairs i
            (record pair { name = held (name ++ 0 ∷ []); values = held (value ++ 0 ∷ []) }))
          rest
          memory
unfolding parse_pairs
one_round n i pairs name value rest a b memory pair p q na nb at = rw (
  read_item-pack name (pack_text value ++ rest) a (b ∷ memory) p na,
  at,
  read_item-pack value rest b memory q nb,
)

pair_at-append :
    (front : List NvPair) (p : NvPair) (back : List NvPair)
    → pair_at (front ++ p ∷ back) (length front) ≡ done p
unfolding pair_at
pair_at-append front p back = rw (get_elem?-append front p back, pair_at)

wire_regroup :
    (name value : List ℕ) (names : Names) (rest : List ℕ)
    → (pack_text name ++ (pack_text value ++ wire names)) ++ rest
      ≡ pack_text name ++ (pack_text value ++ (wire names ++ rest))
wire_regroup name value names rest =
    append_assoc (pack_text name) (pack_text value ++ wire names) rest
    ∙ ap (λ t. pack_text name ++ t) (append_assoc (pack_text value) (wire names) rest)

-- The loop that parses, in front of it what it has parsed before.
parse_pairs-wire :
    (names : Names) (front : List NvPair) (i : ℕ) (rest : List ℕ) (memory : Answers)
    → i ≡ length front
    → ArePlain names
    → Grants names memory
    → parse_pairs
        (length names)
        i
        (front ++ replicate (length names) spdy_nv_pair_init)
        (wire names ++ rest)
        memory
      ≡ done (ok, i + length names, front ++ pairs_of names, answers_left names memory)
parse_pairs-wire [] front i rest memory at plain grants =
    unfold parse_pairs in ap (λ k. done (ok, k, front ++ [], memory)) (omega arith)
parse_pairs-wire (_ ∷ names) front i rest [] at plain grants = absurd grants
parse_pairs-wire (_ ∷ names) front i rest (a ∷ []) at plain grants = absurd grants
parse_pairs-wire ((name, value) ∷ names) front i rest (a ∷ b ∷ memory) at (p, q, plain)
      (na, nb, grants) =
    let blanks = replicate (length names) spdy_nv_pair_init in
    let made = pair_of name value in
    let size : i + 1 ≡ length (front ++ made ∷ []) =
      omega (arith, length-append front (made ∷ [])) in
    let ih = parse_pairs-wire names (front ++ made ∷ []) (i + 1) rest memory size plain grants in
    let here : pair_at (front ++ spdy_nv_pair_init ∷ blanks) i ≡ done spdy_nv_pair_init =
      rw at (pair_at-append front spdy_nv_pair_init blanks) in
    let written : set (front ++ spdy_nv_pair_init ∷ blanks) i made
        ≡ (front ++ made ∷ []) ++ blanks =
      rw at (
        set-append front spdy_nv_pair_init made blanks
        ∙ sym (append_assoc front (made ∷ []) blanks)) in
    let count : (i + 1) + length names ≡ i + suc (length names) = omega arith in
    rw (
      wire_regroup name value names rest,
      one_round (length names) i _ name value (wire names ++ rest) a b memory spdy_nv_pair_init p q
          na nb here,
      written,
      ih,
      append_assoc front (made ∷ []) (pairs_of names),
      count,
    )

long_store : (x : ℕ) (t : List ℕ) → ltb (length (be_store_16 x ++ t)) 2 ≡ false
long_store x t = le→ltb _ 2 (omega (arith, length_store x t))

drop_store : (x : ℕ) (t : List ℕ) → drop 2 (be_store_16 x ++ t) ≡ t
unfolding be_store_16
drop_store x t = refl

pub spdy_nv_block_parse-block_bytes :
    (names : Names) (rest : List ℕ) (b : ℕ) (memory : Answers)
    → ArePlain names
    → 0 < length names
    → length names < 2 ^ 16
    → b ≢ 0
    → Grants names memory
    → spdy_nv_block_parse spdy_nv_block_init (block_bytes names ++ rest) (b ∷ memory)
      ≡ done (ok, block_of names, answers_left names memory)
unfolding spdy_nv_block_parse parse_counted
spdy_nv_block_parse-block_bytes names rest b memory plain some_names few nb grants = rw (
  append_assoc (be_store_16 (length names)) (wire names) rest,
  long_store (length names) (wire names ++ rest),
  load_16-store_16 (length names) (wire names ++ rest),
  small,
  ne→test _ 0 counted,
  ne→test _ 0 nb,
  drop_store (length names) (wire names ++ rest),
  minus_zero (length names),
  parse_pairs-wire names [] 0 rest memory refl plain grants,
  add.zero (length names),
)
  where
    small : length names % 2 ^ 16 ≡ length names
    small = omega arith

    counted : length names ≢ 0
    counted = omega arith

-- spdy_nv_block_parse reads back what spdy_nv_block_pack wrote, for every list of plain names and values
-- that is not empty and has a 16-bit length, where every allocation succeeds; the size that the packer
-- reports is the number of its bytes. Bytes behind the block are left alone.
pub parse-pack :
    (names : Names) (rest : List ℕ) (a b : ℕ) (memory memory' : Answers)
    → ArePlain names
    → 0 < length names
    → length names < 2 ^ 16
    → a ≢ 0
    → b ≢ 0
    → Grants names memory'
    → (bytes : List ℕ) × (spdy_nv_block_pack (block_of names) (a ∷ memory)
        ≡ done (ok, bytes, length bytes, memory))
      × (spdy_nv_block_parse spdy_nv_block_init (bytes ++ rest) (b ∷ memory')
          ≡ done (ok, block_of names, answers_left names memory'))
parse-pack names rest a b memory memory' plain some_names few na nb grants = (
  block_bytes names,
  spdy_nv_block_pack-block_bytes names a memory plain na,
  spdy_nv_block_parse-block_bytes names rest b memory' plain some_names few nb grants,
)
