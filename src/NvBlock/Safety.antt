-- ===== src/NvBlock/Safety.antt =====
-- Parsing a block from any bytes reads nothing outside them, and what it leaves can be destroyed.
use spindly.Prelude.{
  ℕ, zero, suc, ◌+◌, ◌-◌, ◌<◌, ◌≡◌, refl, true, Option, none, some, List, [], ◌∷◌, ◌++◌, Run, done,
  ltb, ◌==◌, ap, arith, le→ltb, take, ◌*◌, ◌^◌, length, set, drop, replicate, Bool-cases, inl, inr,
}
use spindly.Codes.{Code, ok, nomem, insuff}
use spindly.Bytes.{be_load_16}
use spindly.Memory.{Answers, malloc}
use spindly.Memory.Copies.{memcpy-take}
use spindly.NvBlock.{
  null, freed, held, NvPair, NvBlock, spdy_nv_pair_init, spdy_nv_block_init, Item, short, refused,
  item, read_item, pair_at, parse_pairs, parse_counted, spdy_nv_block_parse, free_pairs,
  spdy_nv_block_destroy,
}

suc-add : (i : ℕ) → i + 1 ≡ suc i
suc-add i = omega arith

read_item-done :
    (bytes : List ℕ) (memory : Answers) → (it : Item) × (read_item bytes memory ≡ done it)
unfolding read_item be_load_16
read_item-done [] memory = (short, refl)
read_item-done (a ∷ []) memory = (short, refl)
read_item-done (a ∷ b ∷ rest) memory =
    let size = b + a * 2 ^ 8 in
    let (p, later) = malloc memory in
    let long = le→ltb (length (a ∷ b ∷ rest)) 2 (omega arith) in
    elim (Bool-cases (ltb (length rest) size)) [
      | inl cut ↦ (short, rw (long, cut))
      | inr whole ↦ elim (Bool-cases (p == 0)) [
        | inl gone ↦ (refused later, rw (long, whole, gone))
        | inr given ↦ (
          item (take size rest ++ 0 ∷ []) (drop size rest) later,
          rw (long, whole, given, memcpy-take size rest (ground arith)),
        )
      ]
    ]

pair_at-done :
    (pairs : List NvPair) (i : ℕ) → i < length pairs → (p : NvPair) × (pair_at pairs i ≡ done p)
unfolding pair_at
pair_at-done [] i h = absurd (omega arith)
pair_at-done (p ∷ pairs) zero h = (p, refl)
pair_at-done (p ∷ pairs) (suc i) h = pair_at-done pairs i (omega arith)

length-set : (pairs : List NvPair) (i : ℕ) (v : NvPair) → length (set pairs i v) ≡ length pairs
length-set [] i v = refl
length-set (p ∷ pairs) zero v = refl
length-set (p ∷ pairs) (suc i) v = omega (arith, length-set pairs i v)

-- The first `i` pairs can be freed.
abbrev IsFreeable : ℕ → List NvPair → Type 0
IsFreeable i pairs = free_pairs i pairs ≡ done tt

set-IsFreeable :
    (pairs : List NvPair) (i : ℕ) (v : NvPair) → IsFreeable i pairs → IsFreeable i (set pairs i v)
unfolding free_pairs
set-IsFreeable [] i v h = h
set-IsFreeable (p ∷ pairs) zero v h = refl
set-IsFreeable (p ∷ pairs) (suc i) v h = ground (arith, set-IsFreeable pairs i v)

set_held-IsFreeable :
    (pairs : List NvPair) (i c : ℕ) (name value : List ℕ)
    → i < length pairs
    → IsFreeable i pairs
    → IsFreeable
        (suc i)
        (set pairs i (record { name = held name; values_count = c; values = held value }))
unfolding free_pairs
set_held-IsFreeable [] i c name value h f = absurd (omega arith)
set_held-IsFreeable (p ∷ pairs) zero c name value h f = refl
set_held-IsFreeable (p ∷ pairs) (suc i) c name value h f =
    ground (arith, set_held-IsFreeable pairs i c name value)

-- A run of the loop that ends, with an array whose first pairs can be freed.
abbrev EndsFreeable : Run (Code × ℕ × List NvPair × Answers) → Type 0
EndsFreeable r =
    (rc : Code) × (i : ℕ) × (pairs : List NvPair) × (memory : Answers) × (r
      ≡ done (rc, i, pairs, memory))
    × IsFreeable i pairs

-- One round, with what is known of the rounds behind it.
module _ (n i : ℕ) (pairs : List NvPair) (size : length pairs ≡ i + suc n) (f : IsFreeable i pairs)
    (behind : (j : ℕ) (pairs' : List NvPair) (bytes : List ℕ) (memory : Answers)
      → length pairs' ≡ j + n
      → IsFreeable j pairs'
      → EndsFreeable (parse_pairs n j pairs' bytes memory)) where
  after_value :
      (bytes : List ℕ) (memory : Answers) (text rest : List ℕ) (later : Answers) (pair : NvPair)
      → read_item bytes memory ≡ done (item text rest later)
      → pair_at pairs i ≡ done pair
      → (value : Item) → read_item rest later ≡ done value
      → EndsFreeable (parse_pairs (suc n) i pairs bytes memory)
  unfolding parse_pairs
  after_value bytes memory text rest later pair read at short again = (
    insuff,
    i,
    set pairs i (record pair { name = freed }),
    later,
    rw (read, at, again),
    set-IsFreeable pairs i _ f,
  )
  after_value bytes memory text rest later pair read at (refused last) again = (
    nomem,
    i,
    set pairs i (record pair { name = freed; values = null }),
    last,
    rw (read, at, again),
    set-IsFreeable pairs i _ f,
  )
  after_value bytes memory text rest later pair read at (item text' rest' last) again =
      let pair' = record pair { name = held text; values = held text' } in
      let next = suc-add i in
      rw (read, at, again)
        (behind (i + 1) (set pairs i pair') rest' last (omega (arith, length-set pairs i pair'))
          (rw next (set_held-IsFreeable pairs i pair.values_count text text' (omega arith) f)))

  after_name :
      (bytes : List ℕ) (memory : Answers) (pair : NvPair)
      → pair_at pairs i ≡ done pair
      → (name : Item) → read_item bytes memory ≡ done name
      → EndsFreeable (parse_pairs (suc n) i pairs bytes memory)
  unfolding parse_pairs
  after_name bytes memory pair at short read = (insuff, i, pairs, memory, rw read, f)
  after_name bytes memory pair at (refused later) read = (
    nomem,
    i,
    set pairs i (record pair { name = null }),
    later,
    rw (read, at),
    set-IsFreeable pairs i _ f,
  )
  after_name bytes memory pair at (item text rest later) read =
      let (value, again) = read_item-done rest later in
      after_value bytes memory text rest later pair read at value again

parse_pairs-EndsFreeable :
    (n i : ℕ) (pairs : List NvPair) (bytes : List ℕ) (memory : Answers)
    → length pairs ≡ i + n
    → IsFreeable i pairs
    → EndsFreeable (parse_pairs n i pairs bytes memory)
parse_pairs-EndsFreeable zero i pairs bytes memory size f =
    unfold parse_pairs in (ok, i, pairs, memory, refl, f)
parse_pairs-EndsFreeable (suc n) i pairs bytes memory size f =
    let (name, read) = read_item-done bytes memory in
    let (pair, at) = pair_at-done pairs i (omega arith) in
    after_name n i pairs size f (parse_pairs-EndsFreeable n) bytes memory pair at name read

length-replicate : (n : ℕ) (p : NvPair) → length (replicate n p) ≡ n
length-replicate zero p = refl
length-replicate (suc n) p = ap suc (length-replicate n p)

abbrev counted_block : (count i : ℕ) → Option (List NvPair) → NvBlock
counted_block count i pairs = record {
  has_count = true;
  count = count;
  pairs_parsed = i;
  pairs = pairs;
}

pub minus_zero : (n : ℕ) → n - 0 ≡ n
minus_zero n = omega arith

-- spdy_nv_block_parse on a new block, at any bytes and whatever the allocator answers: it returns, it
-- reads only the bytes that it is given, and spdy_nv_block_destroy frees no buffer of the result twice.
pub parse-destroy :
    (bytes : List ℕ) (memory : Answers)
    → (rc : Code) × (block : NvBlock) × (later : Answers) × (spdy_nv_block_parse spdy_nv_block_init
          bytes memory
        ≡ done (rc, block, later))
      × (spdy_nv_block_destroy block ≡ done tt)
unfolding spdy_nv_block_parse be_load_16 spdy_nv_block_destroy parse_counted
parse-destroy [] memory = (insuff, spdy_nv_block_init, memory, refl, refl)
parse-destroy (a ∷ []) memory = (insuff, spdy_nv_block_init, memory, refl, refl)
parse-destroy (a ∷ b ∷ rest) memory =
    let count = b + a * 2 ^ 8 in
    let (p, given) = malloc memory in
    let long = le→ltb (length (a ∷ b ∷ rest)) 2 (omega arith) in
    let pairs = replicate count spdy_nv_pair_init in
    let (rc, i, pairs', later, run, f) =
      parse_pairs-EndsFreeable count 0 pairs rest given
        (omega (arith, length-replicate count spdy_nv_pair_init)) (unfold free_pairs in refl) in
    elim (Bool-cases (count == 0)) [
      | inl none_counted ↦ (ok, counted_block count 0 none, memory, rw (long, none_counted), refl)
      | inr counted ↦ elim (Bool-cases (p == 0)) [
        | inl gone ↦ (nomem, counted_block count 0 none, given, rw (long, counted, gone), refl)
        | inr present ↦ (
          rc,
          counted_block count i (some pairs'),
          later,
          rw (long, counted, present, minus_zero count, run),
          f,
        )
      ]
    ]
