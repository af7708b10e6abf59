-- ===== src/NvBlock/Ends.antt =====
-- The loops of spdy_nv_block_parse and spdy_nv_block_destroy in src/spdy_nv_block.c.
use spindly.Prelude.{
  ℕ, zero, suc, ◌+◌, ◌≢◌, List, [], ◌∷◌, inl, inr, Option-cases, none, some, Run, done, fault, spin,
  ltb, ◌==◌, length, drop, get_elem?, Option, >>=-ne-spin, if-ne-spin, done-ne-spin,
}
use spindly.Bytes.{be_load_16}
use spindly.Bytes.Laws.{be_load_16-ne-spin}
use spindly.Memory.{Answers, malloc, memcpy}
use spindly.Memory.Copies.{memcpy-ne-spin}
use spindly.NvBlock.{
  NvBlock, NvPair, Text, null, freed, held, free, free_pairs, spdy_nv_block_destroy, Item, short,
  refused, item, read_item, pair_at, parse_pairs, parse_counted, pair_array, spdy_nv_block_parse,
}

read_item-ne-spin : (bytes : List ℕ) (memory : Answers) → read_item bytes memory ≢ spin
unfolding read_item
read_item-ne-spin bytes memory = if-ne-spin (ltb (length bytes) 2) _ _ done-ne-spin (
    >>=-ne-spin (be_load_16 bytes) _ (be_load_16-ne-spin bytes) (λ size.
      if-ne-spin (ltb (length (drop 2 bytes)) size) _ _ done-ne-spin (
        if-ne-spin ((malloc memory).0 == 0) _ _ done-ne-spin (
          >>=-ne-spin (memcpy size (drop 2 bytes)) _ (memcpy-ne-spin size (drop 2 bytes))
            (λ text. done-ne-spin)))))

pair_at-ne-spin : (pairs : List NvPair) (i : ℕ) → pair_at pairs i ≢ spin
unfolding pair_at
pair_at-ne-spin pairs i = go (get_elem? pairs i)
  where
    go : (o : Option NvPair) → (elim o [ none ↦ fault | some pair ↦ done pair ]) ≢ spin
    go none = λ e. cc
    go (some pair) = λ e. cc

-- However a text was read.
Item-ne-spin {ℓ} :
    {A : Type ℓ} (it : Item) (a : Run A) (b : Answers → Run A)
    (c : (text rest : List ℕ) → Answers → Run A)
    → a ≢ spin
    → ((later : Answers) → b later ≢ spin)
    → ((text rest : List ℕ) (later : Answers) → c text rest later ≢ spin)
    → (elim it [ short ↦ a | refused later ↦ b later | item text rest later ↦ c text rest later ])
      ≢ spin
Item-ne-spin short a b c h k l = h
Item-ne-spin (refused later) a b c h k l = k later
Item-ne-spin (item text rest later) a b c h k l = l text rest later

parse_pairs-ne-spin :
    (n i : ℕ) (pairs : List NvPair) (bytes : List ℕ) (memory : Answers)
    → parse_pairs n i pairs bytes memory ≢ spin
unfolding parse_pairs
parse_pairs-ne-spin zero i pairs bytes memory = done-ne-spin
parse_pairs-ne-spin (suc n) i pairs bytes memory =
    >>=-ne-spin (read_item bytes memory) _ (read_item-ne-spin bytes memory) (λ name.
      Item-ne-spin name _ _ _ done-ne-spin
        (λ later. >>=-ne-spin (pair_at pairs i) _ (pair_at-ne-spin pairs i) (λ pair. done-ne-spin))
        (λ text rest later. >>=-ne-spin (pair_at pairs i) _ (pair_at-ne-spin pairs i) (λ pair.
          >>=-ne-spin (read_item rest later) _ (read_item-ne-spin rest later) (λ value.
            Item-ne-spin value _ _ _ done-ne-spin (λ last. done-ne-spin)
              (λ text' rest' last. parse_pairs-ne-spin n (i + 1) _ rest' last)))))

parse_counted-ne-spin :
    (block : NvBlock) (bytes : List ℕ) (memory : Answers) → parse_counted block bytes memory ≢ spin
unfolding parse_counted
parse_counted-ne-spin block bytes memory =
    >>=-ne-spin (parse_pairs _ block.pairs_parsed (pair_array block) bytes memory) _
      (parse_pairs-ne-spin _ block.pairs_parsed (pair_array block) bytes memory) (λ r. done-ne-spin)

pub spdy_nv_block_parse-ne-spin :
    (block : NvBlock) (bytes : List ℕ) (memory : Answers)
    → spdy_nv_block_parse block bytes memory ≢ spin
unfolding spdy_nv_block_parse
spdy_nv_block_parse-ne-spin block bytes memory =
    if-ne-spin block.has_count _ _ (parse_counted-ne-spin block bytes memory) (
      if-ne-spin (ltb (length bytes) 2) _ _ done-ne-spin (
        >>=-ne-spin (be_load_16 bytes) _ (be_load_16-ne-spin bytes) (λ count.
          if-ne-spin (count == 0) _ _ done-ne-spin (
            if-ne-spin ((malloc memory).0 == 0) _ _ done-ne-spin
              (parse_counted-ne-spin _ (drop 2 bytes) (malloc memory).1)))))

free-ne-spin : (t : Text) → free t ≢ spin
unfolding free
free-ne-spin null = λ e. cc
free-ne-spin freed = λ e. cc
free-ne-spin (held bytes) = λ e. cc

free_pairs-ne-spin : (n : ℕ) (pairs : List NvPair) → free_pairs n pairs ≢ spin
unfolding free_pairs
free_pairs-ne-spin zero pairs = done-ne-spin
free_pairs-ne-spin (suc n) [] = λ e. cc
free_pairs-ne-spin (suc n) (pair ∷ pairs) =
    >>=-ne-spin (free pair.name) _ (free-ne-spin pair.name) (λ _.
      >>=-ne-spin (free pair.values) _ (free-ne-spin pair.values) (λ _. free_pairs-ne-spin n pairs))

pub spdy_nv_block_destroy-ne-spin : (block : NvBlock) → spdy_nv_block_destroy block ≢ spin
unfolding spdy_nv_block_destroy
spdy_nv_block_destroy-ne-spin block = elim (Option-cases (block.pairs)) [
  | inl e ↦ rw e done-ne-spin
  | inr (pairs, e) ↦ rw e (free_pairs-ne-spin block.pairs_parsed pairs)
]
