-- ===== src/NvBlock.antt =====
-- src/spdy_nv_block.c and spdy_nv_block.h: name/value pairs and blocks. The inflating entry point
-- spdy_nv_block_inflate_parse is in NvInflate.
pub mod Wire
pub mod RoundTrip
pub mod Safety
pub mod Supply
pub mod Ends
use spindly.Prelude.{
  ℕ, zero, suc, ◌+◌, ◌-◌, ◌%◌, ◌^◌, Bool, true, false, Option, none, some, List, [], ◌∷◌, ◌++◌, Run,
  done, fault, ◌>>=◌, ◌>>◌, ltb, ◌==◌, if◌then◌else◌, length, get_elem?, set, drop, take, replicate,
}
use spindly.Codes.{Code, ok, nomem, insuff}
use spindly.Bytes.{be_load_16, be_store_16}
use spindly.Memory.{Answers, malloc, memcpy}

-- A `char *`: NULL, a pointer whose buffer was freed, or a buffer with its bytes.
pub data Text : Type 0 where
  null : Text
  freed : Text
  held : List ℕ → Text

-- Freeing a buffer twice is undefined; freeing NULL does nothing.
unfoldable pub free : Text → Run (Unit {0})
free null = done tt
free freed = fault
free (held _) = done tt

pub record NvPair : Type 0 where
  pub name : Text
  pub values_count : ℕ
  pub values : Text

-- `pairs` is the array, with `none` for NULL.
pub record NvBlock : Type 0 where
  pub has_count : Bool
  pub count : ℕ
  pub pairs_parsed : ℕ
  pub pairs : Option (List NvPair)

-- spdy_nv_pair_init; a pair from calloc holds the same.
abbrev pub spdy_nv_pair_init : NvPair
spdy_nv_pair_init = record { name = null; values_count = 0; values = null }

abbrev pub spdy_nv_pair_create : Answers → Code × Option NvPair × Answers
spdy_nv_pair_create memory =
    let (p, later) = malloc memory in
    if p == 0 then (nomem, none, later) else (ok, some spdy_nv_pair_init, later)

-- The value is the pointer that is left, which is NULL.
unfoldable pub spdy_nv_pair_destroy : NvPair → Run (Code × Option NvPair)
unfolding free
spdy_nv_pair_destroy pair = do free pair.name; free pair.values; done (ok, none)

-- spdy_nv_block_init
abbrev pub spdy_nv_block_init : NvBlock
spdy_nv_block_init = record { has_count = false; count = 0; pairs_parsed = 0; pairs = none }

-- What reading one length-prefixed text comes to: too few bytes, no memory, or the new buffer (with
-- its final NUL) and the bytes behind the text.
pub data Item : Type 0 where
  short : Item
  refused : Answers → Item
  item : (text rest : List ℕ) → Answers → Item

-- The name's half of the loop body; the value's half is the same code.
unfoldable pub read_item : List ℕ → Answers → Run Item
read_item bytes memory = if ltb (length bytes) 2 then done short else do
  size ← be_load_16 bytes
  let rest = drop 2 bytes
  if ltb (length rest) size
      then done short
      else (let (p, later) = malloc memory in
          if p == 0
          then done (refused later)
          else do text ← memcpy size rest; done (item (text ++ 0 ∷ []) (drop size rest) later))

-- `&block->pairs[i]`, where it is read or written.
unfoldable pub pair_at : List NvPair → ℕ → Run NvPair
pair_at pairs i = elim (get_elem? pairs i) [ none ↦ fault | some pair ↦ done pair ]

-- The loop over the pairs, with `n` rounds left: the code, `pairs_parsed` and the array. An error in
-- the value frees the name and leaves its pointer.
unfoldable pub parse_pairs :
    (n i : ℕ) → List NvPair → List ℕ → Answers → Run (Code × ℕ × List NvPair × Answers)
parse_pairs zero i pairs bytes memory = done (ok, i, pairs, memory)
parse_pairs (suc n) i pairs bytes memory = do
  name ← read_item bytes memory
  elim name [
    | short ↦ done (insuff, i, pairs, memory)
    | refused later ↦ do
      pair ← pair_at pairs i
      done (nomem, i, set pairs i (record pair { name = null }), later)
    | item text rest later ↦ do
      pair ← pair_at pairs i
      value ← read_item rest later
      elim value [
        | short ↦ done (insuff, i, set pairs i (record pair { name = freed }), later)
        | refused last ↦
            done (nomem, i, set pairs i (record pair { name = freed; values = null }), last)
        | item text' rest' last ↦
            parse_pairs n (i + 1)
              (set pairs i (record pair { name = held text; values = held text' })) rest' last
      ]
  ]

-- The array, empty for NULL: no entry of either can be read.
abbrev pub pair_array : NvBlock → List NvPair
pair_array block = elim (block.pairs) [ none ↦ [] | some pairs ↦ pairs ]

abbrev stored : NvBlock → ℕ → List NvPair → Option (List NvPair)
stored block i pairs = elim (block.pairs) [ none ↦ none | some _ ↦ some pairs ]

unfoldable pub parse_counted : NvBlock → List ℕ → Answers → Run (Code × NvBlock × Answers)
parse_counted block bytes memory = do
  (rc, i, pairs, later) ←
      parse_pairs (block.count - block.pairs_parsed) block.pairs_parsed (pair_array block) bytes
        memory
  done (rc, record block { pairs_parsed = i; pairs = stored block i pairs }, later)

-- `data` and `data_length` are the list of bytes.
unfoldable pub spdy_nv_block_parse : NvBlock → List ℕ → Answers → Run (Code × NvBlock × Answers)
spdy_nv_block_parse block bytes memory =
    if block.has_count
    then parse_counted block bytes memory
    else (if ltb (length bytes) 2 then done (insuff, block, memory) else do
      count ← be_load_16 bytes
      let counted = record block { has_count = true; count = count; pairs_parsed = 0 }
      if count == 0
          then done (ok, record counted { pairs = none }, memory)
          else (let (p, later) = malloc memory in
              if p == 0
              then done (nomem, record counted { pairs = none }, later)
              else parse_counted
                  (record counted { pairs = some (replicate count spdy_nv_pair_init) })
                  (drop 2 bytes) later))

-- The bytes before the first NUL; strlen is their number. No NUL in the buffer: the read leaves it.
unfoldable pub until_nul : List ℕ → Run (List ℕ)
until_nul [] = fault
until_nul (b ∷ bytes) =
    let rest = until_nul bytes in if b == 0 then done [] else do bytes' ← rest; done (b ∷ bytes')

unfoldable pub c_string : Text → Run (List ℕ)
unfolding until_nul
c_string null = fault
c_string freed = fault
c_string (held bytes) = until_nul bytes

-- The first loop: the bytes needed for `n` pairs.
unfoldable pub packed_size : ℕ → List NvPair → Run ℕ
unfolding c_string
packed_size zero pairs = done 0
packed_size (suc n) [] = fault
packed_size (suc n) (pair ∷ pairs) = do
  name ← c_string pair.name
  value ← c_string pair.values
  size ← packed_size n pairs
  done ((2 + length name) + (2 + length value) + size)

-- `uint16_t length = strlen(s)`, the length and that many bytes.
unfoldable pub pack_text : List ℕ → List ℕ
pack_text s = let size = length s % 2 ^ 16 in be_store_16 size ++ take size s

-- The second loop.
unfoldable pub pack_pairs : ℕ → List NvPair → Run (List ℕ)
unfolding c_string
pack_pairs zero pairs = done []
pack_pairs (suc n) [] = fault
pack_pairs (suc n) (pair ∷ pairs) = do
  name ← c_string pair.name
  value ← c_string pair.values
  rest ← pack_pairs n pairs
  done (pack_text name ++ (pack_text value ++ rest))

-- The code, the bytes written to the new buffer, and `*dest_size`.
unfoldable pub spdy_nv_block_pack : NvBlock → Answers → Run (Code × List ℕ × ℕ × Answers)
spdy_nv_block_pack block memory = do
  size ← packed_size block.count (pair_array block)
  let (p, later) = malloc memory in
      if p == 0 then done (nomem, [], 2 + size, later) else do
        bytes ← pack_pairs block.count (pair_array block)
        done (ok, be_store_16 block.count ++ bytes, 2 + size, later)

-- The loop of spdy_nv_block_destroy.
unfoldable pub free_pairs : ℕ → List NvPair → Run (Unit {0})
unfolding free
free_pairs zero pairs = done tt
free_pairs (suc n) [] = fault
free_pairs (suc n) (pair ∷ pairs) = do free pair.name; free pair.values; free_pairs n pairs

unfoldable pub spdy_nv_block_destroy : NvBlock → Run (Unit {0})
unfolding free_pairs
spdy_nv_block_destroy block = elim (block.pairs) [
  | none ↦ done tt
  | some pairs ↦ free_pairs block.pairs_parsed pairs
]
