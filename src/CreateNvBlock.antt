-- ===== src/CreateNvBlock.antt =====
-- bin/create_nv_block.c: a tool that packs the pairs of its arguments, each `name=value`, and prints them.
pub mod RoundTrip
use spindly.Prelude.{
  ℕ, ◌+◌, Bool, Option, none, some, List, [], ◌∷◌, ◌++◌, Run, done, fault, ◌>>=◌, ◌==◌,
  if◌then◌else◌, length,
}
use spindly.Codes.{succeeded}
use spindly.Memory.{Answers, malloc}
use spindly.NvBlock.{held, NvPair, spdy_nv_block_pack}

-- strtok with the one delimiter `=`: delimiters in front are skipped, and the token ends before the next.
abbrev pub delimiter : ℕ
delimiter = 61

unfoldable pub skip : List ℕ → List ℕ
skip [] = []
skip (b ∷ s) = let rest = skip s in if b == delimiter then rest else b ∷ s

-- The token, and what is left for the next call.
unfoldable pub token : List ℕ → List ℕ × List ℕ
token [] = ([], [])
token (b ∷ s) = let (t, rest) = token s in if b == delimiter then ([], s) else (b ∷ t, rest)

-- `none` for NULL, where there is no token.
abbrev pub first_token : List ℕ → Option (List ℕ × List ℕ)
first_token [] = none
first_token (b ∷ s) = some (token (b ∷ s))

unfoldable pub strtok : List ℕ → Option (List ℕ × List ℕ)
strtok s = first_token (skip s)

-- The name and the value of an argument; a second delimiter ends the value.
unfoldable pub split_pair : List ℕ → Option (List ℕ × List ℕ)
split_pair arg = elim (strtok arg) [
  | none ↦ none
  | some (name, rest) ↦ elim (strtok rest) [ none ↦ none | some (value, _) ↦ some (name, value) ]
]

abbrev pub new_pair : (name value : List ℕ) → NvPair
new_pair name value = record {
  name = held (name ++ 0 ∷ []);
  values_count = 1;
  values = held (value ++ 0 ∷ []);
}

-- The loop over the arguments: the pairs, or `none` for exit(1). A NULL from realloc is written through.
unfoldable pub collect :
    List (List ℕ) → List NvPair → Answers → Run (Option (List NvPair × Answers))
collect [] pairs memory = done (some (pairs, memory))
collect (arg ∷ args) pairs memory =
    let (copy, m1) = malloc memory in
    let (array, m2) = malloc m1 in
    let (room, m3) = malloc m2 in
    let (room', m4) = malloc m3 in
    if copy == 0 then done none else (elim (split_pair arg) [
      | none ↦ done none
      | some (name, value) ↦
          let rest = collect args (pairs ++ new_pair name value ∷ []) m4 in
          if array == 0
          then fault
          else if room == 0
          then done none
          else if room' == 0
          then done none
          else rest
    ])

abbrev pub array_of : List NvPair → Option (List NvPair)
array_of [] = none
array_of (pair ∷ pairs) = some (pair ∷ pairs)

-- `has_count` and `parsed` are what the uninitialised members hold. The number and the bytes that printf is given,
-- or `none` for exit(1); the code of the packer is not looked at, and a NULL is printed from.
unfoldable pub create_nv_block :
    (has_count : Bool) → (parsed : ℕ) → (args : List (List ℕ)) → Answers → Run (Option (ℕ × List ℕ))
unfolding collect
create_nv_block has_count parsed args memory = do
  r ← collect args [] memory
  elim r [
    | none ↦ done none
    | some (pairs, later) ↦ do
      (rc, bytes, size, last) ←
          spdy_nv_block_pack
            (record {
              has_count = has_count;
              count = length pairs;
              pairs_parsed = parsed;
              pairs = array_of pairs;
            })
            later
      if succeeded rc then done (some (size, bytes)) else fault
  ]
