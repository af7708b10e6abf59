-- ===== src/Tests/Tools.antt =====
-- The tool that packs its arguments, with one.
use spindly.Prelude.{ℕ, ◌≡◌, refl, false, some, List, [], ◌∷◌, done, arith, length, map}
use spindly.Codes.{ok}
use spindly.NvBlock.{spdy_nv_block_init, spdy_nv_block_parse}
use spindly.NvBlock.Wire.{block_of, answers_left}
use spindly.CreateNvBlock.{create_nv_block, split_pair, strtok, skip, token}
use spindly.CreateNvBlock.RoundTrip.{AreTokens, argument, create_nv_block-parse}
use spindly.Tests.Codec.{host_name, host_name-ArePlain}

-- `=a==b=c` is the name `a` and the value `b`.
loose : split_pair (61 ∷ 97 ∷ 61 ∷ 61 ∷ 98 ∷ 61 ∷ 99 ∷ []) ≡ some (97 ∷ [], 98 ∷ [])
unfolding split_pair strtok skip token
loose = refl

host_name-AreTokens : AreTokens host_name
host_name-AreTokens =
    ((omega arith, (omega arith, (omega arith, tt))), (omega arith, (omega arith, tt)), tt)

create_nv_block-parse_example :
    (bytes : List ℕ) × (create_nv_block false 0 (map argument host_name) (1 ∷ 2 ∷ 3 ∷ 4 ∷ 5 ∷ [])
      ≡ done (some (length bytes, bytes)))
    × (spdy_nv_block_parse spdy_nv_block_init bytes (1 ∷ 2 ∷ 3 ∷ [])
        ≡ done (ok, block_of host_name, answers_left host_name (2 ∷ 3 ∷ [])))
create_nv_block-parse_example =
    create_nv_block-parse false 0 host_name (1 ∷ 2 ∷ 3 ∷ 4 ∷ 5 ∷ []) (2 ∷ 3 ∷ []) 1
      host_name-AreTokens host_name-ArePlain (omega arith) (omega arith)
      ((omega arith, (omega arith, (omega arith, (omega arith, (omega arith, tt))))), omega arith)
      (omega arith) (omega arith, omega arith, tt)
