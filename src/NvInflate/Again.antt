-- ===== src/NvInflate/Again.antt =====
-- spdy_nv_block_inflate_parse of src/spdy_nv_block.c with the context of a connection that has inflated a
-- block before: spdy_zlib_inflate does not reset the stream behind its end.
use spindly.Prelude.{
  ℕ, ◌≤◌, ◌<◌, ◌≡◌, ◌≢◌, refl, List, [], done, arith, length, length-drop, drop, All,
}
use spindly.Codes.{ok, insuff}
use spindly.Memory.{Answers}
use spindly.Zlib.{Zlib, chunk}
use spindly.Zlib.Contract.{Contract}
use spindly.Zlib.Enough.{answers_for, IsEnough}
use spindly.Zlib.Decompress.{spdy_zlib_inflate-over}
use spindly.NvBlock.{spdy_nv_block_init, spdy_nv_block_parse}
use spindly.NvBlock.Wire.{Names, block_of, block_bytes}
use spindly.Env.{Env}
use spindly.NvInflate.{spdy_nv_block_inflate_parse}
use spindly.NvInflate.RoundTrip.{
  answers_needed, answers_after, IsSendable, All-answers_left, length-answers_left, All-drop,
  inflate_parse-packed,
}

IsEnough-after :
    (names : Names) (memory : Answers)
    → All (λ p. p ≢ 0) memory
    → answers_needed names < length memory
    → IsEnough [] (answers_after names memory)
IsEnough-after names memory given many =
    let n = answers_for (block_bytes names) in
    let left = drop 1 (drop n memory) in
    record {
      given = All-answers_left names left (All-drop 1 _ (All-drop n memory given));
      many = omega (
        arith,
        many,
        length-answers_left names left,
        length-drop 1 (drop n memory),
        length-drop n memory,
      );
    }

module _ (z : Zlib) (c : Contract z) where
  open z use {Strm}

  -- The stream is over: nothing is inflated, and nothing is a block without its count.
  inflate_parse-over :
      (src : List ℕ) (env : Env Strm)
      → 0 < length src
      → length src ≤ chunk
      → c.IsOver env.zlib_in
      → IsEnough [] env.memory
      → (env' : Env Strm) × (spdy_nv_block_inflate_parse z spdy_nv_block_init src (length src) env
          ≡ done (insuff, spdy_nv_block_init, env'))
  unfolding spdy_nv_block_inflate_parse spdy_nv_block_parse
  inflate_parse-over src env some_in small over enough =
      let (strm, run, _) =
        spdy_zlib_inflate-over z c env.zlib_in src env.memory some_in small over enough in
      (record env { zlib_in = strm; memory = drop 1 env.memory }, rw run refl)

  -- For a block that can be sent, an allocator that refuses nothing and has an answer for each allocation, and a
  -- zlib that keeps its contract: a new context inflates the compressed block and it is parsed, and with the
  -- same context any further input of at most one chunk, which is not empty, is inflated to nothing and
  -- refused as too short, whatever it holds.
  pub second_block_insuff :
      (names : Names) (src : List ℕ) (env : Env Strm)
      → IsSendable z c names
      → 0 < length src
      → length src ≤ chunk
      → env.zlib_in ≡ (z.inflate_init2 0).1
      → All (λ p. p ≢ 0) env.memory
      → answers_needed names < length env.memory
      → (env' : Env Strm) × (env'' : Env Strm) × (spdy_nv_block_inflate_parse z spdy_nv_block_init
            (c.packed (block_bytes names))
            (length (c.packed (block_bytes names)))
            env
          ≡ done (ok, block_of names, env'))
        × (spdy_nv_block_inflate_parse z spdy_nv_block_init src (length src) env'
            ≡ done (insuff, spdy_nv_block_init, env''))
  second_block_insuff names src env s some_in small new given many =
      let (strm, run, over) =
        inflate_parse-packed z c names s env new given (omega (arith, many)) in
      let env' = record env { zlib_in = strm; memory = answers_after names env.memory } in
      let (env'', again) =
        inflate_parse-over src env' some_in small over
          (IsEnough-after names env.memory given many) in
      (env', env'', run, again)
