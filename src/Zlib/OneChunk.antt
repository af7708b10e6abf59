-- ===== src/Zlib/OneChunk.antt =====
-- The outer loops of src/spdy_zlib.c on inputs of more than one chunk: `next_in` is `src` in every round.
use spindly.Prelude.{
  ℕ, zero, suc, ◌+◌, ◌-◌, ◌≤◌, ◌≡◌, refl, ◌∙◌, sym, ap, List, [], ◌∷◌, done, ltb, ◌==◌, >>=-cong,
  if_else-cong, if◌then◌else◌, arith, length, take, le→ltb,
}
use spindly.Memory.{Answers, memcpy}
use spindly.Memory.Copies.{memcpy-take}
use spindly.Zlib.{
  Zlib, chunk, rounds_for, deflate_inner, inflate_inner, deflate_outer, spdy_zlib_deflate,
  inflate_outer, spdy_zlib_inflate, spdy_zlib_dictionary,
}

-- Two sources that agree in a first chunk, which both have in full.
pub record AgreeInChunk (src src' : List ℕ) : Type 0 where
  pub full : chunk ≤ length src
  pub full' : chunk ≤ length src'
  pub same : take chunk src ≡ take chunk src'

-- What a round copies of `len` bytes that are left.
abbrev window : ℕ → ℕ
window len = if ltb chunk len then chunk else len

window_small : (len : ℕ) → window len ≤ chunk
window_small len = ground arith

take_fewer : (n m : ℕ) (xs : List ℕ) → n ≤ m → take n (take m xs) ≡ take n xs
take_fewer zero m xs h = refl
take_fewer (suc n) zero xs h = absurd (omega arith)
take_fewer (suc n) (suc m) [] h = refl
take_fewer (suc n) (suc m) (x ∷ xs) h = rw (take_fewer n m xs (omega arith))

take-window :
    (src src' : List ℕ) (n : ℕ) → AgreeInChunk src src' → n ≤ chunk → take n src ≡ take n src'
take-window src src' n a h =
    rw (take_fewer n chunk src h, take_fewer n chunk src' h) at (ap (take n) a.same)

memcpy-window :
    (src src' : List ℕ) (n : ℕ) → AgreeInChunk src src' → n ≤ chunk → memcpy n src ≡ memcpy n src'
memcpy-window src src' n a h =
    memcpy-take n src (omega (arith, a.full))
    ∙ ap done (take-window src src' n a h)
    ∙ sym (memcpy-take n src' (omega (arith, a.full')))

module _ (z : Zlib) (src src' : List ℕ) (a : AgreeInChunk src src') where
  open z use {Strm}

  deflate_outer_agree :
      (n : ℕ) (strm : Strm) (len used : ℕ) (dest : List ℕ) (memory : Answers)
      → deflate_outer z n strm src len used dest memory
        ≡ deflate_outer z n strm src' len used dest memory
  unfolding deflate_outer
  deflate_outer_agree zero strm len used dest memory = refl
  deflate_outer_agree (suc n) strm len used dest memory =
      rw (memcpy-window src src' (window len) a (window_small len)) (
        >>=-cong (memcpy (window len) src') _ _ λ next_in.
          >>=-cong (deflate_inner z memory strm _ next_in dest) _ _ λ d.
            rw (deflate_outer_agree n d.strm (len - chunk) (used + window len) d.dest d.memory)
              refl)

  inflate_outer_agree :
      (n : ℕ) (strm : Strm) (len : ℕ) (dest : List ℕ) (memory : Answers)
      → inflate_outer z n strm src len dest memory ≡ inflate_outer z n strm src' len dest memory
  unfolding inflate_outer
  inflate_outer_agree zero strm len dest memory = refl
  inflate_outer_agree (suc n) strm len dest memory =
      let small = window_small len in
      rw
        (
          take-window src src' (window len) a small,
          le→ltb (length src) (window len) (omega (arith, a.full)),
          le→ltb (length src') (window len) (omega (arith, a.full')),
        )
        (if_else-cong (window len == 0) _ (
          >>=-cong (inflate_inner z memory strm (take (window len) src') dest) _ _ λ d.
            rw
              (inflate_outer_agree n d.strm (if ltb chunk len then len - chunk else 0) d.dest
                d.memory)
              refl))

  -- Two sources that agree in their first chunk of 16384 bytes, and have that many, are deflated alike and
  -- inflated alike, whatever lengths are given, however the allocator answers and whatever zlib does: behind
  -- the first chunk no byte of an input changes the result.
  pub spdy_zlib_one_chunk :
      (strm : Strm) (len used : ℕ) (memory : Answers)
      → (spdy_zlib_deflate z src len used memory ≡ spdy_zlib_deflate z src' len used memory)
        × (spdy_zlib_inflate z strm src len memory ≡ spdy_zlib_inflate z strm src' len memory)
  unfolding spdy_zlib_deflate spdy_zlib_inflate
  spdy_zlib_one_chunk strm len used memory =
      let fresh = (z.deflate_set_dictionary (z.deflate_init.1) spdy_zlib_dictionary).1 in
      (
        rw (deflate_outer_agree (rounds_for len) fresh len used [] memory) refl,
        inflate_outer_agree (rounds_for len) strm len [] memory,
      )
