-- ===== src/Zlib/Loops.antt =====
-- The outer loops of src/spdy_zlib.c have rounds enough, whatever zlib does. The inner ones are bounded by the
-- allocator's answers.
use spindly.Prelude.{
  ℕ, zero, suc, ◌+◌, ◌-◌, ◌*◌, ◌≤◌, ◌<◌, ◌≢◌, List, [], ◌∷◌, ◌++◌, spin, ltb, ◌==◌, arith,
  >>=-ne-spin, Bool-cases, inl, inr, take, length, ◌&&◌, if◌then◌else◌, Bool, Run, done, fault,
  if-ne-spin, done-ne-spin,
}
use spindly.Codes.{ok, succeeded}
use spindly.Memory.{Answers, memcpy}
use spindly.Memory.Copies.{memcpy-ne-spin}
use spindly.Zlib.{
  Flush, no_flush, z_finish, spdy_zlib_dictionary, Zlib, chunk, rounds_for, deflate_inner,
  deflate_outer, Deflating, Inflated, is_stream_end, is_empty, spdy_zlib_deflate, inflate_step,
  inflate_inner, inflate_outer, spdy_zlib_inflate,
}

module _ (z : Zlib) where
  open z use {Strm}

  deflate_inner-ne-spin :
      (memory : Answers) (strm : Strm) (flush : Flush) (next_in dest : List ℕ)
      → deflate_inner z memory strm flush next_in dest ≢ spin
  unfolding deflate_inner
  deflate_inner-ne-spin [] strm flush next_in dest = ground arith
  deflate_inner-ne-spin (p ∷ later) strm flush next_in dest =
      let step = z.deflate strm flush next_in chunk in
      ground (arith, deflate_inner-ne-spin later step.strm flush step.rest_in (dest ++ step.out))

  deflate_outer-ne-spin :
      (n : ℕ) (strm : Strm) (src : List ℕ) (len used : ℕ) (dest : List ℕ) (memory : Answers)
      → len < n * chunk
      → deflate_outer z n strm src len used dest memory ≢ spin
  unfolding deflate_outer
  deflate_outer-ne-spin zero strm src len used dest memory h = absurd (omega arith)
  deflate_outer-ne-spin (suc n) strm src len used dest memory h =
      elim (Bool-cases (ltb chunk len)) [
        | inl more ↦ rw more (
            >>=-ne-spin (memcpy chunk src) _ (memcpy-ne-spin chunk src) λ next_in.
              >>=-ne-spin (deflate_inner z memory strm no_flush next_in dest) _
                (deflate_inner-ne-spin memory strm no_flush next_in dest)
                λ d. ground (
                  arith,
                  deflate_outer-ne-spin n d.strm src (len - chunk) (used + chunk) d.dest d.memory,
                ))
        | inr last ↦ rw last (
            >>=-ne-spin (memcpy len src) _ (memcpy-ne-spin len src) λ next_in.
              >>=-ne-spin (deflate_inner z memory strm z_finish next_in dest) _
                (deflate_inner-ne-spin memory strm z_finish next_in dest) λ d. ground arith)
      ]

  inflate_inner-ne-spin :
      (memory : Answers) (strm : Strm) (next_in dest : List ℕ)
      → inflate_inner z memory strm next_in dest ≢ spin
  unfolding inflate_inner
  inflate_inner-ne-spin [] strm next_in dest = ground arith
  inflate_inner-ne-spin (p ∷ later) strm next_in dest =
      let step = (inflate_step z strm next_in).1 in
      ground (arith, inflate_inner-ne-spin later step.strm step.rest_in (dest ++ step.out))

  -- The end of a round of the outer loop.
  goes_on :
      (d : Deflating Strm) (overread : Bool) (next : Run (Inflated Strm))
      → next ≢ spin
      → (if succeeded d.code
          then (if is_stream_end d.ret
              then done (record { code = ok; strm = d.strm; dest = d.dest; memory = d.memory })
              else if overread
              then fault
              else next)
          else done (record { code = d.code; strm = d.strm; dest = d.dest; memory = d.memory }))
        ≢ spin
  goes_on d overread next h =
      if-ne-spin (succeeded d.code) _ _
        (if-ne-spin (is_stream_end d.ret) _ _ done-ne-spin (if-ne-spin overread _ _ (λ e. cc) h))
        done-ne-spin

  inflate_outer-ne-spin :
      (n : ℕ) (strm : Strm) (src : List ℕ) (len : ℕ) (dest : List ℕ) (memory : Answers)
      → len + chunk ≤ n * chunk
      → inflate_outer z n strm src len dest memory ≢ spin
  unfolding inflate_outer
  inflate_outer-ne-spin zero strm src len dest memory h = absurd (omega arith)
  inflate_outer-ne-spin (suc n) strm src len dest memory h = elim (Bool-cases (ltb chunk len)) [
    | inl more ↦
        rw (more, inflate_outer)
          (>>=-ne-spin (inflate_inner z memory strm (take chunk src) dest) _
            (inflate_inner-ne-spin memory strm (take chunk src) dest)
            λ d.
              goes_on d (ltb (length src) chunk && is_empty d.rest_in) _
                (inflate_outer-ne-spin n d.strm src (len - chunk) d.dest d.memory (ground arith)))
    | inr last ↦
        rw (last, inflate_outer)
          (elim (Bool-cases (len == 0)) [
            | inl none_left ↦ rw none_left (λ e. cc)
            | inr some_left ↦ rw some_left (
                >>=-ne-spin (inflate_inner z memory strm (take len src) dest) _
                  (inflate_inner-ne-spin memory strm (take len src) dest)
                  λ d.
                    goes_on d (ltb (length src) len && is_empty d.rest_in) _
                      (inflate_outer-ne-spin n d.strm src 0 d.dest d.memory (ground arith)))
          ])
  ]

  pub spdy_zlib_deflate-ne-spin :
      (src : List ℕ) (len used : ℕ) (memory : Answers)
      → spdy_zlib_deflate z src len used memory ≢ spin
  unfolding spdy_zlib_deflate
  spdy_zlib_deflate-ne-spin src len used memory =
      let strm = (z.deflate_set_dictionary (z.deflate_init.1) spdy_zlib_dictionary).1 in
      ground (arith, deflate_outer-ne-spin (rounds_for len) strm src len used [] memory)

  pub spdy_zlib_inflate-ne-spin :
      (strm : Strm) (src : List ℕ) (len : ℕ) (memory : Answers)
      → spdy_zlib_inflate z strm src len memory ≢ spin
  unfolding spdy_zlib_inflate
  spdy_zlib_inflate-ne-spin strm src len memory =
      inflate_outer-ne-spin (rounds_for len) strm src len [] memory (omega arith)
