-- ===== src/Zlib/Supply.antt =====
-- src/spdy_zlib.c and the allocator: which answers its loops leave.
use spindly.Prelude.{
  ℕ, zero, suc, List, [], ◌∷◌, ◌++◌, ◌+◌, ◌-◌, Run, done, ltb, ◌==◌, not, if◌then◌else◌, assert,
  length, take, ◌&&◌, Post, Post-bind, Post-bind_any, Post-if,
}
use spindly.Codes.{Code, ok, nomem, inval, insuff, zlib, reset, small_buffer, protocol, succeeded}
use spindly.Memory.{Answers, memcpy}
use spindly.Zlib.{
  Zlib, Flush, no_flush, z_finish, chunk, is_stream_error, is_stream_end, is_empty, deflate_inner,
  deflate_outer, spdy_zlib_deflate, inflate_sound, inflate_step, inflate_inner, inflate_outer,
  spdy_zlib_inflate, is_z_ok, rounds_for, spdy_zlib_dictionary,
}

-- A result that goes on if its code is OK.
Post-ok :
    {A : Type 0} (P : A → Type 0) (c : Code) (m : Run A) (stop : Code → Run A)
    → Post P m
    → ((c : Code) → Post P (stop c))
    → Post P (elim c [ ok ↦ m | other ↦ stop other ])
Post-ok P ok m stop h k = h
Post-ok P nomem m stop h k = k nomem
Post-ok P inval m stop h k = k inval
Post-ok P insuff m stop h k = k insuff
Post-ok P zlib m stop h k = k zlib
Post-ok P reset m stop h k = k reset
Post-ok P Code.stop m stop h k = k Code.stop
Post-ok P small_buffer m stop h k = k small_buffer
Post-ok P protocol m stop h k = k protocol

-- What holds of the answers and of all their ends holds of what is left.
module _ (z : Zlib) (Q : Answers → Type 0) (tail : (p : ℕ) (m : Answers) → Q (p ∷ m) → Q m) where
  open z use {Strm}

  deflate_inner-Answers :
      (memory : Answers) (strm : Strm) (flush : Flush) (next_in dest : List ℕ)
      → Q memory
      → Post (λ d. Q d.memory) (deflate_inner z memory strm flush next_in dest)
  unfolding deflate_inner
  deflate_inner-Answers [] strm flush next_in dest q =
      Post-bind_any _ (assert (not (is_stream_error (z.deflate strm flush next_in chunk).ret))) _
        (λ _. q)
  deflate_inner-Answers (p ∷ later) strm flush next_in dest q =
      let step = z.deflate strm flush next_in chunk in
      Post-bind_any _ (assert (not (is_stream_error step.ret))) _ (λ _.
        Post-if _ (p == 0) _ _ (λ _. tail p later q)
          (λ _.
            Post-if _ (chunk - length step.out == 0) _ _
              (λ _.
                deflate_inner-Answers later step.strm flush step.rest_in (dest ++ step.out)
                  (tail p later q))
              (λ _. tail p later q)))

  deflate_outer-Answers :
      (n : ℕ) (strm : Strm) (src : List ℕ) (len used : ℕ) (dest : List ℕ) (memory : Answers)
      → Q memory
      → Post (λ d. Q d.memory) (deflate_outer z n strm src len used dest memory)
  unfolding deflate_outer
  deflate_outer-Answers zero strm src len used dest memory q = tt
  deflate_outer-Answers (suc n) strm src len used dest memory q =
      let more = ltb chunk len in
      let avail_in = if more then chunk else len in
      Post-bind_any _ (memcpy avail_in src) _ (λ next_in.
        Post-bind (λ d. Q d.memory) _
          (deflate_inner z memory strm (if more then no_flush else z_finish) next_in dest) _
          (deflate_inner-Answers memory strm _ next_in dest q)
          (λ d h.
            Post-if _ (succeeded d.code) _ _
              (λ _. Post-bind_any _ (assert (is_empty d.rest_in)) _ (λ _.
                Post-if _ more _ _
                  (λ _.
                    deflate_outer-Answers n d.strm src (len - chunk) (used + avail_in) d.dest
                      d.memory h)
                  (λ _. Post-bind_any _ (assert (is_stream_end d.ret)) _ (λ _. h))))
              (λ _. h)))

  pub spdy_zlib_deflate-Answers :
      (src : List ℕ) (len used : ℕ) (memory : Answers)
      → Q memory
      → Post (λ d. Q d.memory) (spdy_zlib_deflate z src len used memory)
  unfolding spdy_zlib_deflate
  spdy_zlib_deflate-Answers src len used memory q =
      let (ret, strm) = z.deflate_init in
      let (ret', strm') = z.deflate_set_dictionary strm spdy_zlib_dictionary in
      Post-if _ (is_z_ok ret) _ _
        (λ _.
          Post-if _ (is_z_ok ret') _ _
            (λ _. deflate_outer-Answers (rounds_for len) strm' src len used [] memory q) (λ _. q))
        (λ _. q)

  inflate_inner-Answers :
      (memory : Answers) (strm : Strm) (next_in dest : List ℕ)
      → Q memory
      → Post (λ d. Q d.memory) (inflate_inner z memory strm next_in dest)
  unfolding inflate_inner
  inflate_inner-Answers [] strm next_in dest q =
      Post-bind_any _ (assert (inflate_sound z strm next_in)) _ (λ _. q)
  inflate_inner-Answers (p ∷ later) strm next_in dest q =
      let step = (inflate_step z strm next_in).1 in
      let rest =
        inflate_inner-Answers later step.strm step.rest_in (dest ++ step.out) (tail p later q) in
      let kept = tail p later q in
      Post-bind_any _ (assert (inflate_sound z strm next_in)) _ (λ _.
        Post-ok (λ d. Q d.memory) (inflate_step z strm next_in).0 _
          (λ c. done (record {
            code = c;
            ret = step.ret;
            strm = step.strm;
            rest_in = step.rest_in;
            dest = dest;
            memory = p ∷ later;
          }))
          (Post-if _ (p == 0) _ _ (λ _. kept)
            (λ _. Post-if _ (chunk - length step.out == 0) _ _ (λ _. rest) (λ _. kept)))
          (λ c. q))

  inflate_outer-Answers :
      (n : ℕ) (strm : Strm) (src : List ℕ) (len : ℕ) (dest : List ℕ) (memory : Answers)
      → Q memory
      → Post (λ d. Q d.memory) (inflate_outer z n strm src len dest memory)
  unfolding inflate_outer
  inflate_outer-Answers zero strm src len dest memory q = tt
  inflate_outer-Answers (suc n) strm src len dest memory q =
      let more = ltb chunk len in
      let avail_in = if more then chunk else len in
      Post-if _ (avail_in == 0) _ _ (λ _. q)
        (λ _.
          Post-bind (λ d. Q d.memory) _ (inflate_inner z memory strm (take avail_in src) dest) _
            (inflate_inner-Answers memory strm (take avail_in src) dest q)
            (λ d h.
              Post-if _ (succeeded d.code) _ _
                (λ _.
                  Post-if _ (is_stream_end d.ret) _ _ (λ _. h)
                    (λ _.
                      Post-if _ (ltb (length src) avail_in && is_empty d.rest_in) _ _ (λ _. tt)
                        (λ _.
                          inflate_outer-Answers n d.strm src (if more then len - chunk else 0)
                            d.dest d.memory h)))
                (λ _. h)))

  pub spdy_zlib_inflate-Answers :
      (strm : Strm) (src : List ℕ) (len : ℕ) (memory : Answers)
      → Q memory
      → Post (λ d. Q d.memory) (spdy_zlib_inflate z strm src len memory)
  unfolding spdy_zlib_inflate
  spdy_zlib_inflate-Answers strm src len memory q =
      inflate_outer-Answers (rounds_for len) strm src len [] memory q
