-- ===== src/Zlib/Compress.antt =====
-- spdy_zlib_deflate of src/spdy_zlib.c on an input of at most one chunk.
use spindly.Prelude.{
  ℕ, suc, ◌+◌, ◌-◌, ◌/◌, ◌≤◌, ◌≡◌, refl, ◌∙◌, ap, true, false, List, [], ◌∷◌, ◌++◌, done, ◌==◌,
  arith, length, drop, append_assoc, inl, inr, le→ltb, take_all, take-drop, length-take,
}
use spindly.Codes.{ok}
use spindly.Memory.{Answers}
use spindly.Memory.Copies.{memcpy-whole}
use spindly.Zlib.{
  ZRet, z_stream_end, is_stream_error, z_finish, Zlib, chunk, rounds_for, deflate_inner,
  deflate_outer, spdy_zlib_deflate, spdy_zlib_dictionary,
}
use spindly.Zlib.Contract.{Goes, Contract}
use spindly.Zlib.Enough.{
  answers_for, IsEnough, IsEnough-tail, answers_for-short, answers_for-long, fits_or_fills,
  room_left, not_null,
}

pub Goes-sound : {r : ZRet} → Goes r → is_stream_error r ≡ false
Goes-sound {r} (inl e) = rw e
Goes-sound {r} (inr e) = rw e

module _ (z : Zlib) (c : Contract z) where
  open z use {Strm}

  -- The inner loop writes all that is to be written and reports the end.
  deflate_inner_writes :
      (memory : Answers) (strm : Strm) (next_in w dest : List ℕ)
      → c.Finishes strm next_in w
      → IsEnough w memory
      → (strm' : Strm) × (deflate_inner z memory strm z_finish next_in dest
          ≡ done (record {
            code = ok;
            ret = z_stream_end;
            strm = strm';
            rest_in = [];
            dest = dest ++ w;
            memory = drop (answers_for w) memory;
          }))
  unfolding deflate_inner
  deflate_inner_writes [] strm next_in w dest f e = absurd (omega (arith, e.many))
  deflate_inner_writes (p ∷ later) strm next_in w dest f e =
      let step = z.deflate strm z_finish next_in chunk in
      let (goes, out, short, long) = c.finishing strm next_in w chunk (omega arith) f in
      let given = not_null w p later e in
      elim (fits_or_fills w) [
        | inl small ↦
            let (ended, left, _) = short small in
            let all : step.out ≡ w = rw out (take_all chunk w (omega arith)) in
            let room = room_left w small in
            (
              step.strm,
              rw (Goes-sound goes, given, all, room, ended, left, answers_for-short w small) refl,
            )
        | inr large ↦
            let (strm', run) =
              deflate_inner_writes later step.strm step.rest_in (drop chunk w) (dest ++ step.out)
                (long large) (IsEnough-tail w p later large e) in
            let full : (chunk - length step.out == 0) ≡ true =
              rw (out, length-take chunk w large) refl in
            let whole : (dest ++ step.out) ++ drop chunk w ≡ dest ++ w =
              append_assoc dest step.out (drop chunk w)
              ∙ ap (λ t. dest ++ t) (rw out (take-drop chunk w)) in
            (strm', rw (Goes-sound goes, given, full, run, whole, answers_for-long w large) refl)
      ]

  -- An input of at most one chunk is written as its compressed form.
  pub spdy_zlib_deflate-packed :
      (src : List ℕ) (used : ℕ) (memory : Answers)
      → length src ≤ chunk
      → IsEnough (c.packed src) memory
      → spdy_zlib_deflate z src (length src) used memory
        ≡ done (record {
          code = ok;
          data_used = used + length src;
          dest = c.packed src;
          memory = drop (answers_for (c.packed src)) memory;
        })
  unfolding spdy_zlib_deflate
  spdy_zlib_deflate-packed src used memory small e =
      let strm = (z.deflate_set_dictionary (z.deflate_init.1) spdy_zlib_dictionary).1 in
      let (strm', run) = deflate_inner_writes memory strm src (c.packed src) [] (c.packs src) e in
      let rounds : rounds_for (length src) ≡ suc (length src / chunk + 1) = omega arith in
      rw
        (
          c.starts,
          c.takes_dictionary,
          rounds,
          deflate_outer,
          le→ltb chunk (length src) small,
          memcpy-whole src,
          run,
        )
        refl
