-- ===== src/Zlib/Decompress.antt =====
-- spdy_zlib_inflate of src/spdy_zlib.c on an input of at most one chunk.
use spindly.Prelude.{
  ℕ, suc, ◌+◌, ◌-◌, ◌/◌, ◌≤◌, ◌<◌, ◌≡◌, refl, ◌∙◌, ap, true, false, List, [], ◌∷◌, ◌++◌, done, ◌==◌,
  arith, length, take, drop, append_assoc, inl, inr, le→ltb, take_all, take-drop, length-take,
}
use spindly.Codes.{ok}
use spindly.Memory.{Answers}
use spindly.Zlib.{
  z_stream_end, sync_flush, ZStep, Zlib, chunk, rounds_for, inflate_sound, inflate_step,
  inflate_inner, inflate_outer, spdy_zlib_inflate, spdy_zlib_dictionary,
}
use spindly.Zlib.Contract.{Goes, Contract}
use spindly.Zlib.Enough.{
  answers_for, IsEnough, IsEnough-tail, answers_for-short, answers_for-long, fits_or_fills,
  room_left, not_null,
}
use spindly.Zlib.Compress.{Goes-sound}

module _ (z : Zlib) (c : Contract z) where
  open z use {Strm}

  -- One round of the inner loop succeeds, and writes of `v` what has room.
  record Serves (strm : Strm) (next_in v : List ℕ) : Type 0 where
    step : ZStep Strm
    sound : inflate_sound z strm next_in ≡ true
    steps : inflate_step z strm next_in ≡ (ok, step)
    out : step.out ≡ take chunk v
    short : length v < chunk → (step.ret ≡ z_stream_end) × c.IsOver step.strm
    long : chunk ≤ length v → c.Yields step.strm step.rest_in (drop chunk v)

  inflate_step-Goes :
      (strm : Strm) (next_in : List ℕ)
      → Goes (z.inflate strm sync_flush next_in chunk).ret
      → inflate_step z strm next_in ≡ (ok, z.inflate strm sync_flush next_in chunk)
  unfolding inflate_step
  inflate_step-Goes strm next_in (inl e) = simp (inflate_step, e)
  inflate_step-Goes strm next_in (inr e) = simp (inflate_step, e)

  Serves-yielding :
      (strm : Strm) (next_in v : List ℕ) → c.Yields strm next_in v → Serves strm next_in v
  Serves-yielding strm next_in v y =
      let (goes, out, short, long) = c.yielding strm next_in v chunk (omega arith) y in
      record {
        step = z.inflate strm sync_flush next_in chunk;
        sound = rw (Goes-sound goes) refl;
        steps = inflate_step-Goes strm next_in goes;
        out = out;
        short = λ h. let (end, _, over) = short h in (end, over);
        long = long;
      }

  Serves-over : (strm : Strm) (next_in : List ℕ) → c.IsOver strm → Serves strm next_in []
  Serves-over strm next_in o =
      let (end, out, over) = c.over strm next_in chunk (omega arith) o in
      record {
        step = z.inflate strm sync_flush next_in chunk;
        sound = rw end refl;
        steps = inflate_step-Goes strm next_in (inr end);
        out = out;
        short = λ h. (end, over);
        long = λ h. absurd (omega arith);
      }

  -- A new stream asks for the dictionary, and the second call writes.
  Serves-new : (text : List ℕ) → Serves ((z.inflate_init2 0).1) (c.packed text) text
  unfolding inflate_step
  Serves-new text =
      let first = z.inflate ((z.inflate_init2 0).1) sync_flush (c.packed text) chunk in
      let strm = (z.inflate_set_dictionary first.strm spdy_zlib_dictionary).1 in
      let (asks, nothing, taken, y) = c.asks text chunk (omega arith) in
      let (goes, out, short, long) = c.yielding strm first.rest_in text chunk (omega arith) y in
      record {
        step = z.inflate strm sync_flush first.rest_in chunk;
        sound = rw asks refl;
        steps = simp (inflate_step, asks, taken, nothing);
        out = out;
        short = λ h. let (end, _, over) = short h in (end, over);
        long = long;
      }

  -- The inner loop writes all of `v` and reports the end.
  inflate_inner-writes :
      (memory : Answers) (strm : Strm) (next_in v dest : List ℕ)
      → Serves strm next_in v
      → IsEnough v memory
      → (strm' : Strm) × (rest : List ℕ) × (inflate_inner z memory strm next_in dest
          ≡ done (record {
            code = ok;
            ret = z_stream_end;
            strm = strm';
            rest_in = rest;
            dest = dest ++ v;
            memory = drop (answers_for v) memory;
          }))
        × c.IsOver strm'
  unfolding inflate_inner
  inflate_inner-writes [] strm next_in v dest s e = absurd (omega (arith, e.many))
  inflate_inner-writes (p ∷ later) strm next_in v dest s e =
      let given = not_null v p later e in
      let passed = ap (λ r. r.0) s.steps in
      let made = ap (λ r. r.1) s.steps in
      elim (fits_or_fills v) [
        | inl small ↦
            let (end, o) = s.short small in
            let all : s.step.out ≡ v = rw (s.out) (take_all chunk v (omega arith)) in
            let room = room_left v small in
            (
              s.step.strm,
              s.step.rest_in,
              rw (s.sound, passed, made, given, all, room, end, answers_for-short v small) refl,
              o,
            )
        | inr large ↦
            let (strm', rest, run, o) =
              inflate_inner-writes later s.step.strm s.step.rest_in (drop chunk v)
                (dest ++ s.step.out) (Serves-yielding _ _ _ (s.long large))
                (IsEnough-tail v p later large e) in
            let full : (chunk - length s.step.out == 0) ≡ true =
              rw (s.out, length-take chunk v large) refl in
            let whole : (dest ++ s.step.out) ++ drop chunk v ≡ dest ++ v =
              append_assoc dest s.step.out (drop chunk v)
              ∙ ap (λ t. dest ++ t) (rw (s.out) (take-drop chunk v)) in
            (
              strm',
              rest,
              rw (s.sound, passed, made, given, full, run, whole, answers_for-long v large) refl,
              o,
            )
      ]

  -- An input of at most one chunk, which is not empty, is written as what the stream makes of it.
  spdy_zlib_inflate-Serves :
      (strm : Strm) (src v : List ℕ) (memory : Answers)
      → 0 < length src
      → length src ≤ chunk
      → Serves strm src v
      → IsEnough v memory
      → (strm' : Strm) × (spdy_zlib_inflate z strm src (length src) memory
          ≡ done
              (record { code = ok; strm = strm'; dest = v; memory = drop (answers_for v) memory }))
        × c.IsOver strm'
  unfolding spdy_zlib_inflate
  spdy_zlib_inflate-Serves strm src v memory some_in small s e =
      let (strm', rest, run, o) = inflate_inner-writes memory strm src v [] s e in
      let rounds : rounds_for (length src) ≡ suc (length src / chunk + 1) = omega arith in
      let counted : (length src == 0) ≡ false = ground arith in
      (
        strm',
        rw
            (
              rounds,
              inflate_outer,
              le→ltb chunk (length src) small,
              counted,
              take_all (length src) src (omega arith),
              run,
            )
            refl,
        o,
      )

  -- The compressed form of a text, of at most one chunk, is inflated to the text by a new context.
  pub spdy_zlib_inflate-packed :
      (text : List ℕ) (memory : Answers)
      → length (c.packed text) ≤ chunk
      → IsEnough text memory
      → (strm' : Strm) × (spdy_zlib_inflate z
            ((z.inflate_init2 0).1)
            (c.packed text)
            (length (c.packed text))
            memory
          ≡ done (record {
            code = ok;
            strm = strm';
            dest = text;
            memory = drop (answers_for text) memory;
          }))
        × c.IsOver strm'
  spdy_zlib_inflate-packed text memory small e =
      spdy_zlib_inflate-Serves ((z.inflate_init2 0).1) (c.packed text) text memory
        (c.packed_some text) small (Serves-new text) e

  -- A context that has reached an end writes nothing, and reports success.
  pub spdy_zlib_inflate-over :
      (strm : Strm) (src : List ℕ) (memory : Answers)
      → 0 < length src
      → length src ≤ chunk
      → c.IsOver strm
      → IsEnough [] memory
      → (strm' : Strm) × (spdy_zlib_inflate z strm src (length src) memory
          ≡ done (record { code = ok; strm = strm'; dest = []; memory = drop 1 memory }))
        × c.IsOver strm'
  spdy_zlib_inflate-over strm src memory some_in small o e =
      spdy_zlib_inflate-Serves strm src [] memory some_in small (Serves-over strm src o) e
