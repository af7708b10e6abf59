-- ===== src/Tests/Compression.antt =====
-- A zlib that keeps its contract, and the header compression with it.
use spindly.Prelude.{
  ℕ, zero, suc, ◌+◌, ◌≤◌, ◌<◌, ◌≡◌, ◌≢◌, sym, ◌∙◌, refl, All, inl, inr, ltb, List, [], ◌∷◌, ◌++◌,
  done, arith, length, take, drop, if◌then◌else◌, le→ltb, lt→ltb, Bool-cases, replicate,
}
use spindly.Zlib.{z_ok, z_stream_end, z_need_dict, ZStep, Zlib}
use spindly.Bytes.{be_store_16}
use spindly.Memory.{Answers}
use spindly.Codes.{ok, insuff}
use spindly.Env.{Env}
use spindly.Zlib.{chunk, spdy_zlib_deflate, spdy_zlib_inflate, Deflated}
use spindly.Zlib.Enough.{IsEnough}
use spindly.Zlib.OneChunk.{AgreeInChunk, spdy_zlib_one_chunk}
use spindly.NvBlock.{pack_text, spdy_nv_block_init, spdy_nv_block_pack}
use spindly.NvBlock.Wire.{block_bytes, block_of}
use spindly.NvInflate.{spdy_nv_block_inflate_parse}
use spindly.NvInflate.RoundTrip.{IsSendable, answers_needed, inflate_parse-deflate}
use spindly.NvInflate.Again.{second_block_insuff}
use spindly.Tests.Codec.{host_name, host_name-ArePlain, copying}
use spindly.Tests.Storage.{no_store, some_hash}
use spindly.Zlib.Contract.{Writes, Contract}

-- Where a stream of the marking zlib stands: at the mark, behind it, or behind the end.
data Stage : Type 0 where
  new begun ended : Stage

-- What a stage writes of an input.
abbrev text_at : Stage → List ℕ → List ℕ
text_at new text = 120 ∷ text
text_at begun text = text
text_at ended text = []

-- The call that copies; `after` is the stage if all was written.
abbrev copy_step : Stage → (text : List ℕ) → (room : ℕ) → ZStep Stage
copy_step after text room = record {
  ret = if ltb (length text) room then z_stream_end else z_ok;
  strm = if ltb (length text) room then after else begun;
  rest_in = drop room text;
  out = take room text;
}

-- A zlib that puts a mark in front of a text. Inflating asks for the dictionary at the mark.
abbrev marking : Zlib
marking = record {
  Strm = Stage;
  deflate_init = (z_ok, new);
  deflate_set_dictionary = λ s d. (z_ok, s);
  deflate = λ s f next_in room. copy_step begun (text_at s next_in) room;
  inflate_init2 = λ call. (z_ok, new);
  inflate_set_dictionary = λ s d. (z_ok, begun);
  inflate = λ s f next_in room. elim s [
    | new ↦ record { ret = z_need_dict; strm = new; rest_in = drop 1 next_in; out = [] }
    | begun ↦ copy_step ended next_in room
    | ended ↦ record { ret = z_stream_end; strm = ended; rest_in = next_in; out = [] }
  ];
  inflate_end = λ s. s;
}

drop_all : (n : ℕ) (xs : List ℕ) → length xs ≤ n → drop n xs ≡ []
drop_all zero [] h = refl
drop_all zero (x ∷ xs) h = absurd (omega arith)
drop_all (suc n) [] h = refl
drop_all (suc n) (x ∷ xs) h = drop_all n xs (omega arith)

copy_step-Writes :
    (End : Stage → Type 0) (More : Stage → List ℕ → List ℕ → Type 0) (after : Stage) (text : List ℕ)
    (room : ℕ)
    → End after
    → More begun (drop room text) (drop room text)
    → Writes End More room text (copy_step after text room)
copy_step-Writes End More after text room e m = (
  elim (Bool-cases (ltb (length text) room)) [ inl h ↦ inr (rw h refl) | inr h ↦ inl (rw h refl) ],
  refl,
  λ h.
      let fits = lt→ltb (length text) room h in
      (rw fits refl, drop_all room text (omega arith), rw fits e),
  λ h. rw (le→ltb (length text) room h) m,
)

abbrev marking_contract : Contract marking
marking_contract = record {
  packed = λ text. 120 ∷ text;
  Finishes = λ s text w. w ≡ text_at s text;
  Yields = λ s text v. (s ≡ begun) × (v ≡ text);
  IsOver = λ s. s ≡ ended;
  starts = refl;
  takes_dictionary = refl;
  packs = λ text. refl;
  finishing = λ s text w room h f. rw f (
      copy_step-Writes (λ _. Unit {0}) (λ s text w. w ≡ text_at s text) begun (text_at s text) room
        tt refl);
  packed_some = λ text. omega arith;
  starts_inflating = refl;
  asks = λ text room h. (refl, refl, refl, (refl, refl));
  yielding = λ s text v room h (at, f).
      rw (at, f)
        (copy_step-Writes (λ s. s ≡ ended) (λ s text v. (s ≡ begun) × (v ≡ text)) ended text room
          refl (refl, refl));
  over = λ s text room h at. rw at (refl, refl, refl);
}

host_name-IsSendable : IsSendable marking marking_contract host_name
unfolding pack_text be_store_16
host_name-IsSendable = record {
  plain = host_name-ArePlain;
  some_names = omega arith;
  few = omega arith;
  packs_small = omega arith;
  deflates_small = omega arith;
}

abbrev six : Answers
six = 1 ∷ 2 ∷ 3 ∷ 4 ∷ 5 ∷ 6 ∷ []

abbrev new_env : Env Stage
new_env = record {
  zlib_in = new;
  store = no_store;
  streamhash = some_hash;
  rounds = 1;
  memory = six;
}

six_given : All (λ p. p ≢ 0) six
six_given =
    (omega arith, (omega arith, (omega arith, (omega arith, (omega arith, (omega arith, tt))))))

enough : answers_needed host_name < length six
unfolding pack_text be_store_16
enough = omega arith

deflates : IsEnough (marking_contract.packed (block_bytes host_name)) six
unfolding pack_text be_store_16
deflates = record { given = six_given; many = omega arith }

inflate_parse-deflate_example :
    (bytes : List ℕ) × (d : Deflated) × (env' : Env Stage) × (spdy_nv_block_pack
        (block_of host_name)
        (1 ∷ [])
      ≡ done (ok, bytes, length bytes, []))
    × (spdy_zlib_deflate marking bytes (length bytes) 0 six ≡ done d)
    × ((d.code ≡ ok) × (d.data_used ≡ 0 + length bytes))
    × (spdy_nv_block_inflate_parse marking spdy_nv_block_init d.dest (length d.dest) new_env
        ≡ done (ok, block_of host_name, env'))
inflate_parse-deflate_example =
    inflate_parse-deflate marking marking_contract host_name host_name-IsSendable 1 0 [] six new_env
      (omega arith) deflates refl six_given (omega (arith, enough))

second_block_insuff_example :
    (env' : Env Stage) × (env'' : Env Stage) × (spdy_nv_block_inflate_parse marking
        spdy_nv_block_init
        (marking_contract.packed (block_bytes host_name))
        (length (marking_contract.packed (block_bytes host_name)))
        new_env
      ≡ done (ok, block_of host_name, env'))
    × (spdy_nv_block_inflate_parse marking spdy_nv_block_init (120 ∷ 0 ∷ 0 ∷ []) 3 env'
        ≡ done (insuff, spdy_nv_block_init, env''))
second_block_insuff_example =
    second_block_insuff marking marking_contract host_name (120 ∷ 0 ∷ 0 ∷ []) new_env
      host_name-IsSendable (omega arith) (omega arith) refl six_given enough

-- A chunk of zeros, with other bytes behind it.
abbrev long_with : List ℕ → List ℕ
long_with rest = replicate chunk 0 ++ rest

length_zeros : (n : ℕ) (rest : List ℕ) → n ≤ length (replicate n 0 ++ rest)
length_zeros zero rest = omega arith
length_zeros (suc n) rest = omega (arith, length_zeros n rest)

take_zeros : (n : ℕ) (rest : List ℕ) → take n (replicate n 0 ++ rest) ≡ replicate n 0
take_zeros zero rest = refl
take_zeros (suc n) rest = rw (take_zeros n rest)

long_with-AgreeInChunk : (xs ys : List ℕ) → AgreeInChunk (long_with xs) (long_with ys)
long_with-AgreeInChunk xs ys = record {
  full = length_zeros chunk xs;
  full' = length_zeros chunk ys;
  same = take_zeros chunk xs ∙ sym (take_zeros chunk ys);
}

spdy_zlib_one_chunk_example :
    (spdy_zlib_deflate copying (long_with (1 ∷ [])) 16385 0 six
      ≡ spdy_zlib_deflate copying (long_with (2 ∷ [])) 16385 0 six)
    × (spdy_zlib_inflate copying tt (long_with (1 ∷ [])) 16385 six
        ≡ spdy_zlib_inflate copying tt (long_with (2 ∷ [])) 16385 six)
spdy_zlib_one_chunk_example =
    spdy_zlib_one_chunk copying (long_with (1 ∷ [])) (long_with (2 ∷ []))
      (long_with-AgreeInChunk (1 ∷ []) (2 ∷ [])) tt 16385 0 six
