-- ===== src/SynStream/Header.antt =====
-- The fixed part of a SYN_STREAM payload there and back.
use spindly.Prelude.{
  ℕ, ◌*◌, ◌%◌, ◌^◌, ◌≡◌, ◌∙◌, List, ◌++◌, done, arith, ltb, Bool-cases, inl, inr, >>=-eq-done,
  append_assoc,
}
use spindly.Codes.{ok}
use spindly.Bytes.{load_8, be_load_32, be_store_16, be_store_32}
use spindly.Memory.{Answers}
use spindly.SpdyData.{SpdyData, at_cursor, advance, IsWithin}
use spindly.SpdyData.Laws.{available-length, at_cursor-advance}
use spindly.Zlib.{Zlib, spdy_zlib_deflate}
use spindly.SynStream.{
  SynStream, spdy_syn_stream_parse_header, pack_empty_block, spdy_syn_stream_pack,
}

abbrev pub fixed_part : SynStream → List ℕ
fixed_part str =
    be_store_32 str.stream_id
    ++ (be_store_32 str.associated_to ++ be_store_16 (str.priority * 2 ^ 14))

pub parse_fixed :
    (str syn : SynStream) (d : SpdyData) (rest : List ℕ)
    → IsWithin d
    → at_cursor d ≡ fixed_part str ++ rest
    → spdy_syn_stream_parse_header syn d
      ≡ done (
        ok,
        record syn {
          stream_id = str.stream_id % 2 ^ 31;
          associated_to = str.associated_to % 2 ^ 31;
          priority = str.priority % 4;
        },
        advance (advance (advance d 4) 4) 2,
      )
unfolding spdy_syn_stream_parse_header be_store_32 be_store_16 be_load_32 load_8
parse_fixed str syn d rest w e =
    rw (available-length d w, at_cursor-advance (advance d 4) 4, at_cursor-advance d 4, e)
      (ground arith)

module _ (z : Zlib) where
  -- What a successful pack starts with.
  pack_starts :
      (bufsize : ℕ) (str : SynStream) (memory : Answers) (bytes : List ℕ) (size : ℕ)
      (later : Answers)
      → spdy_syn_stream_pack z bufsize str memory ≡ done (ok, bytes, size, later)
      → (block : List ℕ) × (bytes ≡ fixed_part str ++ block)
  unfolding spdy_syn_stream_pack pack_empty_block
  pack_starts bufsize str memory bytes size later e = elim (Bool-cases (ltb bufsize 10)) [
    | inl cut ↦ let no_room = rw cut at e in absurd (ground arith)
    | inr fits ↦
        let packed = rw fits at e in
        let (r, run, rest) =
          >>=-eq-done (spdy_zlib_deflate z (be_store_16 0) 2 0 memory) _ packed in
        (r.dest, ground arith)
  ]

  -- Whenever spdy_syn_stream_pack succeeds, whatever zlib does, parsing the header of its bytes gives the ids
  -- without their top bits and the two low bits of the priority, and moves the cursor by ten.
  pub parse_header-pack :
      (bufsize : ℕ) (str syn : SynStream) (memory : Answers) (bytes : List ℕ) (size : ℕ)
      (later : Answers) (d : SpdyData) (rest : List ℕ)
      → spdy_syn_stream_pack z bufsize str memory ≡ done (ok, bytes, size, later)
      → IsWithin d
      → at_cursor d ≡ bytes ++ rest
      → spdy_syn_stream_parse_header syn d
        ≡ done (
          ok,
          record syn {
            stream_id = str.stream_id % 2 ^ 31;
            associated_to = str.associated_to % 2 ^ 31;
            priority = str.priority % 4;
          },
          advance (advance (advance d 4) 4) 2,
        )
  parse_header-pack bufsize str syn memory bytes size later d rest packed w e =
      let (block, starts) = pack_starts bufsize str memory bytes size later packed in
      parse_fixed str syn d (block ++ rest) w
        (e ∙ (rw starts (append_assoc (fixed_part str) block rest)))
