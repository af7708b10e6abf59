-- ===== src/SynReply/Header.antt =====
-- The fixed part of a SYN_REPLY payload there and back.
use spindly.Prelude.{
  ℕ, ◌%◌, ◌^◌, ◌≡◌, ◌∙◌, List, ◌++◌, done, arith, ltb, Bool-cases, inl, inr, >>=-eq-done,
  append_assoc,
}
use spindly.Codes.{ok}
use spindly.Bytes.{be_load_32, be_store_16, be_store_32}
use spindly.Memory.{Answers}
use spindly.SpdyData.{SpdyData, at_cursor, advance, IsWithin}
use spindly.SpdyData.Laws.{available-length}
use spindly.Zlib.{Zlib, spdy_zlib_deflate}
use spindly.SynStream.{pack_empty_block}
use spindly.SynReply.{SynReply, spdy_syn_reply_parse_header, spdy_syn_reply_pack}

abbrev fixed_part : SynReply → List ℕ
fixed_part rep = be_store_32 rep.stream_id ++ be_store_16 0

parse_fixed :
    (rep other : SynReply) (d : SpdyData) (rest : List ℕ)
    → IsWithin d
    → at_cursor d ≡ fixed_part rep ++ rest
    → spdy_syn_reply_parse_header other d
      ≡ done (ok, record other { stream_id = rep.stream_id % 2 ^ 31 }, advance d 6)
unfolding spdy_syn_reply_parse_header be_store_32 be_store_16 be_load_32
parse_fixed rep other d rest w e = rw (available-length d w, e) (ground arith)

-- What a successful pack starts with.
pack_starts :
    (z : Zlib) (bufsize : ℕ) (rep : SynReply) (memory : Answers) (bytes : List ℕ) (size : ℕ)
    (later : Answers)
    → spdy_syn_reply_pack z bufsize rep memory ≡ done (ok, bytes, size, later)
    → (block : List ℕ) × (bytes ≡ fixed_part rep ++ block)
unfolding spdy_syn_reply_pack pack_empty_block
pack_starts z bufsize rep memory bytes size later e = elim (Bool-cases (ltb bufsize 6)) [
  | inl cut ↦ let no_room = rw cut at e in absurd (ground arith)
  | inr fits ↦
      let packed = rw fits at e in
      let (r, run, rest) = >>=-eq-done (spdy_zlib_deflate z (be_store_16 0) 2 0 memory) _ packed in
      (r.dest, ground arith)
]

-- Whenever spdy_syn_reply_pack succeeds, whatever zlib does, parsing the header of its bytes gives the stream
-- id without its top bit, and moves the cursor by six.
pub syn_reply_parse_header-pack :
    (z : Zlib) (bufsize : ℕ) (rep other : SynReply) (memory : Answers) (bytes : List ℕ) (size : ℕ)
    (later : Answers) (d : SpdyData) (rest : List ℕ)
    → spdy_syn_reply_pack z bufsize rep memory ≡ done (ok, bytes, size, later)
    → IsWithin d
    → at_cursor d ≡ bytes ++ rest
    → spdy_syn_reply_parse_header other d
      ≡ done (ok, record other { stream_id = rep.stream_id % 2 ^ 31 }, advance d 6)
syn_reply_parse_header-pack z bufsize rep other memory bytes size later d rest packed w e =
    let (block, starts) = pack_starts z bufsize rep memory bytes size later packed in
    parse_fixed rep other d (block ++ rest) w
      (e ∙ (rw starts (append_assoc (fixed_part rep) block rest)))
