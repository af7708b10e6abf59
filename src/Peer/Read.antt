-- ===== src/Peer/Read.antt =====
-- The frame of a new stream, read by the other end: src/spdy_control_frame.c and src/spdy_syn_stream.c.
use spindly.Prelude.{
  ℕ, ◌+◌, ◌%◌, ◌^◌, ◌≤◌, ◌<◌, ◌≡◌, refl, ap, true, false, none, List, [], ◌∷◌, ◌++◌, done, arith,
  length, le→ltb, drop, ◌∙◌,
}
use spindly.Codes.{ok}
use spindly.Bytes.{be_store_16, be_store_24, be_store_32, be_load_16}
use spindly.SpdyData.{SpdyData, spdy_data_use, available, at_cursor, advance, IsWithin}
use spindly.SpdyData.Laws.{available-length, at_cursor-advance}
use spindly.Hash.{hash_get}
use spindly.Zlib.{Zlib, Inflated, spdy_zlib_inflate}
use spindly.Env.{Env}
use spindly.NvBlock.{NvBlock, spdy_nv_block_init, spdy_nv_block_parse}
use spindly.NvInflate.{spdy_nv_block_inflate_parse}
use spindly.SynStream.{SynStream, spdy_syn_stream_parse, parse_block, advance_payload}
use spindly.SynStream.Header.{fixed_part, parse_fixed}
use spindly.ControlFrame.{
  ControlFrame, spdy_control_frame_parse, parse_payload, spdy_control_frame_pack_header,
}
use spindly.ControlFrame.Pack.{control_parse_header-pack_header}
use spindly.Phys.{phys_outbufsize}
use spindly.Peer.{opened_syn, opened_frame, opened_bytes}

-- The empty block, read.
abbrev pub empty_block : NvBlock
empty_block = record { has_count = true; count = 0; pairs_parsed = 0; pairs = none }

abbrev pub read_syn : (id prio : ℕ) → SynStream
read_syn id prio = record {
  stream_id = id % 2 ^ 31;
  associated_to = 0;
  priority = prio % 4;
  nv_block = empty_block;
}

-- The frame that the other end has read into `g`.
abbrev pub read_frame : ControlFrame → (id prio : ℕ) → ControlFrame
read_frame g id prio = record g {
  header_parsed = true;
  version = 2;
  type = 1;
  flags = 0;
  length = 10;
  obj = record (g.obj) { syn_stream = read_syn id prio };
}

-- Ten bytes of the block are inflated to the empty block's two bytes.
pub record InflatesEmpty (z : Zlib) (block : List ℕ) (env : Env (z.Strm)) : Type 0 where
  pub result : Inflated (z.Strm)
  pub run : spdy_zlib_inflate z env.zlib_in block 10 env.memory ≡ done result
  pub fine : result.code ≡ ok
  pub empty : result.dest ≡ 0 ∷ 0 ∷ []
  pub enough : 10 ≤ length block
  pub small : length block < 2 ^ 62

pub length-opened_bytes :
    (id prio : ℕ) (block : List ℕ) → length (opened_bytes id prio block) ≡ 18 + length block
unfolding spdy_control_frame_pack_header be_store_16 be_store_24 be_store_32
length-opened_bytes id prio block = omega arith

opened_at : (bytes : List ℕ) → at_cursor (spdy_data_use bytes) ≡ bytes
unfolding at_cursor
opened_at bytes = refl

opened_behind :
    (id prio : ℕ) (block : List ℕ)
    → at_cursor (advance (spdy_data_use (opened_bytes id prio block)) 8)
      ≡ fixed_part (opened_syn id prio) ++ block
unfolding at_cursor spdy_control_frame_pack_header be_store_16 be_store_24 be_store_32
opened_behind id prio block = refl

at_ten : (d : SpdyData) → advance (advance (advance d 4) 4) 2 ≡ advance d 10
at_ten d = ap (λ c. record d { cursor = c }) (omega arith)

stays_at_ten :
    (d : SpdyData) → advance_payload (advance (advance (advance d 4) 4) 2) 10 10 ≡ advance d 10
stays_at_ten d = ap (λ c. record d { cursor = c }) (omega arith)

module _ (z : Zlib) (id prio : ℕ) (block : List ℕ) (env : Env (z.Strm))
    (i : InflatesEmpty z block env) where
  -- The environment behind the frame.
  abbrev pub read_env : Env (z.Strm)
  read_env = record env { zlib_in = i.result.strm; memory = i.result.memory }

  inflate_parse-empty :
      spdy_nv_block_inflate_parse z spdy_nv_block_init block 10 env
      ≡ done (ok, empty_block, read_env)
  unfolding spdy_nv_block_inflate_parse spdy_nv_block_parse be_load_16
  inflate_parse-empty = rw (i.run, i.fine, i.empty) refl

  drop_fixed : drop 10 (fixed_part (opened_syn id prio) ++ block) ≡ block
  unfolding be_store_16 be_store_32
  drop_fixed = refl

  length_fixed : length (fixed_part (opened_syn id prio) ++ block) ≡ 10 + length block
  unfolding be_store_16 be_store_32
  length_fixed = omega arith

  syn_stream_parse-opened :
      (syn : SynStream) (d : SpdyData)
      → IsWithin d
      → at_cursor d ≡ fixed_part (opened_syn id prio) ++ block
      → hash_get env.rounds env.store env.streamhash (id % 2 ^ 31) ≡ done 0
      → spdy_syn_stream_parse z syn d 10 env ≡ done (ok, read_syn id prio, advance d 10, read_env)
  unfolding spdy_syn_stream_parse parse_block
  syn_stream_parse-opened syn d w e new =
      let have : available d ≡ 10 + length block = available-length d w ∙ (rw e length_fixed) in
      let behind : at_cursor (advance d 10) ≡ block = at_cursor-advance d 10 ∙ (rw e drop_fixed) in
      rw
        (
          le→ltb (available d) 10 (omega (arith, have)),
          le→ltb (available d) 12 (omega (arith, have, i.enough)),
          parse_fixed (opened_syn id prio) syn d block w e,
          at_ten d,
          new,
          behind,
          inflate_parse-empty,
        )
        (ap (λ e. done (ok, read_syn id prio, e, read_env)) (stays_at_ten d))

  -- The whole frame, from the start of the bytes.
  pub spdy_control_frame_parse-opened :
      (g : ControlFrame)
      → g.header_parsed ≡ false
      → hash_get env.rounds env.store env.streamhash (id % 2 ^ 31) ≡ done 0
      → spdy_control_frame_parse z g (spdy_data_use (opened_bytes id prio block)) env
        ≡ done (
          ok,
          read_frame g id prio,
          advance (advance (spdy_data_use (opened_bytes id prio block)) 8) 10,
          read_env,
        )
  unfolding spdy_control_frame_parse parse_payload
  spdy_control_frame_parse-opened g fresh new =
      let d = spdy_data_use (opened_bytes id prio block) in
      let size = length-opened_bytes id prio block in
      let within : IsWithin d = record {
        inside = omega arith;
        small = omega (arith, size, i.small);
      } in
      let header =
        control_parse_header-pack_header (opened_frame id prio) g d phys_outbufsize
          (fixed_part (opened_syn id prio) ++ block) within fresh (omega arith) (omega arith)
          (omega arith) (omega arith) (opened_at (opened_bytes id prio block)) in
      let w8 : IsWithin (advance d 8) = record {
        inside = omega (arith, size);
        small = omega (arith, size, i.small);
      } in
      let rest : at_cursor (advance d 8) ≡ fixed_part (opened_syn id prio) ++ block =
        opened_behind id prio block in
      let have : available (advance d 8) ≡ 10 + length block =
        available-length (advance d 8) w8 ∙ (rw rest length_fixed) in
      rw
        (
          header,
          le→ltb (available (advance d 8)) 10 (omega (arith, have)),
          syn_stream_parse-opened g.obj.syn_stream (advance d 8) w8 rest new,
        )
        refl
