-- ===== src/Tests/Codec.antt =====
-- Frames and name/value blocks of a few bytes.
use spindly.Prelude.{
  ℕ, ◌%◌, ◌^◌, ◌≡◌, refl, none, some, List, [], ◌∷◌, ◌++◌, done, arith, length, leb, take, drop,
  if◌then◌else◌,
}
use spindly.Codes.{Code, ok}
use spindly.Memory.{Answers}
use spindly.Bytes.{be_load_32, be_store_32}
use spindly.SpdyData.{SpdyData, spdy_data_use, at_cursor, advance}
use spindly.DataFrame.{DataFrame, spdy_data_frame_parse, spdy_data_frame_pack_header}
use spindly.DataFrame.Payload.{parse-pack_header}
use spindly.NvBlock.{
  NvBlock, spdy_nv_block_init, spdy_nv_block_pack, spdy_nv_block_parse, spdy_nv_block_destroy,
}
use spindly.NvBlock.Wire.{Names, ArePlain, block_of, answers_left}
use spindly.NvBlock.RoundTrip.{parse-pack}
use spindly.NvBlock.Safety.{parse-destroy}
use spindly.RstStream.{RstStream, spdy_rst_stream_parse, spdy_rst_stream_parse-status}
use spindly.Zlib.{z_ok, z_stream_end, Zlib}

-- A zlib that only copies.
abbrev pub copying : Zlib
copying = record {
  Strm = Unit {0};
  deflate_init = (z_ok, tt);
  deflate_set_dictionary = λ s d. (z_ok, tt);
  deflate = λ s f next_in room. record {
    ret = if leb (length next_in) room then z_stream_end else z_ok;
    strm = tt;
    rest_in = drop room next_in;
    out = take room next_in;
  };
  inflate_init2 = λ call. (z_ok, tt);
  inflate_set_dictionary = λ s d. (z_ok, tt);
  inflate = λ s f next_in room. record {
    ret = if leb (length next_in) room then z_stream_end else z_ok;
    strm = tt;
    rest_in = drop room next_in;
    out = take room next_in;
  };
  inflate_end = λ s. s;
}

abbrev pub host_name : Names
host_name = (104 ∷ 105 ∷ [], 49 ∷ []) ∷ []

pub host_name-ArePlain : ArePlain host_name
host_name-ArePlain = (
  record { no_nul = (omega arith, (omega arith, tt)); short = omega arith },
  record { no_nul = (omega arith, tt); short = omega arith },
  tt,
)

parse-pack_example :
    (bytes : List ℕ) × (spdy_nv_block_pack (block_of host_name) (1 ∷ [])
      ≡ done (ok, bytes, length bytes, []))
    × (spdy_nv_block_parse spdy_nv_block_init (bytes ++ 9 ∷ []) (1 ∷ 2 ∷ 3 ∷ [])
        ≡ done (ok, block_of host_name, answers_left host_name (2 ∷ 3 ∷ [])))
parse-pack_example =
    parse-pack host_name (9 ∷ []) 1 1 [] (2 ∷ 3 ∷ []) host_name-ArePlain (omega arith) (omega arith)
      (omega arith) (omega arith) (omega arith, omega arith, tt)

-- Two pairs are announced and the second one is cut off.
parse-destroy_example :
    (rc : Code) × (block : NvBlock) × (later : Answers) × (spdy_nv_block_parse spdy_nv_block_init
        (0 ∷ 2 ∷ 0 ∷ 1 ∷ 65 ∷ 0 ∷ 1 ∷ 66 ∷ 0 ∷ 9 ∷ [])
        (1 ∷ 2 ∷ 3 ∷ [])
      ≡ done (rc, block, later))
    × (spdy_nv_block_destroy block ≡ done tt)
parse-destroy_example =
    parse-destroy (0 ∷ 2 ∷ 0 ∷ 1 ∷ 65 ∷ 0 ∷ 1 ∷ 66 ∷ 0 ∷ 9 ∷ []) (1 ∷ 2 ∷ 3 ∷ [])

abbrev three_bytes : DataFrame
three_bytes = record { stream_id = 5; flags = 1; length = 3; payload = none }

abbrev no_frame : DataFrame
no_frame = record { stream_id = 0; flags = 0; length = 0; payload = none }

abbrev received : SpdyData
received = spdy_data_use (0 ∷ 0 ∷ 0 ∷ 5 ∷ 1 ∷ 0 ∷ 0 ∷ 3 ∷ 10 ∷ 20 ∷ 30 ∷ 40 ∷ [])

received-pack_header :
    at_cursor received
    ≡ (spdy_data_frame_pack_header 8 three_bytes).1 ++ ((10 ∷ 20 ∷ 30 ∷ []) ++ 40 ∷ [])
unfolding at_cursor spdy_data_frame_pack_header be_store_32
received-pack_header = refl

parse-pack_header_example :
    spdy_data_frame_parse no_frame received (7 ∷ [])
    ≡ done (
      ok,
      record three_bytes {
        stream_id = three_bytes.stream_id % 2 ^ 28;
        payload = some (10 ∷ 20 ∷ 30 ∷ []);
      },
      advance (advance received 8) 3,
      [],
    )
parse-pack_header_example =
    parse-pack_header three_bytes no_frame received 8 (10 ∷ 20 ∷ 30 ∷ []) (40 ∷ []) 7 []
      (record { inside = omega arith; small = omega arith }) refl (omega arith) (omega arith)
      (omega arith) (omega arith) refl (omega arith) received-pack_header

abbrev no_rst : RstStream
no_rst = record { stream_id = 0; status_code = 0 }

abbrev some_rst : RstStream
some_rst = record { stream_id = 3; status_code = 3 }

rst_run : spdy_rst_stream_parse no_rst (0 ∷ 0 ∷ 0 ∷ 3 ∷ 0 ∷ 0 ∷ 0 ∷ 1 ∷ []) 8 ≡ done (ok, some_rst)
unfolding spdy_rst_stream_parse be_load_32
rst_run = refl

spdy_rst_stream_parse-status_example : some_rst.stream_id ≡ some_rst.status_code % 2 ^ 31
spdy_rst_stream_parse-status_example =
    spdy_rst_stream_parse-status no_rst some_rst (0 ∷ 0 ∷ 0 ∷ 3 ∷ 0 ∷ 0 ∷ 0 ∷ 1 ∷ []) 8 rst_run
