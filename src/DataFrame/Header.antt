-- ===== src/DataFrame/Header.antt =====
-- The header of a data frame there and back.
use spindly.Prelude.{ℕ, ◌%◌, ◌^◌, ◌≤◌, ◌<◌, ◌≡◌, none, List, ◌++◌, done, arith, le→ltb}
use spindly.Codes.{ok}
use spindly.Bytes.{IsByte, load_8, be_load_32, be_store_32}
use spindly.SpdyData.{SpdyData, at_cursor, advance, IsWithin}
use spindly.SpdyData.Laws.{available-length, at_cursor-advance}
use spindly.DataFrame.{DataFrame, spdy_data_frame_parse_header, spdy_data_frame_pack_header}

-- Parsing the header that was packed gives the frame's fields, the stream id without its bits 28 to 30, and
-- moves the cursor behind the 8 bytes.
pub parse_header-pack_header :
    (frame g : DataFrame) (d : SpdyData) (bufsize : ℕ) (rest : List ℕ)
    → IsWithin d
    → g.stream_id ≡ 0
    → frame.stream_id < 2 ^ 31
    → IsByte frame.flags
    → frame.length < 2 ^ 24
    → 8 ≤ bufsize
    → at_cursor d ≡ (spdy_data_frame_pack_header bufsize frame).1 ++ rest
    → spdy_data_frame_parse_header g d
      ≡ done (
        ok,
        record {
          stream_id = frame.stream_id % 2 ^ 28;
          flags = frame.flags;
          length = frame.length;
          payload = none;
        },
        advance d 8,
      )
unfolding spdy_data_frame_parse_header spdy_data_frame_pack_header be_store_32 be_load_32 load_8
parse_header-pack_header frame g d bufsize rest w fresh hid hflags hlen size e =
    rw (fresh, available-length d w, at_cursor-advance d 4, e, le→ltb bufsize 8 size) (ground arith)
