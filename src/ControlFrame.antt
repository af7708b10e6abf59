-- ===== src/ControlFrame.antt =====
-- src/spdy_control_frame.c and spdy_control_frame.h: control frames.
pub mod Pack
pub mod Supply
pub mod Announced
pub mod Ends
use Prim.Native.String.{String}
use spindly.Prelude.{
  ℕ, ◌+◌, ◌-◌, ◌%◌, ◌^◌, Bool, true, false, Option, none, List, [], ◌∷◌, ◌++◌, Run, done, abort,
  ◌>>=◌, ltb, ◌==◌, if◌then◌else◌,
}
use spindly.Codes.{Code, ok, inval, insuff, small_buffer, succeeded}
use spindly.Bytes.{load_8, be_load_16, be_load_32, be_store_16, be_store_24}
use spindly.Memory.{Answers}
use spindly.SpdyData.{SpdyData, available, at_cursor, advance}
use spindly.Zlib.{Zlib}
use spindly.NvBlock.{NvBlock, spdy_nv_block_init}
use spindly.Env.{Env}
use spindly.RstStream.{RstStream, spdy_rst_stream_parse}
use spindly.SynStream.{
  SynStream, spdy_syn_stream_init, spdy_syn_stream_parse, spdy_syn_stream_pack,
  spdy_syn_stream_destroy,
}
use spindly.SynReply.{SynReply, spdy_syn_reply_parse, spdy_syn_reply_pack}
use spindly.Headers.{Headers, spdy_headers_parse}

-- enum SPDY_CTRL_TYPES
abbrev pub ctrl_syn_stream : ℕ
ctrl_syn_stream = 1

abbrev pub ctrl_syn_reply : ℕ
ctrl_syn_reply = 2

abbrev pub ctrl_rst_stream : ℕ
ctrl_rst_stream = 3

abbrev pub ctrl_settings : ℕ
ctrl_settings = 4

abbrev pub ctrl_noop : ℕ
ctrl_noop = 5

abbrev pub ctrl_ping : ℕ
ctrl_ping = 6

abbrev pub ctrl_goaway : ℕ
ctrl_goaway = 7

abbrev pub ctrl_headers : ℕ
ctrl_headers = 8

abbrev pub ctrl_window_update : ℕ
ctrl_window_update = 9

-- The union `obj`: the code reads a member only in a frame of the member's type.
pub record ControlObj : Type 0 where
  pub syn_stream : SynStream
  pub syn_reply : SynReply
  pub rst_stream : RstStream
  pub headers : Headers

pub record ControlFrame : Type 0 where
  pub header_parsed : Bool
  pub version : ℕ
  pub type : ℕ
  pub flags : ℕ
  pub length : ℕ
  pub obj : ControlObj

-- What memset leaves.
abbrev pub zero_obj : ControlObj
zero_obj = record {
  syn_stream = record {
    stream_id = 0;
    associated_to = 0;
    priority = 0;
    nv_block = spdy_nv_block_init;
  };
  syn_reply = record { stream_id = 0; nv_block = spdy_nv_block_init };
  rst_stream = record { stream_id = 0; status_code = 0 };
  headers = record { stream_id = 0; nv_block = none };
}

abbrev pub zero_frame : ControlFrame
zero_frame = record {
  header_parsed = false;
  version = 0;
  type = 0;
  flags = 0;
  length = 0;
  obj = zero_obj;
}

abbrev pub spdy_control_frame_init : ControlFrame → ControlFrame
spdy_control_frame_init frame = record frame { header_parsed = false }

-- SPDY_CONTROL_FRAME_MIN_LENGTH
abbrev pub min_length : ℕ
min_length = 8

unfoldable pub spdy_control_frame_parse_header :
    ControlFrame → SpdyData → Run (Code × ControlFrame × SpdyData)
spdy_control_frame_parse_header frame d =
    if frame.header_parsed
    then done (ok, frame, d)
    else (if ltb (available d) min_length
        then done (insuff, frame, record d { needed = min_length - available d })
        else (do
          first ← be_load_16 (at_cursor d)
          let d2 = advance d 2
          second ← be_load_16 (at_cursor d2)
          let d4 = advance d2 2
          third ← load_8 (at_cursor d4)
          word ← be_load_32 (at_cursor d4)
          done (
            ok,
            record frame {
              header_parsed = true;
              version = first % 2 ^ 15;
              type = second;
              flags = third;
              length = word % 2 ^ 24;
            },
            advance d4 4,
          )))

module _ (z : Zlib) where
  open z use {Strm}

  -- The `switch` over the type. A payload that has no parser is left where it is.
  unfoldable pub parse_payload :
      ControlFrame → SpdyData → Env Strm → Run (Code × ControlFrame × SpdyData × Env Strm)
  parse_payload frame d env =
      let obj = frame.obj in
      if frame.type == ctrl_syn_stream
      then (do
        (rc, syn, d', env') ← spdy_syn_stream_parse z obj.syn_stream d frame.length env
        done (rc, record frame { obj = record obj { syn_stream = syn } }, d', env'))
      else (if frame.type == ctrl_syn_reply
          then (do
            (rc, rep, d', env') ← spdy_syn_reply_parse z obj.syn_reply d frame.length env
            done (rc, record frame { obj = record obj { syn_reply = rep } }, d', env'))
          else (if frame.type == ctrl_rst_stream
              then (do
                (rc, rst) ← spdy_rst_stream_parse obj.rst_stream (at_cursor d) frame.length
                done (rc, record frame { obj = record obj { rst_stream = rst } }, d, env))
              else (if frame.type == ctrl_headers
                  then (do
                    (rc, headers, d', env') ← spdy_headers_parse z obj.headers d frame.length env
                    done (
                      if succeeded rc then ok else inval,
                      record frame { obj = record obj { headers = headers } },
                      d',
                      env',
                    ))
                  else done (ok, frame, d, env))))

  unfoldable pub spdy_control_frame_parse :
      ControlFrame → SpdyData → Env Strm → Run (Code × ControlFrame × SpdyData × Env Strm)
  unfolding parse_payload
  spdy_control_frame_parse frame d env = do
    (rc, frame', d') ← spdy_control_frame_parse_header frame d
    if succeeded rc
        then (if ltb (available d') frame'.length
            then done (insuff, frame', record d' { needed = frame'.length - available d' }, env)
            else parse_payload frame' d' env)
        else done (rc, frame', d', env)

-- `x | 0x8000` on a uint16_t.
abbrev pub control_bit : ℕ → ℕ
control_bit version = version % 2 ^ 15 + 2 ^ 15

-- The code, the bytes and `*outsize`.
unfoldable pub spdy_control_frame_pack_header : (bufsize : ℕ) → ControlFrame → Code × List ℕ × ℕ
spdy_control_frame_pack_header bufsize frame = if ltb bufsize 8 then (small_buffer, [], 0) else (
  ok,
  be_store_16 (control_bit frame.version)
      ++ (be_store_16 frame.type ++ frame.flags ∷ be_store_24 frame.length),
  8,
)

module _ (z : Zlib) where
  -- The `switch` over the type: a type other than two fails an assertion.
  unfoldable pub pack_payload :
      (bufsize : ℕ) → ControlFrame → Answers → Run (Code × List ℕ × ℕ × Answers)
  pack_payload bufsize frame memory =
      if frame.type == ctrl_syn_stream
      then spdy_syn_stream_pack z bufsize frame.obj.syn_stream memory
      else (if frame.type == ctrl_syn_reply
          then spdy_syn_reply_pack z bufsize frame.obj.syn_reply memory
          else abort)

  -- `8 + frame->length` is a sum of uint32_t. The bytes and `*outsize`; an error gives neither a meaning.
  unfoldable pub spdy_control_frame_pack :
      (bufsize : ℕ) → ControlFrame → Answers → Run (Code × List ℕ × ℕ × Answers)
  unfolding pack_payload
  spdy_control_frame_pack bufsize frame memory =
      if ltb bufsize ((8 + frame.length) % 2 ^ 32)
      then done (small_buffer, [], 0, memory)
      else (let (rc, header, headersize) = spdy_control_frame_pack_header bufsize frame in
          if succeeded rc
          then (do
            (rc', payload, payloadsize, later) ← pack_payload (bufsize - headersize) frame memory
            if succeeded rc'
                then done (ok, header ++ payload, headersize + payloadsize, later)
                else done (rc', [], 0, later))
          else done (rc, [], 0, memory))

unfoldable pub spdy_control_frame_get_type_name : ℕ → String
spdy_control_frame_get_type_name type =
    if type == ctrl_syn_stream
    then "SYN_STREAM"
    else if type == ctrl_syn_reply
    then "SYN_REPLY"
    else if type == ctrl_rst_stream
    then "RST_STREAM"
    else if type == ctrl_settings
    then "SETTINGS"
    else if type == ctrl_noop
    then "NOOP"
    else if type == ctrl_ping
    then "PING"
    else if type == ctrl_goaway
    then "GOAWAY"
    else if type == ctrl_headers
    then "HEADERS"
    else if type == ctrl_window_update
    then "WINDOW_UPDATE"
    else "UNKNOWN"

unfoldable pub spdy_control_frame_destroy : ControlFrame → Run (Unit {0})
spdy_control_frame_destroy frame =
    if frame.type == ctrl_syn_stream then spdy_syn_stream_destroy frame.obj.syn_stream else done tt

-- Each of these clears the frame that it is given, so its value does not depend on it.
unfoldable pub spdy_control_mk_syn_stream :
    (stream_id associated_to prio : ℕ) → Option NvBlock → Run (Code × ControlFrame)
spdy_control_mk_syn_stream stream_id associated_to prio nv_block = do
  (rc, syn) ← spdy_syn_stream_init zero_obj.syn_stream stream_id associated_to prio nv_block
  done (
    rc,
    record zero_frame {
      header_parsed = true;
      version = 2;
      type = ctrl_syn_stream;
      length = 10;
      obj = record zero_obj { syn_stream = syn };
    },
  )

-- The block is not used.
unfoldable pub spdy_control_mk_syn_reply : (stream_id : ℕ) → Option NvBlock → Code × ControlFrame
spdy_control_mk_syn_reply stream_id nv_block = (
  ok,
  record zero_frame {
    header_parsed = true;
    version = 2;
    type = ctrl_syn_reply;
    length = 10;
    obj = record zero_obj {
      syn_reply = record { stream_id = stream_id; nv_block = spdy_nv_block_init };
    };
  },
)

unfoldable pub spdy_control_mk_rst_stream : (stream_id status : ℕ) → Code × ControlFrame
spdy_control_mk_rst_stream stream_id status = (
  ok,
  record zero_frame {
    header_parsed = true;
    version = 2;
    type = ctrl_rst_stream;
    length = 8;
    obj = record zero_obj { rst_stream = record { stream_id = stream_id; status_code = status } };
  },
)
