-- ===== src/Frame.antt =====
-- src/spdy_frame.c and spdy_frame.h: a frame of either kind.
pub mod Again
pub mod Supply
pub mod Kept
pub mod Ends
use spindly.Prelude.{◌/◌, ◌^◌, Bool, true, false, Run, done, ◌>>=◌, ◌==◌, if◌then◌else◌}
use spindly.Codes.{Code, ok, succeeded}
use spindly.Bytes.{load_8}
use spindly.SpdyData.{SpdyData, at_cursor}
use spindly.Zlib.{Zlib}
use spindly.Env.{Env}
use spindly.ControlFrame.{
  ControlFrame, spdy_control_frame_init, spdy_control_frame_parse, spdy_control_frame_destroy,
}
use spindly.DataFrame.{DataFrame, spdy_data_frame_init, spdy_data_frame_parse}

-- enum SPDY_FRAME_TYPE
pub data FrameType : Type 0 where
  data_frame control_frame : FrameType

-- The union `frame` is the members `control` and `payload` (its `data`): the code uses the one of the
-- frame's type. The links `prev` and `next` are written once, and never read.
pub record Frame : Type 0 where
  pub header_parsed : Bool
  pub type : FrameType
  pub control : ControlFrame
  pub payload : DataFrame

abbrev pub is_control : FrameType → Bool
is_control control_frame = true
is_control data_frame = false

abbrev pub spdy_frame_init : Frame → Frame
spdy_frame_init frame = record frame { header_parsed = false }

unfoldable pub spdy_frame_parse_header : Frame → SpdyData → Run (Code × Frame)
spdy_frame_parse_header frame d = do
  first ← load_8 (at_cursor d)
  done (ok, record frame { type = if first / 2 ^ 7 == 0 then data_frame else control_frame })

-- The header, unless it has been parsed before.
unfoldable pub begin_frame : Frame → SpdyData → Run (Code × Frame)
begin_frame frame d = if frame.header_parsed then done (ok, frame) else (do
  (rc, f) ← spdy_frame_parse_header frame d
  let f' =
      if is_control f.type
      then record f { control = spdy_control_frame_init f.control }
      else record f { payload = spdy_data_frame_init f.payload }
  done (rc, if succeeded rc then record f' { header_parsed = true } else f))

module _ (z : Zlib) where
  open z use {Strm}

  unfoldable pub spdy_frame_parse :
      Frame → SpdyData → Env Strm → Run (Code × Frame × SpdyData × Env Strm)
  unfolding begin_frame
  spdy_frame_parse frame d env = do
    (rc, f) ← begin_frame frame d
    if succeeded rc
        then (if is_control f.type
            then (do
              (rc', control, d', env') ← spdy_control_frame_parse z f.control d env
              done (rc', record f { control = control }, d', env'))
            else (do
              (rc', payload, d', later) ← spdy_data_frame_parse f.payload d env.memory
              done (rc', record f { payload = payload }, d', record env { memory = later })))
        else done (rc, f, d, env)

unfoldable pub spdy_frame_destroy : Frame → Run (Unit {0})
spdy_frame_destroy frame =
    if is_control frame.type then spdy_control_frame_destroy frame.control else done tt
