-- ===== src/RstStream.antt =====
-- src/spdy_rst_stream.c and spdy_rst_stream.h: the payload of a RST_STREAM frame.
use spindly.Prelude.{
  ℕ, ◌%◌, ◌^◌, List, ◌≡◌, Bool-cases, inl, inr, arith, fault, abort, spin, Run, done, ◌>>=◌, ◌==◌,
  if◌then◌else◌,
}
use spindly.Codes.{Code, ok, insuff}
use spindly.Bytes.{be_load_32}

pub record RstStream : Type 0 where
  pub stream_id : ℕ
  pub status_code : ℕ

-- Both words are loaded from `data` itself.
unfoldable pub spdy_rst_stream_parse :
    RstStream → List ℕ → (data_length : ℕ) → Run (Code × RstStream)
spdy_rst_stream_parse rst bytes data_length =
    if data_length == 8
    then (do
      id ← be_load_32 bytes
      status ← be_load_32 bytes
      done (ok, record { stream_id = id % 2 ^ 31; status_code = status }))
    else done (insuff, rst)

-- Both members from one load.
same_word :
    (m : Run ℕ) (r : RstStream)
    → ◌>>=◌ {B = Code × RstStream} m (λ id.
      ◌>>=◌ {B = Code × RstStream} m
        (λ status. done (ok, record { stream_id = id % 2 ^ 31; status_code = status })))
      ≡ done (ok, r)
    → r.stream_id ≡ r.status_code % 2 ^ 31
same_word (done w) r h = ground arith
same_word fault r h = cc
same_word abort r h = cc
same_word spin r h = cc

-- Whenever a payload is parsed with success, the stream id is the status code without its highest bit.
pub spdy_rst_stream_parse-status :
    (rst r : RstStream) (bytes : List ℕ) (data_length : ℕ)
    → spdy_rst_stream_parse rst bytes data_length ≡ done (ok, r)
    → r.stream_id ≡ r.status_code % 2 ^ 31
unfolding spdy_rst_stream_parse
spdy_rst_stream_parse-status rst r bytes data_length h = elim (Bool-cases (data_length == 8)) [
  | inl e ↦ same_word (be_load_32 bytes) r (rw e at h)
  | inr e ↦ let refused = rw e at h in absurd (ground arith)
]
