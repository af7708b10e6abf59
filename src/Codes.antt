-- ===== src/Codes.antt =====
-- The result codes of include/spindly.h, under which src/spdy_error.h gives its own names:
-- NONE is `ok`, MALLOC_FAILED `nomem`, INVALID_DATA `inval`, INSUFFICIENT_DATA `insuff`, all of
-- ZLIB_* `zlib`, STREAM_RST `reset`, STREAM_FIN `stop`, TOO_SMALL_BUFFER `small_buffer`.
use spindly.Prelude.{ℕ, ◌≡◌, ◌≢◌, refl, Bool, true, false}

pub data Code : Type 0 where
  ok nomem inval insuff zlib reset stop small_buffer protocol : Code

-- `if(!rc)`
abbrev pub succeeded : Code → Bool
succeeded ok = true
succeeded _ = false

pub failed_ne : (c : Code) → succeeded c ≡ false → c ≢ ok
failed_ne c h e = let b = rw e at h in cc

pub succeeded_ok : (c : Code) → succeeded c ≡ true → c ≡ ok
succeeded_ok ok h = refl
succeeded_ok _ h = cc

-- The enum's numbers.
abbrev pub code_number : Code → ℕ
code_number ok = 0
code_number nomem = 1
code_number inval = 2
code_number insuff = 3
code_number zlib = 4
code_number reset = 5
code_number stop = 6
code_number small_buffer = 7
code_number protocol = 8

pub Code-discrete : Discrete Code
Code-discrete = hlevel
