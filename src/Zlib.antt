-- ===== src/Zlib.antt =====
-- src/spdy_zlib.c and spdy_zlib.h: deflating and inflating with SPDY's dictionary. zlib itself is
-- no code of the repository: it is a record of its functions. `malloc`'s answers serve `realloc`, one
-- for each round of an inner loop, so the inner loops need no other bound.
pub mod Contract
pub mod Loops
pub mod Enough
pub mod Decompress
pub mod Compress
pub mod OneChunk
pub mod Supply
use Prim.Native.Char.{code}
use Prim.Native.String.{String}
use spindly.Prelude.{
  ℕ, zero, suc, ◌+◌, ◌-◌, ◌/◌, Bool, true, false, not, List, [], ◌∷◌, ◌++◌, Run, done, fault, spin,
  assert, ◌&&◌, take, ◌>>=◌, ◌>>◌, ◌≡◌, ltb, ◌==◌, if◌then◌else◌, length,
}
use spindly.Codes.{Code, ok, nomem, zlib, succeeded}
use spindly.Memory.{Answers, memcpy}

-- zlib's result codes and flush values, as far as the sources tell them apart.
pub data ZRet : Type 0 where
  z_ok z_stream_end z_need_dict z_stream_error z_data_error z_mem_error z_buf_error : ZRet

pub data Flush : Type 0 where
  no_flush sync_flush z_finish : Flush

-- After a call of deflate() or inflate(): the result, the stream, the input that is left and the bytes
-- that were written.
pub record ZStep (Strm : Type 0) : Type 0 where
  pub ret : ZRet
  pub strm : Strm
  pub rest_in : List ℕ
  pub out : List ℕ

-- The functions of zlib that are called, with `Strm` for z_stream.
pub record Zlib : Type 1 where
  pub Strm : Type 0
  pub deflate_init : ZRet × Strm
  pub deflate_set_dictionary : Strm → List ℕ → ZRet × Strm
  pub deflate : Strm → Flush → (next_in : List ℕ) → (avail_out : ℕ) → ZStep Strm
  pub inflate_init2 : (call : ℕ) → ZRet × Strm
  pub inflate_set_dictionary : Strm → List ℕ → ZRet × Strm
  pub inflate : Strm → Flush → (next_in : List ℕ) → (avail_out : ℕ) → ZStep Strm
  pub inflate_end : Strm → Strm

abbrev pub is_z_ok : ZRet → Bool
is_z_ok z_ok = true
is_z_ok _ = false

abbrev pub is_stream_end : ZRet → Bool
is_stream_end z_stream_end = true
is_stream_end _ = false

abbrev pub is_stream_error : ZRet → Bool
is_stream_error z_stream_error = true
is_stream_error _ = false

abbrev pub is_empty : List ℕ → Bool
is_empty [] = true
is_empty (_ ∷ _) = false

-- SPDY_ZLIB_CHUNK
abbrev pub chunk : ℕ
chunk = 16384

codes : String → List ℕ
codes String.[] = []
codes (String.◌∷◌ c s) = code c ∷ codes s

-- The dictionary with its final NUL.
unfoldable pub spdy_zlib_dictionary : List ℕ
unfolding codes
spdy_zlib_dictionary =
    codes
      "optionsgetheadpostputdeletetraceacceptaccept-charsetaccept-encodingaccept-languageauthorizationexpectfromhostif-modified-sinceif-matchif-none-matchif-rangeif-unmodifiedsincemax-forwardsproxy-authorizationrangerefererteuser-agent100101200201202203204205206300301302303304305306307400401402403404405406407408409410411412413414415416417500501502503504505accept-rangesageetaglocationproxy-authenticatepublicretry-afterservervarywarningwww-authenticateallowcontent-basecontent-encodingcache-controlconnectiondatetrailertransfer-encodingupgradeviawarningcontent-languagecontent-lengthcontent-locationcontent-md5content-rangecontent-typeetagexpireslast-modifiedset-cookieMondayTuesdayWednesdayThursdayFridaySaturdaySundayJanFebMarAprMayJunJulAugSepOctNovDecchunkedtext/htmlimage/pngimage/jpgimage/gifapplication/xmlapplication/xhtmltext/plainpublicmax-agecharset=iso-8859-1utf-8gzipdeflateHTTP/1.1statusversionurl"
    ++ 0 ∷ []

-- Where a loop of spdy_zlib_deflate leaves off.
pub record Deflating (Strm : Type 0) : Type 0 where
  pub code : Code
  pub ret : ZRet
  pub strm : Strm
  pub rest_in : List ℕ
  pub dest : List ℕ
  pub memory : Answers

-- What spdy_zlib_deflate gives its caller; `dest_size` is the length of `dest`.
pub record Deflated : Type 0 where
  pub code : Code
  pub data_used : ℕ
  pub dest : List ℕ
  pub memory : Answers

-- What spdy_zlib_inflate gives its caller, with the context's stream.
pub record Inflated (Strm : Type 0) : Type 0 where
  pub code : Code
  pub strm : Strm
  pub dest : List ℕ
  pub memory : Answers

-- The rounds of an outer loop: each takes `chunk` bytes off the length, or is the last.
abbrev pub rounds_for : ℕ → ℕ
rounds_for len = len / chunk + 2

module _ (z : Zlib) where
  open z use {Strm}

  -- "Loop while output data is available": `dest` is what was written before this round.
  unfoldable pub deflate_inner :
      Answers → Strm → Flush → (next_in dest : List ℕ) → Run (Deflating Strm)
  deflate_inner [] strm flush next_in dest = do
    let step = z.deflate strm flush next_in chunk
    assert (not (is_stream_error step.ret))
    done (record {
      code = nomem;
      ret = step.ret;
      strm = step.strm;
      rest_in = step.rest_in;
      dest = [];
      memory = [];
    })
  deflate_inner (p ∷ later) strm flush next_in dest = do
    let step = z.deflate strm flush next_in chunk
    assert (not (is_stream_error step.ret))
    let next = deflate_inner later step.strm flush step.rest_in (dest ++ step.out)
    let stop : Code → List ℕ → Deflating Strm = λ c d. record {
      code = c;
      ret = step.ret;
      strm = step.strm;
      rest_in = step.rest_in;
      dest = d;
      memory = later;
    }
    if p == 0
        then done (stop nomem [])
        else (if chunk - length step.out == 0 then next else done (stop ok (dest ++ step.out)))

  -- "Loop while flush is not Z_FINISH". `src` does not move from round to round.
  unfoldable pub deflate_outer :
      ℕ → Strm → (src : List ℕ) → (length data_used : ℕ) → (dest : List ℕ) → Answers → Run Deflated
  unfolding deflate_inner memcpy
  deflate_outer zero strm src len data_used dest memory = spin
  deflate_outer (suc n) strm src len data_used dest memory = do
    let more = ltb chunk len
    let avail_in = if more then chunk else len
    let flush = if more then no_flush else z_finish
    next_in ← memcpy avail_in src
    d ← deflate_inner memory strm flush next_in dest
    let result : Code → Deflated =
        λ c. record { code = c; data_used = data_used + avail_in; dest = d.dest; memory = d.memory }
    if succeeded d.code
        then (do
          assert (is_empty d.rest_in)
          if more
              then deflate_outer n d.strm src (len - chunk) (data_used + avail_in) d.dest d.memory
              else (do assert (is_stream_end d.ret); done (result ok)))
        else done (result d.code)

  unfoldable pub spdy_zlib_deflate :
      (src : List ℕ) → (length data_used : ℕ) → Answers → Run Deflated
  unfolding deflate_outer
  spdy_zlib_deflate src len data_used memory =
      let (ret, strm) = z.deflate_init in
      let (ret', strm') = z.deflate_set_dictionary strm spdy_zlib_dictionary in
      let failed : Deflated = record {
        code = zlib;
        data_used = data_used;
        dest = [];
        memory = memory;
      } in
      if is_z_ok ret
      then (if is_z_ok ret'
          then deflate_outer (rounds_for len) strm' src len data_used [] memory
          else done failed)
      else done failed

  -- The code and the context. A connection has two contexts, so the call is numbered.
  unfoldable pub spdy_zlib_inflate_init : (call : ℕ) → Code × Strm
  spdy_zlib_inflate_init call =
      let (ret, strm) = z.inflate_init2 call in if is_z_ok ret then (ok, strm) else (zlib, strm)

  -- Both contexts of a connection can be made.
  abbrev pub CanInflate : Type 0
  CanInflate =
      (succeeded (spdy_zlib_inflate_init 0).0 ≡ true)
      × (succeeded (spdy_zlib_inflate_init 1).0 ≡ true)

  abbrev pub spdy_zlib_inflate_end : Strm → Strm
  spdy_zlib_inflate_end = z.inflate_end

  -- The call of inflate() and the `switch` behind it: `code` is `ok` unless the function returns
  -- there. A second call writes behind the first one's bytes; its result is not looked at here.
  unfoldable pub inflate_step : Strm → (next_in : List ℕ) → Code × ZStep Strm
  inflate_step strm next_in =
      let step = z.inflate strm sync_flush next_in chunk in
      let ended = record step { strm = z.inflate_end step.strm } in
      elim (step.ret) [
        | z_need_dict ↦
            let (ret, strm') = z.inflate_set_dictionary step.strm spdy_zlib_dictionary in
            let again = z.inflate strm' sync_flush step.rest_in (chunk - length step.out) in
            if is_z_ok ret
            then (ok, record again { out = step.out ++ again.out })
            else (zlib, record step { strm = z.inflate_end strm' })
        | z_data_error ↦ (zlib, ended)
        | z_mem_error ↦ (zlib, ended)
        | _ ↦ (ok, step)
      ]

  -- `assert(ret != Z_STREAM_ERROR)`, on the first call's result.
  abbrev pub inflate_sound : Strm → (next_in : List ℕ) → Bool
  inflate_sound strm next_in = not (is_stream_error ((z.inflate strm sync_flush next_in chunk).ret))

  -- "Loop while output data is available".
  unfoldable pub inflate_inner : Answers → Strm → (next_in dest : List ℕ) → Run (Deflating Strm)
  unfolding inflate_step
  inflate_inner [] strm next_in dest = do
    assert (inflate_sound strm next_in)
    let (c, step) = inflate_step strm next_in
    done (record {
      code = elim c [ ok ↦ nomem | other ↦ other ];
      ret = step.ret;
      strm = elim c [ ok ↦ z.inflate_end step.strm | _ ↦ step.strm ];
      rest_in = step.rest_in;
      dest = elim c [ ok ↦ [] | _ ↦ dest ];
      memory = [];
    })
  inflate_inner (p ∷ later) strm next_in dest = do
    assert (inflate_sound strm next_in)
    let (c, step) = inflate_step strm next_in
    let next = inflate_inner later step.strm step.rest_in (dest ++ step.out)
    let stop : Code → Strm → List ℕ → Answers → Deflating Strm = λ c s d m. record {
      code = c;
      ret = step.ret;
      strm = s;
      rest_in = step.rest_in;
      dest = d;
      memory = m;
    }
    elim c [
      | ok ↦
          if p == 0
          then done (stop nomem (z.inflate_end step.strm) [] later)
          else (if chunk - length step.out == 0
              then next
              else done (stop ok step.strm (dest ++ step.out) later))
      | other ↦ done (stop other step.strm dest (p ∷ later))
    ]

  -- "Loop while inflate return is not Z_STREAM_END". `src` does not move from round to round. zlib is given the
  -- bytes that there are. Where the length is beyond them, an inflate() that has used them up, has room left
  -- and is not at the stream's end has read on behind them.
  unfoldable pub inflate_outer :
      ℕ → Strm → (src : List ℕ) → (length : ℕ) → (dest : List ℕ) → Answers → Run (Inflated Strm)
  unfolding inflate_inner
  inflate_outer zero strm src len dest memory = spin
  inflate_outer (suc n) strm src len dest memory = do
    let more = ltb chunk len
    let avail_in = if more then chunk else len
    let left = if more then len - chunk else 0
    if avail_in == 0
        then done (record { code = ok; strm = strm; dest = dest; memory = memory })
        else (do
          let next_in = take avail_in src
          let missing = ltb (length src) avail_in
          d ← inflate_inner memory strm next_in dest
          let result : Code → Inflated Strm =
              λ c. record { code = c; strm = d.strm; dest = d.dest; memory = d.memory }
          if succeeded d.code
              then (if is_stream_end d.ret
                  then done (result ok)
                  else if missing && is_empty d.rest_in
                  then fault
                  else inflate_outer n d.strm src left d.dest d.memory)
              else done (result d.code))

  -- The last line's `Z_STREAM_END ? … : …` tests a constant that is not 0, so it is NONE.
  unfoldable pub spdy_zlib_inflate :
      Strm → (src : List ℕ) → (length : ℕ) → Answers → Run (Inflated Strm)
  unfolding inflate_outer
  spdy_zlib_inflate strm src len memory = inflate_outer (rounds_for len) strm src len [] memory
