-- ===== src/Connection/Demultiplexing.antt =====
-- spindly_phys_demux of src/spindly_phys.c on whole connections.
use spindly.Prelude.{
  ℕ, zero, suc, ◌≡◌, inl, inr, refl, false, Bool, List, done, ◌>>=◌, ◌==◌, if◌then◌else◌, length,
  leb, List-cases, Post, Post-bind, Post-bind_any, Post-if, Post-done,
}
use spindly.Codes.{Code, ok, succeeded}
use spindly.Memory.{Answers, memcpy}
use spindly.LinkedList.{Ptr, list_first, list_next}
use spindly.LinkedList.Lists.{list_first-cons, list_first-nil}
use spindly.Hash.Cells.{Cells}
use spindly.Zlib.{Zlib}
use spindly.ControlFrame.{ControlFrame}
use spindly.Frame.{spdy_frame_parse}
use spindly.Frame.Kept.{spdy_frame_parse-Kept}
use spindly.Frame.Supply.{Kept}
use spindly.Phys.{Phys, inq, heap_of, env_of}
use spindly.Demux.{
  Demux, is_insuff, merge_chunks, parse_append, deliver, take_chunk, demux_loop, phys_demux,
}
use spindly.Connection.{IsConnection, IsConnected}
use spindly.Connection.Supply.{IsSupply}
use spindly.Connection.Unchanged.{alike}
use spindly.Connection.Delivery.{IsFirst, deliver-Post}

-- Nothing is merged: the buffer for it was never set.
pub append-Post :
    {Strm : Type 0} (f : Ptr → List Ptr) (cells : Cells) (phys : Phys Strm)
    → IsConnection phys f cells
    → Post (λ r. (r.1 ≡ false) × (r.2 ≡ phys)) (parse_append phys)
unfolding parse_append merge_chunks
append-Post f cells phys c =
    let P = λ (r : Code × Bool × Phys _). (r.1 ≡ false) × (r.2 ≡ phys) in
    let n = list_first (heap_of phys) inq in
    Post-if P (n == 0) _ _ (λ _. tt)
      (λ _.
        Post-if P (list_next (heap_of phys) n == 0) _ _ (λ _. (refl, refl)) (λ _. rw (c.unset) tt))

module _ (z : Zlib) (stack : ControlFrame) (f : Ptr → List Ptr) (cells : Cells) where
  -- A round that parses.
  round-Post :
      (k : ℕ) (fed : Phys (z.Strm)) (message : Demux) (chunk : Ptr)
      → IsConnection fed f cells
      → IsFirst (f inq) chunk
      → Post {A = Code × Demux × Phys (z.Strm)}
          (λ r. IsConnected r.2)
          (◌>>=◌ {B = Code × Demux × Phys (z.Strm)}
            (spdy_frame_parse z fed.frame fed.input (env_of fed))
            (λ r.
              let parsed = record fed {
                frame = r.1;
                input = r.2;
                zlib_in = r.3.zlib_in;
                store = r.3.store;
                memory = r.3.memory;
              } in
              if succeeded r.0
              then deliver z stack parsed message chunk
              else (if is_insuff r.0
                  then (◌>>=◌ {B = Code × Demux × Phys (z.Strm)} (parse_append parsed) (λ a.
                      if succeeded a.0
                      then (if a.1
                          then demux_loop z stack k a.2 message chunk
                          else done (ok, message, a.2))
                      else done (a.0, message, a.2)))
                  else done (r.0, message, parsed))))
  round-Post k fed message chunk c first =
      let P = λ (r : Code × Demux × Phys (z.Strm)). IsConnected r.2 in
      let Q = λ (m : Answers). IsSupply f fed.outgoing m in
      Post-bind (λ r. Kept z Q (λ p m q. q.1) (env_of fed) r.3) P
        (spdy_frame_parse z fed.frame fed.input (env_of fed)) _
        (spdy_frame_parse-Kept z Q (λ p m q. q.1) fed.frame fed.input (env_of fed) c.supply)
        (λ r kept.
          let (supply, store) = kept in
          let parsed = record fed {
            frame = r.1;
            input = r.2;
            zlib_in = r.3.zlib_in;
            store = r.3.store;
            memory = r.3.memory;
          } in
          let c' : IsConnection parsed f cells =
            alike f cells fed parsed c store refl refl refl refl refl refl supply in
          Post-if P (succeeded r.0) _ _
            (λ _. deliver-Post z stack f cells parsed c' message chunk first)
            (λ _.
              Post-if P (is_insuff r.0) _ _
                (λ _.
                  Post-bind (λ a. (a.1 ≡ false) × (a.2 ≡ parsed)) P (parse_append parsed) _
                    (append-Post f cells parsed c')
                    (λ a same.
                      let whole : IsConnection a.2 f cells = rw (same.1) c' in
                      Post-if P (succeeded a.0) _ _ (λ _. rw (same.0) (f, cells, whole))
                        (λ _. (f, cells, whole))))
                (λ _. (f, cells, c'))))

  pub take_chunk-Post :
      (phys : Phys (z.Strm)) (chunk : Ptr)
      → IsConnection phys f cells
      → Post (λ fed. IsConnection fed f cells) (take_chunk z stack phys chunk)
  unfolding take_chunk
  take_chunk-Post phys chunk c =
      let T = λ (fed : Phys (z.Strm)). IsConnection fed f cells in
      Post-if T (leb (length phys.input.buf) phys.input.cursor) _ _
        (λ _.
          Post-if T (chunk == 0) _ _ (λ _. tt)
            (λ _.
              Post-bind_any T (memcpy (phys.indata chunk).datalen (phys.indata chunk).bytes) _
                (λ bytes. alike f cells phys _ c refl refl refl refl refl refl refl c.supply)))
        (λ _. c)

  loop-Post :
      (k : ℕ) (phys : Phys (z.Strm)) (message : Demux) (chunk : Ptr)
      → IsConnection phys f cells
      → IsFirst (f inq) chunk
      → Post (λ r. IsConnected r.2) (demux_loop z stack k phys message chunk)
  unfolding demux_loop
  loop-Post zero phys message chunk c first = tt
  loop-Post (suc k) phys message chunk c first =
      Post-bind (λ fed. IsConnection fed f cells) (λ r. IsConnected r.2)
        (take_chunk z stack phys chunk) _ (take_chunk-Post phys chunk c)
        (λ fed c'. round-Post k fed message chunk c' first)

  -- spindly_phys_demux keeps a connection whole, whatever the chunks hold.
  pub phys_demux-IsConnected :
      (rounds : ℕ) (phys phys' : Phys (z.Strm)) (message message' : Demux) (rc : Code)
      → IsConnection phys f cells
      → phys_demux z stack rounds phys message ≡ done (rc, message', phys')
      → IsConnected phys'
  unfolding phys_demux
  phys_demux-IsConnected rounds phys phys' message message' rc c e =
      let first : IsFirst (f inq) (list_first (heap_of phys) inq) = elim (List-cases (f inq)) [
        | inl empty ↦ inl (list_first-nil (heap_of phys) f c.lists inq empty)
        | inr (n, rest, full) ↦
            let (at, _) = list_first-cons (heap_of phys) f c.lists inq n rest full in
            inr (rest, rw (at, full) refl)
      ] in
      Post-done (λ r. IsConnected r.2) _ (rc, message', phys')
        (loop-Post rounds phys _ (list_first (heap_of phys) inq) c first) e
