-- ===== src/Peer/Send.antt =====
-- spindly_stream_new of src/spindly_stream.c: the bytes that it queues.
use spindly.Prelude.{
  ℕ, ◌+◌, ◌≡◌, refl, sym, ◌∙◌, none, List, ◌++◌, done, ◌==◌, ltb, length, Post, Post-bind,
  Post-bind_any, Post-if, Post-self, Post-both, ==_refl,
}
use spindly.Codes.{Code, ok, succeeded, succeeded_ok, failed_ne}
use spindly.Bytes.{be_store_16}
use spindly.Memory.{Answers, malloc}
use spindly.LinkedList.{Ptr, list_first}
use spindly.Hash.{hash_store}
use spindly.Zlib.{Zlib, Deflated, spdy_zlib_deflate}
use spindly.SynStream.{spdy_syn_stream_init, pack_empty_block, spdy_syn_stream_pack}
use spindly.SynStream.Header.{fixed_part}
use spindly.ControlFrame.{
  ControlFrame, spdy_control_frame_pack_header, pack_payload, spdy_control_frame_pack,
  spdy_control_mk_syn_stream, spdy_control_frame_destroy,
}
use spindly.ControlFrame.Pack.{spdy_control_frame_pack-length}
use spindly.Phys.{Phys, pendq, phys_outbufsize, heap_of, hash_rounds, phys_add_stream}
use spindly.Stream.{send_frame, register_stream, stream_init, spindly_stream_new}
use spindly.Stream.Opening.{with_stream}
use spindly.Peer.{opened_syn, opened_frame, opened_bytes}

-- `bytes` end with the empty block as it was deflated, behind `front`.
abbrev EndsWithBlock : (z : Zlib) → Answers → (front : List ℕ) → Code → List ℕ → Type 0
EndsWithBlock z memory front rc bytes =
    rc ≡ ok
    → (d : Deflated) × (spdy_zlib_deflate z (be_store_16 0) 2 0 memory ≡ done d)
      × (bytes ≡ front ++ d.dest)

module _ (z : Zlib) (id prio : ℕ) (memory : Answers) where
  block_packed :
      (header : List ℕ) (bufsize : ℕ)
      → Post
          (λ r. EndsWithBlock z memory header r.0 r.1)
          (pack_empty_block z header bufsize 10 10 memory)
  unfolding pack_empty_block
  block_packed header bufsize =
      let P = λ (r : Code × List ℕ × ℕ × Answers). EndsWithBlock z memory header r.0 r.1 in
      let m = spdy_zlib_deflate z (be_store_16 0) 2 0 memory in
      Post-bind (λ d. m ≡ done d) P m _ (Post-self m)
        (λ d run.
          Post-if P (succeeded d.code) _ _
            (λ _.
              Post-if P (ltb bufsize (10 + length d.dest)) _ _ (λ _ e. cc) (λ _ e. (d, run, refl)))
            (λ no e. absurd (failed_ne d.code no e)))

  -- What the frame of a new stream is packed to.
  abbrev PacksOpened : Code → List ℕ → Type 0
  PacksOpened rc bytes =
      rc ≡ ok
      → (d : Deflated) × (spdy_zlib_deflate z (be_store_16 0) 2 0 memory ≡ done d)
        × (bytes ≡ opened_bytes id prio d.dest)

  frame_packed :
      Post
        (λ r. PacksOpened r.0 r.1)
        (spdy_control_frame_pack z phys_outbufsize (opened_frame id prio) memory)
  unfolding spdy_control_frame_pack pack_payload spdy_syn_stream_pack spdy_control_frame_pack_header
  frame_packed =
      let P = λ (r : Code × List ℕ × ℕ × Answers). PacksOpened r.0 r.1 in
      let fixed = fixed_part (opened_syn id prio) in
      Post-bind (λ r. EndsWithBlock z memory fixed r.0 r.1) P
        (pack_empty_block z fixed 120 10 10 memory) _ (block_packed fixed 120)
        (λ r ends.
          Post-if P (succeeded r.0) _ _
            (λ fine e. let (d, run, b) = ends (succeeded_ok r.0 fine) in (d, run, rw b refl))
            (λ no e. absurd (failed_ne r.0 no e)))

-- The buffer `od` holds the frame, and its length.
abbrev pub HoldsOpened :
    (z : Zlib) → (id prio : ℕ) → Answers → (od : Ptr) → Code → Phys (z.Strm) → Type 0
HoldsOpened z id prio memory od rc phys =
    rc ≡ ok
    → (d : Deflated) × (spdy_zlib_deflate z (be_store_16 0) 2 0 memory ≡ done d)
      × ((phys.outdata od).buffer ≡ opened_bytes id prio d.dest)
      × ((phys.outdata od).len ≡ length (phys.outdata od).buffer)

module _ (z : Zlib) (id prio : ℕ) (phys : Phys (z.Strm)) (s : Ptr) where
  abbrev od : Ptr
  od = list_first (heap_of phys) pendq

  send_frame-HoldsOpened :
      Post
        (λ r. HoldsOpened z id prio phys.memory od r.0 r.1)
        (send_frame z phys s (opened_frame id prio))
  unfolding send_frame
  send_frame-HoldsOpened =
      let P = λ (r : Code × Phys (z.Strm)). HoldsOpened z id prio phys.memory od r.0 r.1 in
      let m = spdy_control_frame_pack z phys_outbufsize (opened_frame id prio) phys.memory in
      let Q = λ (r : Code × List ℕ × ℕ × Answers). PacksOpened z id prio phys.memory r.0 r.1 in
      Post-if P (od == 0) _ _ (λ _. tt)
        (λ _.
          Post-bind (λ r. Q r × (m ≡ done r)) P m _
            (Post-both Q (λ r. m ≡ done r) m (frame_packed z id prio phys.memory) (Post-self m))
            (λ r packed.
              Post-if P (succeeded r.0) _ _
                (λ fine e.
                  let good = succeeded_ok r.0 fine in
                  let (d, run, b) = packed.0 good in
                  let counted =
                    spdy_control_frame_pack-length z phys_outbufsize (opened_frame id prio)
                      phys.memory r.1 r.2 r.3 (packed.1 ∙ (rw good refl)) in
                  (d, run, rw (==_refl od) b, rw (==_refl od) (sym counted.0)))
                (λ no e. absurd (failed_ne r.0 no e))))

register_stream-outdata :
    (z : Zlib) (phys : Phys (z.Strm)) (s id : ℕ)
    → Post (λ added. added.outdata ≡ phys.outdata) (register_stream z phys s id)
unfolding register_stream phys_add_stream
register_stream-outdata z phys s id =
    let added = (phys_add_stream phys s).1 in
    Post-bind_any (λ (last : Phys (z.Strm)). last.outdata ≡ phys.outdata)
      (hash_store (hash_rounds added) added.store added.streamhash id s added.memory) _ (λ r. refl)

mk_opened :
    (id prio : ℕ) → spdy_control_mk_syn_stream id 0 prio none ≡ done (ok, opened_frame id prio)
unfolding spdy_control_mk_syn_stream spdy_syn_stream_init
mk_opened id prio = refl

module _ (z : Zlib) (stack : ControlFrame) (phys : Phys (z.Strm)) (prio userp config : ℕ) where
  -- What opening a stream leaves in the first pending buffer.
  abbrev pub LeavesOpened : Code × Ptr × Phys (z.Strm) → Type 0
  LeavesOpened r =
      HoldsOpened z phys.streamid prio (malloc phys.memory).1 (list_first (heap_of phys) pendq) r.0
        r.2

  pub spindly_stream_new-LeavesOpened :
      Post LeavesOpened (spindly_stream_new z stack phys prio userp config)
  unfolding spindly_stream_new stream_init
  spindly_stream_new-LeavesOpened =
      let s = (malloc phys.memory).0 in
      let made = with_stream phys prio userp config in
      let frame = opened_frame phys.streamid prio in
      Post-if LeavesOpened (ltb 7 prio) _ _ (λ _ e. cc)
        (λ _.
          Post-if LeavesOpened (s == 0) _ _ (λ _ e. cc)
            (λ _. rw (mk_opened phys.streamid prio) (
              Post-bind
                (λ r.
                  HoldsOpened z phys.streamid prio made.memory (od z phys.streamid prio made s) r.0
                    r.1)
                LeavesOpened (send_frame z made s frame) _
                (send_frame-HoldsOpened z phys.streamid prio made s)
                (λ r holds.
                  Post-if LeavesOpened (succeeded r.0) _ _
                    (λ fine.
                      Post-bind (λ added. added.outdata ≡ r.1.outdata) LeavesOpened
                        (register_stream z r.1 s phys.streamid) _
                        (register_stream-outdata z r.1 s phys.streamid)
                        (λ added same.
                          Post-bind_any LeavesOpened (spdy_control_frame_destroy frame) _
                            (λ _ e. rw same (holds (succeeded_ok r.0 fine)))))
                    (λ no.
                      Post-bind_any LeavesOpened (spdy_control_frame_destroy frame) _
                        (λ _ e. absurd (failed_ne r.0 no e)))))))
