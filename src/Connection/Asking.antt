-- ===== src/Connection/Asking.antt =====
-- spindly_stream_new of src/spindly_stream.c on a whole connection with nothing to send: the queue that it
-- leaves.
use spindly.Prelude.{
  ℕ, ◌≡◌, ◌∙◌, ◌⊎◌, inl, inr, refl, false, List, [], ◌∷◌, ◌==◌, ltb, Post, Post-bind, Post-bind_any,
  Post-if, none, arith,
}
use spindly.Codes.{Code, ok, succeeded}
use spindly.Memory.{Answers, malloc}
use spindly.LinkedList.{Ptr, list_first}
use spindly.Hash.{hash_store}
use spindly.LinkedList.Segment.{has}
use spindly.Hash.Cells.{Cells}
use spindly.Zlib.{Zlib}
use spindly.ControlFrame.{
  spdy_control_frame_pack, spdy_control_frame_destroy, spdy_control_mk_syn_stream, ControlFrame,
}
use spindly.Phys.{Phys, outq, pendq, heap_of, hash_rounds, phys_outbufsize, phys_add_stream}
use spindly.Stream.{send_frame, register_stream, stream_init, spindly_stream_new}
use spindly.Stream.Opening.{with_stream}
use spindly.Connection.{parity, IsConnection, IsConnectedAt}
use spindly.Connection.Unchanged.{malloc-IsSupply, malloc-IsFresh, alike, with_memory}
use spindly.Connection.Sending.{Sent, send_frame-Sent}
use spindly.Connection.Registering.{Registered, register_stream-Registered}
use spindly.Connection.Opening.{with_streamid, next_id}

-- The stream was refused and nothing is queued, or the stream was made and the first pending buffer is alone
-- in the queue.
abbrev pub Asked : {Strm : Type 0} → (Ptr → List Ptr) → Code → Phys Strm → Type 0
Asked f rc phys =
    ((succeeded rc ≡ false) × IsConnectedAt outq [] phys)
    ⊎ ((od : Ptr) × (rest : List Ptr) × (f pendq ≡ od ∷ rest)
        × (rc ≡ ok)
        × IsConnectedAt outq (od ∷ []) phys)

module _ (z : Zlib) (f : Ptr → List Ptr) (cells : Cells) (phys : Phys (z.Strm))
    (c : IsConnection phys f cells) (empty : f outq ≡ []) where
  -- A whole connection with nothing queued has, once spindly_stream_new returns, nothing queued and no stream,
  -- or just the new stream's frame.
  pub spindly_stream_new-Asked :
      (stack : ControlFrame) (prio userp config : ℕ)
      → Post (λ r. Asked f r.0 r.2) (spindly_stream_new z stack phys prio userp config)
  unfolding spindly_stream_new stream_init
  spindly_stream_new-Asked stack prio userp config =
      let P = λ (r : Code × Ptr × Phys (z.Strm)). Asked f r.0 r.2 in
      let s = (malloc phys.memory).0 in
      let later = (malloc phys.memory).1 in
      let (_, supply) = malloc-IsSupply f phys.outgoing phys.memory c.supply in
      let R = λ (m : Answers). has s m ≡ false in
      let made = with_stream phys prio userp config in
      Post-if P (ltb 7 prio) _ _ (λ _. inl (refl, (f, cells, c, empty)))
        (λ _.
          Post-if P (s == 0) _ _
            (λ _. inl (refl, (f, cells, with_memory f cells phys later c supply, empty)))
            (λ e.
              let (fresh, out) = malloc-IsFresh f phys.outgoing phys.memory c.supply e in
              let c' : IsConnection made f cells =
                alike f cells phys made c refl refl refl refl refl refl refl supply in
              Post-bind_any P (spdy_control_mk_syn_stream phys.streamid 0 prio none) _ (λ frame.
                Post-bind (λ r. Sent R f cells made r.0 r.1) P (send_frame z made s frame.1) _
                  (send_frame-Sent z R (λ p m h. ground arith) f cells made c' s frame.1 out)
                  (λ r sent.
                    let (g, c2, out2, keep, side, _, (fine, failed)) = sent in
                    Post-if P (succeeded r.0) _ _
                      (λ yes.
                        let (od, rest, first, queue) = fine yes in
                        Post-bind (Registered outq (od ∷ []) r.1) P
                          (register_stream z r.1 s phys.streamid) _
                          (register_stream-Registered z g cells r.1 s phys.streamid outq (od ∷ [])
                            refl refl (rw empty at queue) c2 (keep s fresh) out2)
                          (λ added reg. Post-bind_any P (spdy_control_frame_destroy frame.1) _ (λ _.
                            inr (
                              od,
                              rest,
                              first,
                              refl,
                              with_streamid added _
                                  (rw (reg.1, side)
                                    (next_id phys.streamid (parity phys.side) c.ids))
                                  outq (od ∷ []) reg.0,
                            ))))
                      (λ no.
                        Post-bind_any P (spdy_control_frame_destroy frame.1) _
                          (λ _. inl (no, (g, cells, c2, failed no ∙ empty))))))))

module _ (z : Zlib) (phys : Phys (z.Strm)) where
  send_frame-outgoing :
      (s : Ptr) (frame : ControlFrame)
      → Post (λ r. r.1.outgoing ≡ phys.outgoing) (send_frame z phys s frame)
  unfolding send_frame
  send_frame-outgoing s frame =
      let P = λ (r : Code × Phys (z.Strm)). r.1.outgoing ≡ phys.outgoing in
      Post-if P (list_first (heap_of phys) pendq == 0) _ _ (λ _. tt)
        (λ _.
          Post-bind_any P (spdy_control_frame_pack z phys_outbufsize frame phys.memory) _
            (λ r. Post-if P (succeeded r.0) _ _ (λ _. refl) (λ _. refl)))

  register_stream-outgoing :
      (s id : ℕ) → Post (λ added. added.outgoing ≡ phys.outgoing) (register_stream z phys s id)
  unfolding register_stream phys_add_stream
  register_stream-outgoing s id =
      let added = (phys_add_stream phys s).1 in
      Post-bind_any (λ (last : Phys (z.Strm)). last.outgoing ≡ phys.outgoing)
        (hash_store (hash_rounds added) added.store added.streamhash id s added.memory) _
        (λ r. refl)

-- Opening a stream leaves the buffer that is being sent alone.
pub spindly_stream_new-outgoing :
    (z : Zlib) (phys : Phys (z.Strm)) (stack : ControlFrame) (prio userp config : ℕ)
    → Post (λ r. r.2.outgoing ≡ phys.outgoing) (spindly_stream_new z stack phys prio userp config)
unfolding spindly_stream_new stream_init
spindly_stream_new-outgoing z phys stack prio userp config =
    let P = λ (r : Code × Ptr × Phys (z.Strm)). r.2.outgoing ≡ phys.outgoing in
    let s = (malloc phys.memory).0 in
    let made = with_stream phys prio userp config in
    Post-if P (ltb 7 prio) _ _ (λ _. refl)
      (λ _.
        Post-if P (s == 0) _ _ (λ _. refl)
          (λ _. Post-bind_any P (spdy_control_mk_syn_stream phys.streamid 0 prio none) _ (λ frame.
            Post-bind (λ r. r.1.outgoing ≡ phys.outgoing) P (send_frame z made s frame.1) _
              (send_frame-outgoing z made s frame.1)
              (λ r kept.
                Post-if P (succeeded r.0) _ _
                  (λ _.
                    Post-bind (λ added. added.outgoing ≡ r.1.outgoing) P
                      (register_stream z r.1 s phys.streamid) _
                      (register_stream-outgoing z r.1 s phys.streamid)
                      (λ added same.
                        Post-bind_any P (spdy_control_frame_destroy frame.1) _ (λ _. same ∙ kept)))
                  (λ _. Post-bind_any P (spdy_control_frame_destroy frame.1) _ (λ _. kept))))))
