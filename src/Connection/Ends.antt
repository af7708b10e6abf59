-- ===== src/Connection/Ends.antt =====
-- The loops below spindly_phys_demux and _spindly_stream_init, on whole connections.
use spindly.Prelude.{
  ℕ, suc, ◌≡◌, ◌≢◌, inl, inr, refl, false, Bool-cases, none, List, [], ◌∷◌, ◌++◌, spin, ltb, leb,
  ◌==◌, arith, length, Option-cases, >>=-ne-spin, if-ne-spin, if-ne-spin_given, done-ne-spin,
  Post-bind-ne-spin,
}
use spindly.Codes.{succeeded}
use spindly.Memory.{Answers, malloc, memcpy}
use spindly.Memory.Copies.{memcpy-ne-spin}
use spindly.LinkedList.{Ptr, update, list_first, list_next}
use spindly.LinkedList.Segment.{has}
use spindly.Hash.{HashStore, hash_get, hash_store, entry_at}
use spindly.Hash.Cells.{Cells, hash_get-node_of}
use spindly.Zlib.{Zlib}
use spindly.ControlFrame.{
  ControlFrame, ctrl_syn_stream, ctrl_syn_reply, spdy_control_frame_init, spdy_control_frame_pack,
  spdy_control_frame_destroy, spdy_control_mk_syn_stream,
}
use spindly.ControlFrame.Ends.{
  spdy_control_frame_pack-ne-spin, spdy_control_frame_destroy-ne-spin,
  spdy_control_mk_syn_stream-ne-spin,
}
use spindly.Frame.{is_control, spdy_frame_parse, spdy_frame_destroy}
use spindly.Frame.Ends.{spdy_frame_parse-ne-spin}
use spindly.Frame.Kept.{spdy_frame_parse-Kept}
use spindly.Frame.Supply.{Kept}
use spindly.Phys.{
  Phys, streams, inq, pendq, heap_of, hash_rounds, env_of, phys_outbufsize, phys_add_stream,
  remove_inqnode,
}
use spindly.Stream.{send_frame, register_stream, stream_init, prio_max}
use spindly.Demux.{
  Demux, is_insuff, merge_chunks, parse_append, deliver_syn_stream, deliver_syn_reply,
  deliver_control, deliver, take_chunk, demux_loop, phys_demux,
}
use spindly.Connection.{IsConnection}
use spindly.Connection.Supply.{IsFresh, IsSupply}
use spindly.Connection.Unchanged.{malloc-IsSupply, malloc-IsFresh, alike}
use spindly.Connection.Streams.{connection-IsHash, added-IsConnection}
use spindly.Connection.Sending.{Sent, send_frame-Sent}
use spindly.Connection.Demultiplexing.{append-Post, take_chunk-Post}

lookup-ne-spin :
    {Strm : Type 0} (f : Ptr → List Ptr) (cells : Cells) (phys : Phys Strm)
    → IsConnection phys f cells
    → (id : ℕ) → hash_get (hash_rounds phys) phys.store phys.streamhash id ≢ spin
lookup-ne-spin f cells phys c id = elim (Bool-cases (id == 0)) [
  | inl null ↦ unfold hash_get in rw (null, hash_get) (λ e. cc)
  | inr ne ↦
      let counted = c.counted in
      let got =
        hash_get-node_of (hash_rounds phys) phys.store phys.streamhash id cells
          (connection-IsHash f cells phys c) (ground arith) (omega arith) in
      rw got done-ne-spin
]

entry_at-ne-spin : (s : HashStore) (n : Ptr) → entry_at s n ≢ spin
unfolding entry_at
entry_at-ne-spin s n = elim (Option-cases (s.entries n)) [
  | inl e ↦ rw (e, entry_at) (λ x. cc)
  | inr (entry, e) ↦ rw (e, entry_at) done-ne-spin
]

send_frame-ne-spin :
    (z : Zlib) (phys : Phys (z.Strm)) (s : Ptr) (frame : ControlFrame)
    → send_frame z phys s frame ≢ spin
unfolding send_frame
send_frame-ne-spin z phys s frame =
    if-ne-spin (list_first (heap_of phys) pendq == 0) _ _ (λ e. cc)
      (>>=-ne-spin (spdy_control_frame_pack z phys_outbufsize frame phys.memory) _
        (spdy_control_frame_pack-ne-spin z phys_outbufsize frame phys.memory)
        (λ r. if-ne-spin (succeeded r.0) _ _ done-ne-spin done-ne-spin))

register_stream-ne-spin :
    (z : Zlib) (f : Ptr → List Ptr) (cells : Cells) (phys : Phys (z.Strm)) (s id : ℕ)
    → IsConnection phys f cells
    → IsFresh f phys.outgoing s
    → has s phys.memory ≡ false
    → register_stream z phys s id ≢ spin
unfolding register_stream phys_add_stream hash_store
register_stream-ne-spin z f cells phys s id c fresh out =
    let added = (phys_add_stream phys s).1 in
    let g = update f streams (f streams ++ s ∷ []) in
    let c' : IsConnection added g cells = added-IsConnection f cells phys c s fresh out in
    >>=-ne-spin (hash_store (hash_rounds added) added.store added.streamhash id s added.memory) _
      (>>=-ne-spin (hash_get (hash_rounds added) added.store added.streamhash id) _
        (lookup-ne-spin g cells added c' id)
        (λ n.
          if-ne-spin (n == 0) _ _
            (if-ne-spin ((malloc added.memory).0 == 0) _ _ done-ne-spin done-ne-spin) done-ne-spin))
      (λ r. done-ne-spin)

module _ (z : Zlib) (stack : ControlFrame) (f : Ptr → List Ptr) (cells : Cells) where
  -- On a whole connection, opening a stream ends.
  pub stream_init-ne-spin :
      (phys : Phys (z.Strm)) (prio userp config streamid : ℕ)
      → IsConnection phys f cells
      → stream_init z stack phys prio userp config streamid ≢ spin
  unfolding stream_init
  stream_init-ne-spin phys prio userp config streamid c =
      let s = (malloc phys.memory).0 in
      let later = (malloc phys.memory).1 in
      let (_, supply) = malloc-IsSupply f phys.outgoing phys.memory c.supply in
      let phys' = record phys { memory = later; stream_at = update phys.stream_at s _ } in
      let c' : IsConnection phys' f cells =
        alike f cells phys phys' c refl refl refl refl refl refl refl supply in
      if-ne-spin (ltb prio_max prio) _ _ done-ne-spin (
        if-ne-spin_given (s == 0) _ _ (λ _. done-ne-spin)
          (λ given.
            let (fresh, out) = malloc-IsFresh f phys.outgoing phys.memory c.supply given in
            if-ne-spin (streamid == 0) _ _
              (>>=-ne-spin (spdy_control_mk_syn_stream phys.streamid 0 prio none) _
                (spdy_control_mk_syn_stream-ne-spin phys.streamid 0 prio)
                (λ made.
                  Post-bind-ne-spin (λ r. Sent (λ m. has s m ≡ false) f cells phys' r.0 r.1)
                    (send_frame z phys' s made.1) _ (send_frame-ne-spin z phys' s made.1)
                    (send_frame-Sent z (λ m. has s m ≡ false) (λ p m h. ground arith) f cells phys'
                      c' s made.1 out)
                    (λ r sent.
                      let (g, c2, out2, keep, side, w, _) = sent in
                      if-ne-spin (succeeded r.0) _ _
                        (>>=-ne-spin (register_stream z r.1 s phys.streamid) _
                          (register_stream-ne-spin z g cells r.1 s phys.streamid c2 (keep s fresh)
                            out2)
                          (λ added.
                            >>=-ne-spin (spdy_control_frame_destroy made.1) _
                              (spdy_control_frame_destroy-ne-spin made.1) (λ _. done-ne-spin)))
                        (>>=-ne-spin (spdy_control_frame_destroy made.1) _
                          (spdy_control_frame_destroy-ne-spin made.1) (λ _. done-ne-spin)))))
              (>>=-ne-spin (register_stream z phys' s streamid) _
                (register_stream-ne-spin z f cells phys' s streamid c' fresh out)
                (λ added.
                  >>=-ne-spin (spdy_control_frame_destroy (spdy_control_frame_init stack)) _
                    (spdy_control_frame_destroy-ne-spin (spdy_control_frame_init stack))
                    (λ _. done-ne-spin)))))

  module _ (phys : Phys (z.Strm)) (c : IsConnection phys f cells) (message : Demux) where
    deliver_control-ne-spin : deliver_control z stack phys message ≢ spin
    unfolding deliver_control deliver_syn_stream deliver_syn_reply
    deliver_control-ne-spin =
        let syn = phys.frame.control.obj.syn_stream in
        let rep = phys.frame.control.obj.syn_reply in
        let type = phys.frame.control.type in
        if-ne-spin (type == ctrl_syn_stream) _ _
          (>>=-ne-spin (stream_init z stack phys syn.priority 0 0 syn.stream_id) _
            (stream_init-ne-spin phys syn.priority 0 0 syn.stream_id c) (λ r. done-ne-spin))
          (if-ne-spin (type == ctrl_syn_reply) _ _
            (>>=-ne-spin (hash_get (hash_rounds phys) phys.store phys.streamhash rep.stream_id) _
              (lookup-ne-spin f cells phys c rep.stream_id)
              (λ n. if-ne-spin (n == 0) _ _ done-ne-spin (
                >>=-ne-spin (entry_at phys.store n) _ (entry_at-ne-spin phys.store n)
                  (λ e. done-ne-spin))))
            (λ e. cc))

    deliver-ne-spin : (chunk : Ptr) → deliver z stack phys message chunk ≢ spin
    unfolding deliver spdy_frame_destroy remove_inqnode
    deliver-ne-spin chunk =
        >>=-ne-spin _ _
          (if-ne-spin (is_control phys.frame.type) _ _
            (>>=-ne-spin (deliver_control z stack phys message) _ deliver_control-ne-spin (λ r.
              >>=-ne-spin (spdy_frame_destroy phys.frame) _
                (if-ne-spin (is_control phys.frame.type) _ _
                  (spdy_control_frame_destroy-ne-spin phys.frame.control) done-ne-spin)
                (λ _. done-ne-spin)))
            done-ne-spin)
          (λ r.
            if-ne-spin (r.2.input.cursor == length r.2.input.buf) _ _
              (>>=-ne-spin (remove_inqnode r.2 chunk) _
                (if-ne-spin (chunk == 0) _ _ (λ e. cc) done-ne-spin) (λ x. done-ne-spin))
              done-ne-spin)

  append-ne-spin : (phys : Phys (z.Strm)) → IsConnection phys f cells → parse_append phys ≢ spin
  unfolding parse_append merge_chunks
  append-ne-spin phys c =
      let n = list_first (heap_of phys) inq in
      if-ne-spin (n == 0) _ _ (λ e. cc)
        (if-ne-spin (list_next (heap_of phys) n == 0) _ _ done-ne-spin (rw (c.unset) (λ e. cc)))

  take_chunk-ne-spin : (phys : Phys (z.Strm)) (chunk : Ptr) → take_chunk z stack phys chunk ≢ spin
  unfolding take_chunk
  take_chunk-ne-spin phys chunk =
      if-ne-spin (leb (length phys.input.buf) phys.input.cursor) _ _
        (if-ne-spin (chunk == 0) _ _ (λ e. cc)
          (>>=-ne-spin (memcpy (phys.indata chunk).datalen (phys.indata chunk).bytes) _
            (memcpy-ne-spin (phys.indata chunk).datalen (phys.indata chunk).bytes)
            (λ bytes. done-ne-spin)))
        done-ne-spin

  -- On a whole connection, one round is enough for spindly_phys_demux: it returns a code, faults or fails
  -- an assertion, and none of the loops below it runs out of rounds.
  pub phys_demux-ne-spin :
      (k : ℕ) (phys : Phys (z.Strm)) (message : Demux)
      → IsConnection phys f cells
      → phys_demux z stack (suc k) phys message ≢ spin
  unfolding phys_demux demux_loop
  phys_demux-ne-spin k phys message c =
      let chunk = list_first (heap_of phys) inq in
      Post-bind-ne-spin (λ fed. IsConnection fed f cells) (take_chunk z stack phys chunk) _
        (take_chunk-ne-spin phys chunk) (take_chunk-Post z stack f cells phys chunk c)
        (λ fed c1.
          let Q = λ (m : Answers). IsSupply f fed.outgoing m in
          Post-bind-ne-spin (λ r. Kept z Q (λ p m q. q.1) (env_of fed) r.3)
            (spdy_frame_parse z fed.frame fed.input (env_of fed)) _
            (spdy_frame_parse-ne-spin z (env_of fed) (lookup-ne-spin f cells fed c1) fed.frame
              fed.input)
            (spdy_frame_parse-Kept z Q (λ p m q. q.1) fed.frame fed.input (env_of fed) c1.supply)
            (λ r kept.
              let (supply, store) = kept in
              let parsed = record fed {
                frame = r.1;
                input = r.2;
                zlib_in = r.3.zlib_in;
                store = r.3.store;
                memory = r.3.memory;
              } in
              let c2 : IsConnection parsed f cells =
                alike f cells fed parsed c1 store refl refl refl refl refl refl supply in
              if-ne-spin (succeeded r.0) _ _ (deliver-ne-spin parsed c2 _ chunk) (
                if-ne-spin (is_insuff r.0) _ _
                  (Post-bind-ne-spin (λ a. (a.1 ≡ false) × (a.2 ≡ parsed)) (parse_append parsed) _
                    (append-ne-spin parsed c2) (append-Post f cells parsed c2)
                    (λ a same.
                      if-ne-spin (succeeded a.0) _ _ (rw (same.0) done-ne-spin) done-ne-spin))
                  done-ne-spin)))
