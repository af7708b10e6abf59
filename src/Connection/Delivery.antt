-- ===== src/Connection/Delivery.antt =====
-- The part of spindly_phys_demux in src/spindly_phys.c that follows a parsed frame, on whole connections.
use spindly.Prelude.{
  ◌≡◌, ◌⊎◌, inl, inr, refl, List, [], ◌∷◌, ◌==◌, length, Post, Post-bind, Post-bind_any, Post-if,
}
use spindly.Codes.{Code}
use spindly.LinkedList.{Ptr, update}
use spindly.LinkedList.Lists.{list_remove-Lists}
use spindly.Hash.{hash_get, entry_at}
use spindly.Hash.Cells.{Cells}
use spindly.Zlib.{Zlib}
use spindly.ControlFrame.{ControlFrame, ctrl_syn_stream, ctrl_syn_reply}
use spindly.Frame.{is_control, spdy_frame_destroy}
use spindly.Phys.{without_chunk, Phys, inq, heap_of, hash_rounds, remove_inqnode}
use spindly.Stream.{stream_init}
use spindly.Demux.{Demux, deliver_syn_stream, deliver_syn_reply, deliver_control, deliver}
use spindly.Connection.{IsConnection, IsConnected, IsConnectedWith}
use spindly.Connection.Supply.{IsSupply-removed, has-removed}
use spindly.Connection.Unchanged.{alike}
use spindly.Connection.Opening.{stream_init-Post}

-- A chunk that is done with.
module _ {Strm : Type 0} (f : Ptr → List Ptr) (cells : Cells) (phys : Phys Strm)
    (c : IsConnection phys f cells) (chunk : Ptr) (rest : List Ptr) (e : f inq ≡ chunk ∷ rest) where
  removed-IsConnection : IsConnection (without_chunk phys chunk) (update f inq rest) cells
  removed-IsConnection = record {
    lists = list_remove-Lists (heap_of phys) f c.lists inq chunk [] rest e;
    hashed = c.hashed;
    linked = c.linked;
    held = c.held;
    distinct = c.distinct;
    counted = c.counted;
    sending = elim (c.sending) [
      | inl z ↦ inl z
      | inr (nonnull, out) ↦ inr (nonnull, has-removed f inq chunk phys.outgoing rest e out)
    ];
    buffers = c.buffers;
    supply =
        IsSupply-removed f phys.outgoing phys.memory c.supply inq chunk rest phys.outgoing e
          (inl refl);
    unset = c.unset;
    ids = c.ids;
  }

-- The first of the waiting chunks, as the demultiplexer reads it; `0` stands for none.
abbrev pub IsFirst : List Ptr → Ptr → Type 0
IsFirst waiting chunk = (chunk ≡ 0) ⊎ ((rest : List Ptr) × (waiting ≡ chunk ∷ rest))

remove_inqnode-Post :
    {Strm : Type 0} (phys : Phys Strm) (chunk : Ptr) (waiting : List Ptr)
    → IsFirst waiting chunk
    → IsConnectedWith waiting phys
    → Post (λ r. IsConnected r.1) (remove_inqnode phys chunk)
unfolding remove_inqnode
remove_inqnode-Post phys chunk waiting first (f, cells, c, w) = elim first [
  | inl z ↦ rw z tt
  | inr (rest, e) ↦
      Post-if (λ r. IsConnected r.1) (chunk == 0) _ _ (λ _. tt)
        (λ _. (
          update f inq rest,
          cells,
          removed-IsConnection f cells phys c chunk rest (rw (w, e) refl),
        ))
]

module _ (z : Zlib) (stack : ControlFrame) (f : Ptr → List Ptr) (cells : Cells)
    (phys : Phys (z.Strm)) (c : IsConnection phys f cells) (message : Demux) where
  control-Post : Post (λ r. IsConnectedWith (f inq) r.2) (deliver_control z stack phys message)
  unfolding deliver_control deliver_syn_stream deliver_syn_reply
  control-Post =
      let P = λ (r : Code × Demux × Phys (z.Strm)). IsConnectedWith (f inq) r.2 in
      let syn = phys.frame.control.obj.syn_stream in
      let rep = phys.frame.control.obj.syn_reply in
      let type = phys.frame.control.type in
      Post-if P (type == ctrl_syn_stream) _ _
        (λ _.
          Post-bind (λ r. IsConnectedWith (f inq) r.2) P
            (stream_init z stack phys syn.priority 0 0 syn.stream_id) _
            (stream_init-Post z f cells phys c stack syn.priority 0 0 syn.stream_id) (λ r h. h))
        (λ _.
          Post-if P (type == ctrl_syn_reply) _ _
            (λ _.
              Post-bind_any P (hash_get (hash_rounds phys) phys.store phys.streamhash rep.stream_id)
                _
                (λ n.
                  Post-if P (n == 0) _ _ (λ _. (f, cells, c, refl))
                    (λ _. Post-bind_any P (entry_at phys.store n) _ (λ e. (
                      f,
                      cells,
                      alike f cells phys _ c refl refl refl refl refl refl refl c.supply,
                      refl,
                    )))))
            (λ _. tt))

  pub deliver-Post :
      (chunk : Ptr)
      → IsFirst (f inq) chunk
      → Post (λ r. IsConnected r.2) (deliver z stack phys message chunk)
  unfolding deliver
  deliver-Post chunk first =
      let P = λ (r : Code × Demux × Phys (z.Strm)). IsConnected r.2 in
      let B = λ (r : Code × Demux × Phys (z.Strm)). IsConnectedWith (f inq) r.2 in
      Post-bind B P _ _
        (Post-if B (is_control phys.frame.type) _ _
          (λ _.
            Post-bind B B (deliver_control z stack phys message) _ control-Post
              (λ r h. Post-bind_any B (spdy_frame_destroy phys.frame) _ (λ _. h)))
          (λ _. (f, cells, c, refl)))
        (λ r h.
          Post-if P (r.2.input.cursor == length r.2.input.buf) _ _
            (λ _.
              Post-bind (λ x. IsConnected x.1) P (remove_inqnode r.2 chunk) _
                (remove_inqnode-Post r.2 chunk (f inq) first h) (λ x h'. h'))
            (λ _. let (g, cells', c', _) = h in (g, cells', c')))
