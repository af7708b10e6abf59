-- ===== src/Connection/Sending.antt =====
-- The packing of a frame into a pending buffer (src/spindly_stream.c) on whole connections.
use spindly.Prelude.{
  ℕ, ◌≡◌, ◌≢◌, ◌⊎◌, inl, inr, refl, ap, true, false, List, [], ◌∷◌, ◌++◌, ◌==◌, arith, length,
  length-append, List-cases, Post, Post-bind, Post-if,
}
use spindly.Codes.{Code, succeeded}
use spindly.Memory.{Answers}
use spindly.LinkedList.{Ptr, update, list_add, list_remove, list_first}
use spindly.LinkedList.Segment.{has}
use spindly.LinkedList.IsList.{ne→==}
use spindly.LinkedList.Lists.{
  list_add-Lists, list_remove-Lists, list_first-cons, list_first-nil, removed_first,
}
use spindly.Hash.Cells.{Cells}
use spindly.Zlib.{Zlib}
use spindly.ControlFrame.{ControlFrame, spdy_control_frame_pack}
use spindly.ControlFrame.Supply.{spdy_control_frame_pack-Answers}
use spindly.Phys.{Phys, OutData, outq, inq, pendq, heap_of, set_heap, phys_outbufsize}
use spindly.Stream.{send_frame}
use spindly.Connection.{IsApart, IsConnection}
use spindly.Connection.Supply.{
  IsFresh, IsSupply, IsSupply-added, IsSupply-removed, has-added, has-removed, first-ne,
}

-- A node of a list is none of the coming answers.
listed-not-given :
    (f : Ptr → List Ptr) (o h p : Ptr) (ps : List Ptr) (m : Answers)
    → f h ≡ p ∷ ps
    → p ≢ 0
    → IsSupply f o m
    → has p m ≡ false
listed-not-given f o h p ps [] e ne s = refl
listed-not-given f o h p ps (q ∷ m) e ne (first, s) =
    let rest = listed-not-given f o h p ps m e ne s in
    elim first [
      | inl z ↦ ground arith
      | inr (fresh, out) ↦ let apart = first-ne f h p q ps e fresh.unlisted in ground arith
    ]

module _ {Strm : Type 0} (f : Ptr → List Ptr) (cells : Cells) (phys : Phys Strm)
    (c : IsConnection phys f cells) (od : Ptr) (rest : List Ptr) (e : f pendq ≡ od ∷ rest) where
  -- The connection without the pending buffer.
  abbrev taken : Answers → Phys Strm
  taken m = record (set_heap phys (list_remove (heap_of phys) od)) { memory = m }

  apart_removed : (phys.outgoing ≡ 0) ⊎ IsApart (update f pendq rest) phys.outgoing
  apart_removed = elim (c.sending) [
    | inl z ↦ inl z
    | inr (nonnull, out) ↦ inr (nonnull, has-removed f pendq od phys.outgoing rest e out)
  ]

  taken-IsConnection :
      (m : Answers)
      → IsSupply f phys.outgoing m
      → IsConnection (taken m) (update f pendq rest) cells
  taken-IsConnection m s = record {
    lists = list_remove-Lists (heap_of phys) f c.lists pendq od [] rest e;
    hashed = c.hashed;
    linked = c.linked;
    held = c.held;
    distinct = c.distinct;
    counted = c.counted;
    sending = apart_removed;
    buffers = let b = c.buffers in let k = ap length e in ground arith;
    supply = IsSupply-removed f phys.outgoing m s pendq od rest phys.outgoing e (inl refl);
    unset = c.unset;
    ids = c.ids;
  }

  -- The buffer stands at the end of the output queue.
  queued-IsConnection :
      (m : Answers) (table : Ptr → OutData)
      → IsSupply f phys.outgoing m
      → IsConnection
          (record (set_heap (taken m) (list_add (heap_of (taken m)) outq od)) { outdata = table })
          (update (update f pendq rest) outq (f outq ++ od ∷ []))
          cells
  queued-IsConnection m table s =
      let c' = taken-IsConnection m s in
      let (_, ne) = list_first-cons (heap_of phys) f c.lists pendq od rest e in
      let g = update f pendq rest in
      record {
        lists =
            list_add-Lists (heap_of (taken m)) g c'.lists outq od ne
              (removed_first (heap_of phys) f c.lists pendq od rest e);
        hashed = c.hashed;
        linked = c.linked;
        held = c.held;
        distinct = c.distinct;
        counted = c.counted;
        sending = elim (c.sending) [
          | inl z ↦ inl z
          | inr (nonnull, out) ↦ inr (
            nonnull,
            has-added g outq od phys.outgoing (first-ne f pendq od phys.outgoing rest e out)
                (has-removed f pendq od phys.outgoing rest e out),
          )
        ];
        buffers =
            let b = c.buffers in
            let k = ap length e in let l = length-append (f outq) (od ∷ []) in ground arith;
        supply =
            IsSupply-added g phys.outgoing m c'.supply outq od
              (listed-not-given f phys.outgoing pendq od rest m e ne s);
        unset = c.unset;
        ids = c.ids;
      }

  -- What was fresh before is fresh with the buffer at its new place.
  queued-IsFresh :
      (q : Ptr)
      → IsFresh f phys.outgoing q
      → IsFresh (update (update f pendq rest) outq (f outq ++ od ∷ [])) phys.outgoing q
  queued-IsFresh q fresh = record {
    nonnull = fresh.nonnull;
    unlisted =
        has-added (update f pendq rest) outq od q (first-ne f pendq od q rest e fresh.unlisted)
          (has-removed f pendq od q rest e fresh.unlisted);
    unsent = fresh.unsent;
  }

-- The first pending buffer joins the end of the queue, if the code is a success.
abbrev pub Queued : (f g : Ptr → List Ptr) → Code → Type 0
Queued f g rc =
    (succeeded rc ≡ true
      → (od : Ptr) × (rest : List Ptr) × (f pendq ≡ od ∷ rest) × (g outq ≡ f outq ++ od ∷ []))
    × (succeeded rc ≡ false → g outq ≡ f outq)

-- After send_frame: a whole connection, what held of the answers, what was fresh, the side, the waiting chunks
-- and the queue.
abbrev pub Sent :
    {Strm : Type 0}
    → (Answers → Type 0)
    → (Ptr → List Ptr)
    → Cells
    → Phys Strm
    → Code
    → Phys Strm
    → Type 0
Sent R f cells phys rc phys' =
    (g : Ptr → List Ptr) × IsConnection phys' g cells
    × R phys'.memory
    × ((q : Ptr) → IsFresh f phys.outgoing q → IsFresh g phys'.outgoing q)
    × (phys'.side ≡ phys.side)
    × (g inq ≡ f inq)
    × Queued f g rc

module _ (z : Zlib) (R : Answers → Type 0) (tail : (p : ℕ) (m : Answers) → R (p ∷ m) → R m)
    (f : Ptr → List Ptr) (cells : Cells) (phys : Phys (z.Strm))
    (c : IsConnection phys f cells) where
  packed :
      (od : Ptr) (rest : List Ptr) (e : f pendq ≡ od ∷ rest) (s : Ptr) (frame : ControlFrame)
      → R phys.memory
      → list_first (heap_of phys) pendq ≡ od
      → (od == 0) ≡ false
      → Post (λ r. Sent R f cells phys r.0 r.1) (send_frame z phys s frame)
  unfolding send_frame
  packed od rest e s frame r first nonnull =
      let P = λ (x : Code × Phys (z.Strm)). Sent R f cells phys x.0 x.1 in
      let Q = λ (m : Answers). IsSupply f phys.outgoing m × R m in
      rw (first, nonnull)
        (Post-bind (λ x. Q x.3) P (spdy_control_frame_pack z phys_outbufsize frame phys.memory) _
          (spdy_control_frame_pack-Answers z Q (λ p m q. (q.0.1, tail p m q.1)) phys_outbufsize
            frame phys.memory (c.supply, r))
          (λ x q.
            Post-if P (succeeded x.0) _ _
              (λ fine. (
                update (update f pendq rest) outq (f outq ++ od ∷ []),
                queued-IsConnection f cells phys c od rest e x.3 _ q.0,
                q.1,
                queued-IsFresh f cells phys c od rest e,
                refl,
                refl,
                ((λ _. (od, rest, e, refl)), (λ no. let t = fine in cc)),
              ))
              (λ failed. (
                update f pendq rest,
                taken-IsConnection f cells phys c od rest e x.3 q.0,
                q.1,
                (λ q' fresh. record {
                  nonnull = fresh.nonnull;
                  unlisted = has-removed f pendq od q' rest e fresh.unlisted;
                  unsent = fresh.unsent;
                }),
                refl,
                refl,
                ((λ fine. let t = failed in cc), (λ _. refl)),
              ))))

  pub send_frame-Sent :
      (s : Ptr) (frame : ControlFrame)
      → R phys.memory
      → Post (λ r. Sent R f cells phys r.0 r.1) (send_frame z phys s frame)
  send_frame-Sent s frame r = elim (List-cases (f pendq)) [
    | inl e ↦
        let empty = list_first-nil (heap_of phys) f c.lists pendq e in
        unfold send_frame in rw empty tt
    | inr (od, rest, e) ↦
        let (first, ne) = list_first-cons (heap_of phys) f c.lists pendq od rest e in
        packed od rest e s frame r first (ne→== ne)
  ]
