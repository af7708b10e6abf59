-- ===== src/Connection/Queues.antt =====
-- spindly_phys_incoming, spindly_phys_outgoing and spindly_phys_sent of src/spindly_phys.c on whole connections.
use spindly.Prelude.{
  ℕ, ◌-◌, ◌≡◌, inl, inr, refl, ap, false, Bool, List, [], ◌∷◌, ◌++◌, done, ltb, ◌==◌, arith, length,
  length-append, Bool-cases, List-cases, ==_iff, Post, Post-bind_any, Post-if, Post-done,
}
use spindly.Codes.{Code}
use spindly.Memory.{malloc, memcpy}
use spindly.LinkedList.{Ptr, update, list_add, list_remove}
use spindly.LinkedList.Segment.{has}
use spindly.LinkedList.IsList.{ne→==}
use spindly.LinkedList.Lists.{
  list_add-Lists, list_remove-Lists, list_first-cons, list_first-nil, removed_first,
}
use spindly.Hash.Cells.{Cells}
use spindly.Phys.{
  Phys, outq, inq, pendq, heap_of, set_heap, phys_outgoing, queue_indata, phys_incoming, phys_sent,
}
use spindly.Connection.{IsApart, IsConnection, IsConnected}
use spindly.Connection.Supply.{IsFresh, IsSupply-added, IsSupply-removed, IsSupply-map, has-added}
use spindly.Connection.Unchanged.{
  malloc-IsSupply, malloc-IsFresh, has-malloc, alike, with_memory, sending-added,
}

module _ {Strm : Type 0} (f : Ptr → List Ptr) (cells : Cells) where
  queued :
      (phys : Phys Strm) (p : Ptr) (bytes : List ℕ) (n : ℕ) (identifier : Ptr)
      → IsConnection phys f cells
      → IsFresh f phys.outgoing p
      → has p phys.memory ≡ false
      → IsConnection (queue_indata phys p bytes n identifier) (update f inq (f inq ++ p ∷ [])) cells
  unfolding queue_indata
  queued phys p bytes n identifier c fresh out = record {
    lists = list_add-Lists (heap_of phys) f c.lists inq p fresh.nonnull fresh.unlisted;
    hashed = c.hashed;
    linked = c.linked;
    held = c.held;
    distinct = c.distinct;
    counted = c.counted;
    sending = sending-added f cells phys inq p c fresh.unsent;
    buffers = c.buffers;
    supply = IsSupply-added f phys.outgoing phys.memory c.supply inq p out;
    unset = c.unset;
    ids = c.ids;
  }

  pub incoming-Post :
      (phys : Phys Strm) (bytes : List ℕ) (n : ℕ) (copy : Bool) (identifier : Ptr)
      → IsConnection phys f cells
      → Post (λ r. IsConnected r.1) (phys_incoming phys bytes n copy identifier)
  unfolding phys_incoming
  incoming-Post phys bytes n copy identifier c =
      let P = λ (r : Code × Phys Strm). IsConnected r.1 in
      let m = phys.memory in
      let (_, s1) = malloc-IsSupply f phys.outgoing m c.supply in
      let (_, s2) = malloc-IsSupply f phys.outgoing (malloc m).1 s1 in
      let c1 = with_memory f cells phys (malloc m).1 c s1 in
      let c2 = with_memory f cells phys (malloc (malloc m).1).1 c s2 in
      Post-if P ((malloc m).0 == 0) _ _ (λ _. (f, cells, c1))
        (λ e.
          let (fresh, out) = malloc-IsFresh f phys.outgoing m c.supply e in
          Post-if P copy _ _
            (λ _.
              Post-if P ((malloc (malloc m).1).0 == 0) _ _ (λ _. (f, cells, c2))
                (λ _. Post-bind_any P (memcpy n bytes) _ (λ copied. (
                  _,
                  cells,
                  queued _ _ copied n identifier c2 fresh
                      (has-malloc (malloc m).0 (malloc m).1 out),
                ))))
            (λ _. (_, cells, queued _ _ bytes n identifier c1 fresh out)))

  -- phys_incoming keeps a connection whole, whatever comes in and however the allocator answers.
  pub phys_incoming-IsConnected :
      (phys phys' : Phys Strm) (bytes : List ℕ) (n : ℕ) (copy : Bool) (identifier : Ptr) (rc : Code)
      → IsConnection phys f cells
      → phys_incoming phys bytes n copy identifier ≡ done (rc, phys')
      → IsConnected phys'
  phys_incoming-IsConnected phys phys' bytes n copy identifier rc c e =
      Post-done (λ r. IsConnected r.1) (phys_incoming phys bytes n copy identifier) (rc, phys')
        (incoming-Post phys bytes n copy identifier c) e

  pub outgoing_taken :
      (phys : Phys Strm) (od : Ptr) (rest : List Ptr)
      → IsConnection phys f cells
      → phys.outgoing ≡ 0
      → f outq ≡ od ∷ rest
      → IsConnection
          (record (set_heap phys (list_remove (heap_of phys) od)) {
            outgoing = od;
            outgoing_tosend = (phys.outdata od).len;
          })
          (update f outq rest)
          cells
  outgoing_taken phys od rest c free e =
      let (_, ne) = list_first-cons (heap_of phys) f c.lists outq od rest e in
      record {
        lists = list_remove-Lists (heap_of phys) f c.lists outq od [] rest e;
        hashed = c.hashed;
        linked = c.linked;
        held = c.held;
        distinct = c.distinct;
        counted = c.counted;
        sending = inr (ne, removed_first (heap_of phys) f c.lists outq od rest e);
        buffers = let b = c.buffers in let k = ap length e in ground arith;
        supply = IsSupply-removed f phys.outgoing phys.memory c.supply outq od rest od e (inr refl);
        unset = c.unset;
        ids = c.ids;
      }

  -- phys_outgoing keeps a connection whole, on every branch.
  pub phys_outgoing-IsConnected :
      (phys : Phys Strm) → IsConnection phys f cells → IsConnected (phys_outgoing phys).1
  unfolding phys_outgoing
  phys_outgoing-IsConnected phys c = elim (Bool-cases (phys.outgoing == 0)) [
    | inr busy ↦ rw busy (f, cells, c)
    | inl free ↦ elim (List-cases (f outq)) [
      | inl e ↦ rw (free, list_first-nil (heap_of phys) f c.lists outq e) (f, cells, c)
      | inr (od, rest, e) ↦
          let (first, ne) = list_first-cons (heap_of phys) f c.lists outq od rest e in
          let taken = outgoing_taken phys od rest c ((==_iff phys.outgoing 0).0 free) e in
          rw (free, first, ne→== ne) (update f outq rest, cells, taken)
    ]
  ]

  pub sent_all :
      (phys : Phys Strm) (left : ℕ)
      → IsConnection phys f cells
      → (phys.outgoing == 0) ≡ false
      → IsConnection
          (record (set_heap phys (list_add (heap_of phys) pendq phys.outgoing)) {
            outgoing = 0;
            outgoing_tosend = left;
          })
          (update f pendq (f pendq ++ phys.outgoing ∷ []))
          cells
  sent_all phys left c busy =
      let (ne, out) = elim (c.sending) as (λ _. IsApart f phys.outgoing) [
        | inl z ↦ absurd (ground arith)
        | inr a ↦ a
      ] in
      record {
        lists = list_add-Lists (heap_of phys) f c.lists pendq phys.outgoing ne out;
        hashed = c.hashed;
        linked = c.linked;
        held = c.held;
        distinct = c.distinct;
        counted = c.counted;
        sending = inl refl;
        buffers =
            let b = c.buffers in
            let k = length-append (f pendq) (phys.outgoing ∷ []) in ground arith;
        supply =
            IsSupply-map f (update f pendq (f pendq ++ phys.outgoing ∷ [])) phys.outgoing 0
              phys.memory
              (λ q mem fresh. record {
                nonnull = fresh.nonnull;
                unlisted = has-added f pendq phys.outgoing q fresh.unsent fresh.unlisted;
                unsent = fresh.nonnull;
              })
              c.supply;
        unset = c.unset;
        ids = c.ids;
      }

  sent-Post :
      (phys : Phys Strm) (len : ℕ)
      → IsConnection phys f cells
      → Post (λ r. IsConnected r.1) (phys_sent phys len)
  unfolding phys_sent
  sent-Post phys len c =
      let P = λ (r : Code × Phys Strm). IsConnected r.1 in
      Post-if P (ltb phys.outgoing_tosend len) _ _ (λ _. (f, cells, c))
        (λ _.
          let left = phys.outgoing_tosend - len in
          let partly = record phys { outgoing_tosend = left } in
          Post-if P (left == 0) _ _
            (λ _.
              Post-if P (phys.outgoing == 0) _ _ (λ _. tt)
                (λ busy. (
                  update f pendq (f pendq ++ phys.outgoing ∷ []),
                  cells,
                  sent_all phys left c busy,
                )))
            (λ _.
              (f, cells, alike f cells phys partly c refl refl refl refl refl refl refl c.supply)))

  -- phys_sent keeps a connection whole, however many bytes are reported.
  pub phys_sent-IsConnected :
      (phys phys' : Phys Strm) (len : ℕ) (rc : Code)
      → IsConnection phys f cells
      → phys_sent phys len ≡ done (rc, phys')
      → IsConnected phys'
  phys_sent-IsConnected phys phys' len rc c e =
      Post-done (λ r. IsConnected r.1) (phys_sent phys len) (rc, phys') (sent-Post phys len c) e
