-- ===== src/Connection/Draining.antt =====
-- spindly_phys_outgoing and spindly_phys_sent of src/spindly_phys.c in turn, as an application calls them.
use spindly.Prelude.{
  ℕ, zero, suc, ◌-◌, ◌<◌, ◌≡◌, refl, sym, ◌==◌, ==_iff, true, none, some, List, [], ◌∷◌, ◌++◌, Run,
  done, spin, ◌>>=◌, arith, length, map, le→ltb, append-nil, append_assoc,
}
use spindly.Codes.{ok}
use spindly.LinkedList.{Ptr, update, list_add, list_first, list_remove}
use spindly.LinkedList.IsList.{ne→==}
use spindly.LinkedList.Lists.{list_first-cons, list_first-nil}
use spindly.Hash.Cells.{Cells}
use spindly.Phys.{Phys, outq, pendq, heap_of, set_heap, phys_outgoing, phys_sent}
use spindly.Connection.{IsConnection}
use spindly.Connection.Queues.{outgoing_taken, sent_all}

module _ {Strm : Type 0} where
  -- What is handed out is sent at once and in full, until nothing is handed out. The buffers' contents, in
  -- this order, and the connection.
  unfoldable pub send_all : ℕ → Phys Strm → Run (List (List ℕ) × Phys Strm)
  send_all zero phys = spin
  send_all (suc k) phys =
      let (rc, taken, front, len) = phys_outgoing phys in
      elim front [
        | none ↦ done ([], taken)
        | some bytes ↦ do
          (rc', sent) ← phys_sent taken len
          (more, last) ← send_all k sent
          done (bytes ∷ more, last)
      ]

  -- The connection after the first buffer of the output queue was handed out and sent.
  abbrev taken_of : Phys Strm → Ptr → Phys Strm
  taken_of phys od = record (set_heap phys (list_remove (heap_of phys) od)) {
    outgoing = od;
    outgoing_tosend = (phys.outdata od).len;
  }

  abbrev sent_of : Phys Strm → Ptr → Phys Strm
  sent_of phys od =
      record (set_heap (taken_of phys od) (list_add (list_remove (heap_of phys) od) pendq od)) {
        outgoing = 0;
        outgoing_tosend = 0;
      }

  -- All of the buffers in `ods` were sent, and everything else is where it was.
  record IsDrained (phys : Phys Strm) (f : Ptr → List Ptr) (cells : Cells) (ods : List Ptr)
      (last : Phys Strm) (f' : Ptr → List Ptr) : Type 0 where
    pub whole : IsConnection last f' cells
    pub free : last.outgoing ≡ 0
    pub sent : f' outq ≡ []
    pub pending : f' pendq ≡ f pendq ++ ods
    pub table : last.outdata ≡ phys.outdata

  sent_all_of :
      (phys : Phys Strm) (f : Ptr → List Ptr) (cells : Cells) (od : Ptr) (rest : List Ptr)
      → IsConnection phys f cells
      → phys.outgoing ≡ 0
      → f outq ≡ od ∷ rest
      → (phys_outgoing phys
          ≡ (ok, taken_of phys od, some ((phys.outdata od).buffer), (phys.outdata od).len))
        × (phys_sent (taken_of phys od) ((phys.outdata od).len) ≡ done (ok, sent_of phys od))
        × IsConnection
            (sent_of phys od)
            (update (update f outq rest) pendq (f pendq ++ od ∷ []))
            cells
  unfolding phys_outgoing phys_sent
  sent_all_of phys f cells od rest c free e =
      let (first, ne) = list_first-cons (heap_of phys) f c.lists outq od rest e in
      let len = (phys.outdata od).len in
      let none_left : len - len ≡ 0 = omega arith in
      (
        rw (free, first, ne→== ne) refl,
        rw (le→ltb len len (omega arith), none_left, ne→== ne) refl,
        sent_all (update f outq rest) cells (taken_of phys od) 0
            (outgoing_taken f cells phys od rest c free e) (ne→== ne),
      )

  nothing_out :
      (phys : Phys Strm)
      → (phys.outgoing == 0) ≡ true
      → list_first (heap_of phys) outq ≡ 0
      → phys_outgoing phys ≡ (ok, phys, none, 0)
  unfolding phys_outgoing
  nothing_out phys free first = rw (free, first) refl

  send_all-loop :
      (k : ℕ) (ods : List Ptr) (phys : Phys Strm) (f : Ptr → List Ptr) (cells : Cells)
      → IsConnection phys f cells
      → phys.outgoing ≡ 0
      → f outq ≡ ods
      → length ods < k
      → (last : Phys Strm) × (f' : Ptr → List Ptr) × (send_all k phys
          ≡ done (map (λ od. (phys.outdata od).buffer) ods, last))
        × IsDrained phys f cells ods last f'
  unfolding send_all
  send_all-loop zero ods phys f cells c free e lt = absurd (omega arith)
  send_all-loop (suc k) [] phys f cells c free e lt =
      let out =
        nothing_out phys ((==_iff phys.outgoing 0).1 free)
          (list_first-nil (heap_of phys) f c.lists outq e) in
      (
        phys,
        f,
        rw (out, send_all, out) refl,
        record {
          whole = c;
          free = free;
          sent = e;
          pending = sym (append-nil (f pendq));
          table = refl;
        },
      )
  send_all-loop (suc k) (od ∷ rest) phys f cells c free e lt =
      let (out, sent, c') = sent_all_of phys f cells od rest c free e in
      let g = update (update f outq rest) pendq (f pendq ++ od ∷ []) in
      let (last, f', all, d) =
        send_all-loop k rest (sent_of phys od) g cells c' refl refl (omega arith) in
      (
        last,
        f',
        rw (out, send_all, out, sent, all) refl,
        record {
          whole = d.whole;
          free = d.free;
          sent = d.sent;
          pending = rw (d.pending) (append_assoc (f pendq) (od ∷ []) rest);
          table = d.table;
        },
      )

  -- On a whole connection with nothing outgoing, the application's loop ends after one round for each queued
  -- buffer and one more. It hands out the contents of all of them, in the order in which they were queued,
  -- whatever the priorities of their streams; then the output queue is empty, the buffers stand behind the
  -- others in the pending queue in that order, and the connection is whole.
  pub send_all-IsDrained :
      (phys : Phys Strm) (f : Ptr → List Ptr) (cells : Cells) (k : ℕ)
      → IsConnection phys f cells
      → phys.outgoing ≡ 0
      → length (f outq) < k
      → (last : Phys Strm) × (f' : Ptr → List Ptr) × (send_all k phys
          ≡ done (map (λ od. (phys.outdata od).buffer) (f outq), last))
        × IsConnection last f' cells
        × (f' outq ≡ [])
        × (f' pendq ≡ f pendq ++ f outq)
        × (last.outgoing ≡ 0)
  send_all-IsDrained phys f cells k c free enough =
      let (last, f', all, d) = send_all-loop k (f outq) phys f cells c free refl enough in
      (last, f', all, d.whole, d.sent, d.pending, d.free)
