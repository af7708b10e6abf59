-- ===== src/Phys/Queues.antt =====
-- The queues of outgoing and incoming buffers.
use spindly.Prelude.{
  ℕ, ◌+◌, ◌-◌, ◌<◌, ◌≡◌, ◌≢◌, refl, true, false, Run, ltb, ◌==◌, some, List, [], ◌∷◌, ◌++◌, done,
  ◌>>=◌, arith, le→ltb, ==_refl,
}
use spindly.Codes.{ok, inval}
use spindly.Memory.{Answers}
use spindly.LinkedList.{Ptr, update, list_add, list_remove}
use spindly.LinkedList.Segment.{has}
use spindly.LinkedList.IsList.{ne→==}
use spindly.LinkedList.Lists.{
  Lists, list_add-Lists, list_remove-Lists, list_first-cons, removed_first,
}
use spindly.Phys.{
  Phys, outq, inq, pendq, heap_of, set_heap, phys_outgoing, phys_incoming, phys_sent, queue_indata,
}

abbrev pub total : List ℕ → ℕ
total [] = 0
total (n ∷ ns) = n + total ns

module _ {Strm : Type 0} where
  -- The connection after a buffer was handed out, and after all of it was sent.
  abbrev taken_of : Phys Strm → Ptr → Phys Strm
  taken_of phys od = record (set_heap phys (list_remove (heap_of phys) od)) {
    outgoing = od;
    outgoing_tosend = (phys.outdata od).len;
  }

  abbrev sent_of : Phys Strm → Ptr → Phys Strm
  sent_of phys od = record (set_heap phys (list_add (list_remove (heap_of phys) od) pendq od)) {
    outgoing = 0;
    outgoing_tosend = 0;
  }

  -- On a connection with well-formed lists, a buffer in the output queue and nothing outgoing: the buffer that
  -- phys_outgoing hands out is the first of the queue, whatever its stream's priority, with its length and
  -- contents; once phys_sent is told that all of it was sent, it stands at the end of the pending queue, nothing
  -- is outgoing, and every other list is as before.
  pub phys_outgoing-phys_sent :
      (phys : Phys Strm) (f : Ptr → List Ptr) (od : Ptr) (rest : List Ptr)
      → Lists (heap_of phys) f
      → f outq ≡ od ∷ rest
      → phys.outgoing ≡ 0
      → (taken : Phys Strm) × (sent : Phys Strm) × (phys_outgoing phys
          ≡ (ok, taken, some ((phys.outdata od).buffer), (phys.outdata od).len))
        × Lists (heap_of taken) (update f outq rest)
        × (phys_sent taken ((phys.outdata od).len) ≡ done (ok, sent))
        × Lists (heap_of sent) (update (update f outq rest) pendq (f pendq ++ od ∷ []))
        × (sent.outgoing ≡ 0)
        × (sent.outgoing_tosend ≡ 0)
  unfolding phys_outgoing phys_sent
  phys_outgoing-phys_sent phys f od rest all e free =
      let (first, ne) = list_first-cons (heap_of phys) f all outq od rest e in
      let removed = list_remove-Lists (heap_of phys) f all outq od [] rest e in
      let added =
        list_add-Lists (list_remove (heap_of phys) od) (update f outq rest) removed pendq od ne
          (removed_first (heap_of phys) f all outq od rest e) in
      let len = (phys.outdata od).len in
      let none_left : len - len ≡ 0 = omega arith in
      (
        taken_of phys od,
        sent_of phys od,
        rw (free, first, ne→== ne) refl,
        removed,
        rw (le→ltb len len (omega arith), none_left, ne→== ne) refl,
        added,
        refl,
        refl,
      )

  -- On a connection with well-formed lists, when the allocator answers with a node that is in no list, a
  -- chunk that is not to be copied joins the end of the input queue, with its bytes, its length and its
  -- identifier, and the other lists stay.
  pub phys_incoming-Lists :
      (phys : Phys Strm) (f : Ptr → List Ptr) (node : Ptr) (later : Answers) (bytes : List ℕ)
      (datalen : ℕ) (identifier : Ptr)
      → Lists (heap_of phys) f
      → phys.memory ≡ node ∷ later
      → node ≢ 0
      → ((k : Ptr) → has node (f k) ≡ false)
      → (phys' : Phys Strm) × (phys_incoming phys bytes datalen false identifier ≡ done (ok, phys'))
        × Lists (heap_of phys') (update f inq (f inq ++ node ∷ []))
        × ((phys'.indata node).bytes ≡ bytes)
        × ((phys'.indata node).datalen ≡ datalen)
        × ((phys'.indata node).identifier ≡ identifier)
  unfolding phys_incoming queue_indata
  phys_incoming-Lists phys f node later bytes datalen identifier all e ne out =
      let added = list_add-Lists (heap_of phys) f all inq node ne out in
      (
        queue_indata (record phys { memory = later }) node bytes datalen identifier,
        rw (e, ne→== ne) refl,
        added,
        rw (==_refl node) refl,
        rw (==_refl node) refl,
        rw (==_refl node) refl,
      )

  -- What is sent in steps, one call of phys_sent for each.
  unfoldable pub report_each : Phys Strm → List ℕ → Run (Phys Strm)
  report_each phys [] = done phys
  report_each phys (n ∷ ns) = do (_, phys') ← phys_sent phys n; report_each phys' ns

  report_each-left :
      (ns : List ℕ) (phys : Phys Strm)
      → total ns < phys.outgoing_tosend
      → report_each phys ns
        ≡ done (record phys { outgoing_tosend = phys.outgoing_tosend - total ns })
  unfolding report_each phys_sent
  report_each-left [] phys h =
      let e : phys.outgoing_tosend - 0 ≡ phys.outgoing_tosend = omega arith in rw e refl
  report_each-left (n ∷ ns) phys h =
      let next = record phys { outgoing_tosend = phys.outgoing_tosend - n } in
      let more : (phys.outgoing_tosend - n == 0) ≡ false = ground arith in
      let e : (phys.outgoing_tosend - n) - total ns ≡ phys.outgoing_tosend - (n + total ns) =
        omega arith in
      let rest = report_each-left ns next (omega arith) in
      rw (le→ltb phys.outgoing_tosend n (omega arith), more, rest, e) refl

  -- While a buffer is being sent: whatever steps it takes that leave something, as much is left as they leave,
  -- and nothing else changes; a last step that takes what is left puts the buffer at the end of the pending
  -- queue, and nothing is outgoing; a step that takes more is refused and changes nothing.
  pub report_each-phys_sent :
      (phys : Phys Strm) (ns : List ℕ)
      → phys.outgoing ≢ 0
      → total ns < phys.outgoing_tosend
      → (left : Phys Strm) × (report_each phys ns ≡ done left)
        × (left ≡ record phys { outgoing_tosend = phys.outgoing_tosend - total ns })
        × (phys_sent left (phys.outgoing_tosend - total ns)
            ≡ done (
              ok,
              record (set_heap phys (list_add (heap_of phys) pendq phys.outgoing)) {
                outgoing = 0;
                outgoing_tosend = 0;
              },
            ))
        × ((more : ℕ)
            → phys.outgoing_tosend - total ns < more
            → phys_sent left more ≡ done (inval, left))
  unfolding phys_sent
  report_each-phys_sent phys ns busy h =
      let n = phys.outgoing_tosend - total ns in
      let e : n - n ≡ 0 = omega arith in
      (
        record phys { outgoing_tosend = n },
        report_each-left ns phys h,
        refl,
        rw (le→ltb n n (omega arith), e, ne→== busy) refl,
        λ more many. let t : ltb n more ≡ true = ground arith in rw t refl,
      )
