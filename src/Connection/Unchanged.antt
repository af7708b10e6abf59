-- ===== src/Connection/Unchanged.antt =====
-- The parts of a connection that an operation leaves as they were.
use spindly.Prelude.{◌≡◌, ◌≢◌, ◌⊎◌, inl, inr, refl, sym, false, List, [], ◌∷◌, ◌++◌, ◌==◌, arith}
use spindly.Memory.{Answers, malloc}
use spindly.LinkedList.{Ptr, update}
use spindly.LinkedList.Segment.{has}
use spindly.Hash.Cells.{Cells}
use spindly.Phys.{Phys}
use spindly.Connection.{IsApart, IsConnection}
use spindly.Connection.Supply.{IsFresh, IsSupply, has-added}

-- The first answer, and what follows it.
pub malloc-IsSupply :
    (f : Ptr → List Ptr) (o : Ptr) (m : Answers)
    → IsSupply f o m
    → (((malloc m).0 ≡ 0) ⊎ (IsFresh f o (malloc m).0 × (has (malloc m).0 (malloc m).1 ≡ false)))
      × IsSupply f o (malloc m).1
malloc-IsSupply f o [] s = (inl refl, tt)
malloc-IsSupply f o (p ∷ m) s = s

-- With a test that the answer is not NULL.
pub malloc-IsFresh :
    (f : Ptr → List Ptr) (o : Ptr) (m : Answers)
    → IsSupply f o m
    → ((malloc m).0 == 0) ≡ false
    → IsFresh f o (malloc m).0 × (has (malloc m).0 (malloc m).1 ≡ false)
malloc-IsFresh f o m s e = elim (malloc-IsSupply f o m s).0 [
  | inl z ↦ absurd (ground arith)
  | inr fresh ↦ fresh
]

pub has-malloc : (p : Ptr) (m : Answers) → has p m ≡ false → has p (malloc m).1 ≡ false
has-malloc p [] h = h
has-malloc p (q ∷ m) h = ground arith

module _ {Strm : Type 0} (f : Ptr → List Ptr) (cells : Cells) where
  -- What an operation changes outside these members does not matter.
  pub alike :
      (phys phys' : Phys Strm)
      → IsConnection phys f cells
      → phys'.store ≡ phys.store
      → phys'.streamhash ≡ phys.streamhash
      → phys'.num_streams ≡ phys.num_streams
      → phys'.outgoing ≡ phys.outgoing
      → phys'.parse ≡ phys.parse
      → phys'.streamid ≡ phys.streamid
      → phys'.side ≡ phys.side
      → IsSupply f phys.outgoing phys'.memory
      → IsConnection phys' f cells
  alike phys phys' c store hash streams outgoing parse id side supply = record {
    lists = rw store (c.lists);
    hashed = rw hash (c.hashed);
    linked = c.linked;
    held = rw store (c.held);
    distinct = c.distinct;
    counted = rw streams (c.counted);
    sending = rw outgoing (c.sending);
    buffers = rw outgoing (c.buffers);
    supply = rw outgoing supply;
    unset = rw parse (c.unset);
    ids = rw (id, side) (c.ids);
  }

  pub with_memory :
      (phys : Phys Strm) (m : Answers)
      → IsConnection phys f cells
      → IsSupply f phys.outgoing m
      → IsConnection (record phys { memory = m }) f cells
  with_memory phys m c s =
      alike phys (record phys { memory = m }) c refl refl refl refl refl refl refl s

  -- The buffer that is sent is still apart when a fresh node is added.
  pub sending-added :
      (phys : Phys Strm) (h p : Ptr)
      → IsConnection phys f cells
      → p ≢ phys.outgoing
      → (phys.outgoing ≡ 0) ⊎ IsApart (update f h (f h ++ p ∷ [])) phys.outgoing
  sending-added phys h p c ne = elim (c.sending) [
    | inl z ↦ inl z
    | inr (nonnull, out) ↦ inr (nonnull, has-added f h p phys.outgoing (λ e. ne (sym e)) out)
  ]
