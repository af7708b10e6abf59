-- ===== src/Connection/Streams.antt =====
-- _spindly_phys_add_stream and _spindly_hash_store on whole connections.
use spindly.Prelude.{
  ℕ, ◌<◌, ◌≡◌, refl, sym, false, none, List, [], ◌∷◌, ◌++◌, arith, length, length-append,
}
use spindly.Memory.{Answers}
use spindly.LinkedList.{Ptr, update}
use spindly.LinkedList.Segment.{has}
use spindly.LinkedList.Lists.{list_add-Lists}
use spindly.Hash.Cells.{Cells, IsHash, nodes_of, find}
use spindly.Hash.Map.{entry, stored, stored-IsHash, nodes_of-append}
use spindly.Phys.{Phys, streams, lhead, heap_of, phys_add_stream}
use spindly.Connection.{IsConnection}
use spindly.Connection.Supply.{IsFresh, IsSupply, IsSupply-added}
use spindly.Connection.Unchanged.{sending-added}

-- The lookup of a whole connection.
pub connection-IsHash :
    {Strm : Type 0} (f : Ptr → List Ptr) (cells : Cells) (phys : Phys Strm)
    → IsConnection phys f cells
    → IsHash phys.store phys.streamhash cells
connection-IsHash f cells phys c = record {
  linked = rw (c.hashed, sym c.linked) (c.lists lhead);
  held = c.held;
  distinct = c.distinct;
}

module _ {Strm : Type 0} (f : Ptr → List Ptr) (cells : Cells) (phys : Phys Strm)
    (c : IsConnection phys f cells) where
  -- One more stream.
  pub added-IsConnection :
      (s : Ptr)
      → IsFresh f phys.outgoing s
      → has s phys.memory ≡ false
      → IsConnection (phys_add_stream phys s).1 (update f streams (f streams ++ s ∷ [])) cells
  unfolding phys_add_stream
  added-IsConnection s fresh out = record {
    lists = list_add-Lists (heap_of phys) f c.lists streams s fresh.nonnull fresh.unlisted;
    hashed = c.hashed;
    linked = c.linked;
    held = c.held;
    distinct = c.distinct;
    counted = let n = c.counted in omega arith;
    sending = sending-added f cells phys streams s c fresh.unsent;
    buffers = c.buffers;
    supply = IsSupply-added f phys.outgoing phys.memory c.supply streams s out;
    unset = c.unset;
    ids = c.ids;
  }

  -- One more entry in the lookup; the stream was counted before.
  pub stored-IsConnection :
      (id s p : ℕ) (m : Answers)
      → find id cells ≡ none
      → length cells < phys.num_streams
      → IsFresh f phys.outgoing p
      → has p m ≡ false
      → IsSupply f phys.outgoing m
      → IsConnection
          (record phys { store = stored phys.store phys.streamhash id s p; memory = m })
          (update f lhead (f lhead ++ p ∷ []))
          (cells ++ (p, entry id s) ∷ [])
  stored-IsConnection id s p m absent counted fresh out supply =
      let out' : has p (nodes_of cells) ≡ false = rw (sym c.linked) (fresh.unlisted lhead) in
      let is =
        stored-IsHash phys.store phys.streamhash id s p cells (connection-IsHash f cells phys c)
          absent fresh.nonnull out' in
      record {
        lists =
            rw (c.hashed)
              (list_add-Lists (heap_of phys) f c.lists lhead p fresh.nonnull fresh.unlisted);
        hashed = c.hashed;
        linked = rw (nodes_of-append cells p (entry id s), c.linked) refl;
        held = is.held;
        distinct = is.distinct;
        counted = let n = length-append cells ((p, entry id s) ∷ []) in omega arith;
        sending = sending-added f cells phys lhead p c fresh.unsent;
        buffers = c.buffers;
        supply = IsSupply-added f phys.outgoing m supply lhead p out;
        unset = c.unset;
        ids = c.ids;
      }
