-- ===== src/Connection/Initial.antt =====
-- spindly_phys_init of src/spindly_phys.c and the invariant of a connection.
use mathlib.Core.Path.{subst}
use spindly.Prelude.{
  List, ◌∷◌, ◌++◌, ◌≢◌, All, length, ap, ◌∙◌, if_true, if_false, ℕ, ◌%◌, ◌≡◌, inl, refl, false,
  Option, none, some, [], Run, done, ◌==◌, arith, Post, Post-if, Post-done,
}
use spindly.Codes.{succeeded}
use spindly.Memory.{Answers, malloc}
use spindly.LinkedList.{Ptr, Heap, list_init}
use spindly.LinkedList.Segment.{has}
use spindly.LinkedList.IsList.{IsList, ne→==}
use spindly.Hash.{hash_init}
use spindly.Frame.{spdy_frame_init}
use spindly.SpdyData.{spdy_data_use}
use spindly.Zlib.{Zlib, CanInflate, spdy_zlib_inflate_init}
use spindly.Phys.{
  Side, client, server, OutData, Phys, streams, outq, inq, pendq, lhead, heap_of, fill_pendq,
  phys_init, phys_num_outdata,
}
use spindly.Connection.{parity, IsConnection, IsConnected}
use spindly.Connection.Supply.{IsSupply}
use spindly.Connection.Unchanged.{malloc-IsSupply}
use spindly.Connection.Filling.{
  nowhere, struct_heads, IsFilled, Filled, fill_pendq-some, fill_pendq-Filled, heads_set,
}

-- What a new connection starts with: the id of its side's first stream, nothing being sent and no input.
pub record IsNew {Strm : Type 0} (side : Side) (phys : Phys Strm) : Type 0 where
  pub id : phys.streamid ≡ elim side as (λ _. ℕ) [ client ↦ 1 | server ↦ 2 ]
  pub idle : phys.outgoing ≡ 0
  pub input : length phys.input.buf ≡ 0

module _ (z : Zlib) (raw : Phys (z.Strm)) (unset : raw.parse ≡ none)
    (other : (h : Ptr) → has h struct_heads ≡ false → IsList (heap_of raw) h []) where
  -- The connection that phys_init leaves, if there is one.
  abbrev NewIsWhole : Option (Phys (z.Strm)) × Answers → Type 0
  NewIsWhole (none, last) = Unit {0}
  NewIsWhole (some phys, last) = IsConnected phys

  -- The rest of the members, once the pending queue is filled.
  abbrev set_up :
      (Side)
      → (protver config address : ℕ) → (strm strm' : z.Strm) → Heap
      → (Ptr → OutData)
      → Answers
      → Phys (z.Strm)
  set_up side protver config address strm strm' g table last =
      let (hash, store) = hash_init (record (raw.store) { heap = g }) lhead address in
      record raw {
        config = config;
        side = side;
        protver = protver;
        num_streams = 0;
        streamid = elim side [ client ↦ 1 | server ↦ 2 ];
        outgoing = 0;
        outgoing_tosend = 0;
        zlib_in = strm;
        zlib_out = strm';
        outdata = table;
        frame = spdy_frame_init raw.frame;
        input = spdy_data_use [];
        store = store;
        streamhash = hash;
        memory = last;
      }

  set_up-IsConnection :
      (side : Side) (protver config address : ℕ) (strm strm' : z.Strm) (g : Heap)
      (table : Ptr → OutData) (last : Answers) (f : Ptr → List Ptr)
      → IsFilled nowhere phys_num_outdata g last f
      → IsConnection (set_up side protver config address strm strm' g table last) f []
  set_up-IsConnection side protver config address strm strm' g table last f filled = record {
    lists = filled.lists;
    hashed = refl;
    linked = filled.others lhead refl;
    held = tt;
    distinct = tt;
    counted = omega arith;
    sending = inl refl;
    buffers = let o = filled.others outq refl in let p = filled.pending in rw o (omega arith);
    supply = filled.supply;
    unset = unset;
    ids =
        elim side
          as (λ side. (elim side as (λ _. ℕ) [ client ↦ 1 | server ↦ 2 ]) % 2 ≡ parity side) [
            | client ↦ refl
            | server ↦ refl
          ];
  }

  -- The last lines of phys_init, which give the connection if the pending queue was filled.
  abbrev finish :
      (side : Side) (protver config address : ℕ) (strm strm' : z.Strm)
      → Option (Heap × (Ptr → OutData)) × Answers
      → Run (Option (Phys (z.Strm)) × Answers)
  finish side protver config address strm strm' r =
      elim r.0 as (λ _. Run (Option (Phys (z.Strm)) × Answers)) [
        | none ↦ done (none, r.1)
        | some (g, table) ↦
            done (some (set_up side protver config address strm strm' g table r.1), r.1)
      ]

  set_up-IsConnected :
      (side : Side) (protver config address : ℕ) (strm strm' : z.Strm)
      (r : Option (Heap × (Ptr → OutData)) × Answers)
      → Filled nowhere phys_num_outdata r
      → Post NewIsWhole (finish side protver config address strm strm' r)
  set_up-IsConnected side protver config address strm strm' (none, last) h = tt
  set_up-IsConnected side protver config address strm strm' (some (g, table), last) (f, filled) =
      (f, [], set_up-IsConnection side protver config address strm strm' g table last f filled)

  init-Post :
      (side : Side) (protver : ℕ) (config : Ptr) (memory : Answers)
      → IsSupply nowhere 0 memory
      → Post NewIsWhole (phys_init z raw side protver config memory)
  unfolding phys_init
  init-Post side protver config memory supply =
      let later = (malloc memory).1 in
      let (_, rest) = malloc-IsSupply nowhere 0 memory supply in
      let g = list_init (list_init (list_init (list_init (heap_of raw) streams) outq) inq) pendq in
      Post-if NewIsWhole ((malloc memory).0 == 0) _ _ (λ _. tt)
        (λ _.
          Post-if NewIsWhole (succeeded (spdy_zlib_inflate_init z 0).0) _ _
            (λ _.
              Post-if NewIsWhole (succeeded (spdy_zlib_inflate_init z 1).0) _ _
                (λ _.
                  set_up-IsConnected side protver config (malloc memory).0
                    (spdy_zlib_inflate_init z 0).1 (spdy_zlib_inflate_init z 1).1
                    (fill_pendq phys_num_outdata g raw.outdata later)
                    (fill_pendq-Filled phys_num_outdata g raw.outdata later nowhere
                      (heads_set (heap_of raw) other) rest))
                (λ _. tt))
            (λ _. tt))

  -- When the struct's parse buffer pointer is indeterminate, as malloc leaves it, no list head outside the
  -- struct has nodes, and the allocator's answers are pairwise different or NULL, a connection that
  -- phys_init makes is whole, for either side.
  pub phys_init-IsConnected :
      (side : Side) (protver : ℕ) (config : Ptr) (memory last : Answers) (phys : Phys (z.Strm))
      → IsSupply nowhere 0 memory
      → phys_init z raw side protver config memory ≡ done (some phys, last)
      → IsConnected phys
  phys_init-IsConnected side protver config memory last phys supply e =
      Post-done NewIsWhole (phys_init z raw side protver config memory) (some phys, last)
        (init-Post side protver config memory supply) e

  -- The heads of the lists inside the struct, before the pending queue is filled.
  abbrev empty_heads : Heap
  empty_heads = list_init (list_init (list_init (list_init (heap_of raw) streams) outq) inq) pendq

  init-finish :
      (side : Side) (protver config address : ℕ) (later : Answers)
      → address ≢ 0
      → CanInflate z
      → phys_init z raw side protver config (address ∷ later)
        ≡ finish side protver config address
            (spdy_zlib_inflate_init z 0).1
            (spdy_zlib_inflate_init z 1).1
            (fill_pendq phys_num_outdata empty_heads raw.outdata later)
  unfolding phys_init
  init-finish side protver config address later ne fine =
      if_false (address == 0) _ _ (ne→== ne)
      ∙ if_true (succeeded (spdy_zlib_inflate_init z 0).0) _ _ (fine.0)
      ∙ if_true (succeeded (spdy_zlib_inflate_init z 1).0) _ _ (fine.1)

  -- When zlib can make both contexts, and the allocator's answers are pairwise different or NULL and the first 65
  -- are not NULL, phys_init makes a connection, for either side. It is whole, 64 buffers are pending, every
  -- other list is empty, and the allocator's other answers are left. The struct's parse buffer pointer is
  -- indeterminate before, as malloc leaves it, and no list head outside the struct has nodes.
  pub phys_init-some :
      (side : Side) (protver config address : ℕ) (ods last : Answers)
      → IsSupply nowhere 0 (address ∷ (ods ++ last))
      → address ≢ 0
      → All (λ p. p ≢ 0) ods
      → length ods ≡ 64
      → CanInflate z
      → (phys : Phys (z.Strm)) × (f : Ptr → List Ptr) × (phys_init z raw side protver config
            (address ∷ (ods ++ last))
          ≡ done (some phys, last))
        × IsConnection phys f []
        × (length (f pendq) ≡ 64)
        × ((k : Ptr) → (k == pendq) ≡ false → f k ≡ [])
  phys_init-some side protver config address ods last supply ne given count fine =
      let (x, e) = fill_pendq-some phys_num_outdata empty_heads raw.outdata ods last count given in
      let all =
        fill_pendq-Filled phys_num_outdata empty_heads raw.outdata (ods ++ last) nowhere
          (heads_set (heap_of raw) other) supply.1 in
      let (f, filled) = subst (Filled nowhere phys_num_outdata) e all in
      let strm = (spdy_zlib_inflate_init z 0).1 in
      let strm' = (spdy_zlib_inflate_init z 1).1 in
      (
        set_up side protver config address strm strm' x.0 x.1 last,
        f,
        init-finish side protver config address (ods ++ last) ne fine
            ∙ ap (finish side protver config address strm strm') e,
        set_up-IsConnection side protver config address strm strm' x.0 x.1 last f filled,
        filled.pending,
        filled.others,
      )

  abbrev MakesNew : Side → Option (Phys (z.Strm)) × Answers → Type 0
  MakesNew side (none, last) = Unit {0}
  MakesNew side (some phys, last) = IsNew side phys

  finish-MakesNew :
      (side : Side) (protver config address : ℕ) (strm strm' : z.Strm)
      (r : Option (Heap × (Ptr → OutData)) × Answers)
      → Post (MakesNew side) (finish side protver config address strm strm' r)
  finish-MakesNew side protver config address strm strm' (none, last) = tt
  finish-MakesNew side protver config address strm strm' (some (g, table), last) = record {
    id = refl;
    idle = refl;
    input = refl;
  }

  pub phys_init-IsNew :
      (side : Side) (protver : ℕ) (config : Ptr) (memory last : Answers) (phys : Phys (z.Strm))
      → phys_init z raw side protver config memory ≡ done (some phys, last)
      → IsNew side phys
  unfolding phys_init
  phys_init-IsNew side protver config memory last phys e =
      let P = MakesNew side in
      Post-done P (phys_init z raw side protver config memory) (some phys, last)
        (Post-if P ((malloc memory).0 == 0) _ _ (λ _. tt)
          (λ _.
            Post-if P (succeeded (spdy_zlib_inflate_init z 0).0) _ _
              (λ _.
                Post-if P (succeeded (spdy_zlib_inflate_init z 1).0) _ _
                  (λ _.
                    finish-MakesNew side protver config (malloc memory).0
                      (spdy_zlib_inflate_init z 0).1 (spdy_zlib_inflate_init z 1).1
                      (fill_pendq phys_num_outdata empty_heads raw.outdata (malloc memory).1))
                  (λ _. tt))
              (λ _. tt)))
        e
