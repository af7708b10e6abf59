-- ===== src/Connection/Idle.antt =====
-- spindly_phys_demux of src/spindly_phys.c on a connection from spindly_phys_init that was given no input.
use spindly.Prelude.{
  ℕ, suc, ◌≡◌, ◌≢◌, refl, true, false, none, some, [], ◌∷◌, ◌++◌, All, done, fault, leb, arith,
  length,
}
use spindly.Memory.{Answers}
use spindly.LinkedList.{Ptr, list_first}
use spindly.LinkedList.Segment.{has}
use spindly.LinkedList.IsList.{IsList}
use spindly.LinkedList.Lists.{list_first-nil}
use spindly.Zlib.{Zlib, CanInflate}
use spindly.ControlFrame.{ControlFrame}
use spindly.Phys.{Phys, Side, inq, heap_of, phys_init}
use spindly.Demux.{Demux, phys_demux, demux_loop, take_chunk}
use spindly.Connection.Supply.{IsSupply}
use spindly.Connection.Filling.{nowhere, struct_heads}
use spindly.Connection.Initial.{phys_init-some, phys_init-IsNew}

module _ (z : Zlib) where
  open z use {Strm}

  demux_nothing :
      (stack : ControlFrame) (phys : Phys Strm) (message : Demux) (k : ℕ)
      → length phys.input.buf ≡ 0
      → list_first (heap_of phys) inq ≡ 0
      → phys_demux z stack (suc k) phys message ≡ fault
  unfolding phys_demux demux_loop take_chunk
  demux_nothing stack phys message k input empty =
      let used : leb (length phys.input.buf) phys.input.cursor ≡ true = ground arith in
      rw (used, empty) refl

  -- With a zlib that can start, answers of the allocator that are pairwise different or NULL, the first 65 not
  -- NULL, and new memory whose lists are empty and whose parse buffer pointer is indeterminate: phys_init makes
  -- a connection, for either side, and asking it for a message before it was given input dereferences NULL.
  pub phys_init-phys_demux :
      (raw : Phys Strm) (side : Side) (protver config address : ℕ) (ods last : Answers)
      → raw.parse ≡ none
      → ((h : Ptr) → has h struct_heads ≡ false → IsList (heap_of raw) h [])
      → IsSupply nowhere 0 (address ∷ (ods ++ last))
      → address ≢ 0
      → All (λ p. p ≢ 0) ods
      → length ods ≡ 64
      → CanInflate z
      → (phys : Phys Strm) × (phys_init z raw side protver config (address ∷ (ods ++ last))
          ≡ done (some phys, last))
        × ((stack : ControlFrame) (message : Demux) (k : ℕ)
            → phys_demux z stack (suc k) phys message ≡ fault)
  phys_init-phys_demux raw side protver config address ods last unset other supply ne given count
        fine =
      let (phys, f, made, c, _, empty) =
        phys_init-some z raw unset other side protver config address ods last supply ne given count
          fine in
      let new = phys_init-IsNew z raw unset other side protver config _ last phys made in
      (
        phys,
        made,
        λ stack message k.
            demux_nothing stack phys message k new.input
              (list_first-nil (heap_of phys) f c.lists inq (empty inq refl)),
      )
