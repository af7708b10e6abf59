-- ===== src/Connection.antt =====
-- A whole connection: what holds of its lists, its lookup and its buffers between two calls.
pub mod Supply
pub mod Unchanged
pub mod Queues
pub mod Sending
pub mod Streams
pub mod Registering
pub mod Opening
pub mod Asking
pub mod Answering
pub mod Delivery
pub mod Demultiplexing
pub mod Filling
pub mod Initial
pub mod Idle
pub mod Reach
pub mod Draining
pub mod Ends
use spindly.Prelude.{
  ℕ, ◌+◌, ◌%◌, ◌≤◌, ◌≡◌, ◌≢◌, ◌⊎◌, false, none, List, ◌==◌, if◌then◌else◌, length,
}
use spindly.LinkedList.{Ptr}
use spindly.LinkedList.Segment.{has}
use spindly.LinkedList.Lists.{Lists}
use spindly.Hash.Cells.{Cells, nodes_of, Holds, HasDistinctIds}
use spindly.Phys.{Side, client, server, Phys, outq, inq, pendq, lhead, phys_num_outdata, heap_of}
use spindly.Connection.Supply.{IsSupply}

-- A client's stream ids are odd and a server's even.
abbrev pub parity : Side → ℕ
parity client = 1
parity server = 0

-- The buffer that is being sent stands in no list.
abbrev pub IsApart : (Ptr → List Ptr) → Ptr → Type 0
IsApart f p = (p ≢ 0) × ((k : Ptr) → has p (f k) ≡ false)

-- `f` has the nodes of each list, `cells` what the lookup holds.
pub record IsConnection {Strm : Type 0} (phys : Phys Strm) (f : Ptr → List Ptr) (cells : Cells)
    : Type 0 where
  pub lists : Lists (heap_of phys) f
  pub hashed : phys.streamhash.lhead ≡ lhead
  pub linked : f lhead ≡ nodes_of cells
  pub held : Holds phys.store cells
  pub distinct : HasDistinctIds cells
  pub counted : length cells ≤ phys.num_streams
  pub sending : (phys.outgoing ≡ 0) ⊎ IsApart f phys.outgoing
  pub buffers :
      length (f outq) + length (f pendq) + (if phys.outgoing == 0 then 0 else 1) ≤ phys_num_outdata
  pub supply : IsSupply f phys.outgoing phys.memory
  pub unset : phys.parse ≡ none
  pub ids : phys.streamid % 2 ≡ parity phys.side

abbrev pub IsConnected : {Strm : Type 0} → Phys Strm → Type 0
IsConnected phys = (f : Ptr → List Ptr) × (cells : Cells) × IsConnection phys f cells

-- The list at the head `k` is `nodes`.
abbrev pub IsConnectedAt : {Strm : Type 0} → Ptr → List Ptr → Phys Strm → Type 0
IsConnectedAt k nodes phys =
    (f : Ptr → List Ptr) × (cells : Cells) × IsConnection phys f cells × (f k ≡ nodes)

-- The chunks that wait to be parsed are `waiting`.
abbrev pub IsConnectedWith : {Strm : Type 0} → List Ptr → Phys Strm → Type 0
IsConnectedWith waiting phys = IsConnectedAt inq waiting phys
