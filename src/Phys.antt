-- ===== src/Phys.antt =====
-- src/spindly_phys.c and spindly_phys.h, without the demultiplexer (Demux), and the data of
-- src/spindly_stream.h: one physical connection. Its structs are found by address: a struct that starts
-- with a list node has the node's address.
pub mod Queues
use spindly.Prelude.{
  ◌||◌, ℕ, zero, suc, ◌+◌, ◌-◌, ◌%◌, ◌^◌, Bool, Option, none, some, List, [], Run, done, fault,
  ◌>>=◌, ltb, ◌==◌, if◌then◌else◌,
}
use spindly.Codes.{Code, ok, nomem, inval, succeeded}
use spindly.Memory.{Answers, malloc, memcpy}
use spindly.SpdyData.{SpdyData, spdy_data_use}
use spindly.LinkedList.{Ptr, Heap, update, list_init, list_add, list_first, list_remove}
use spindly.Hash.{Hash, HashStore, hash_init}
use spindly.Env.{Env}
use spindly.Zlib.{Zlib, spdy_zlib_inflate_init}
use spindly.Frame.{Frame, spdy_frame_init}

pub data Side : Type 0 where
  client server : Side

-- enum stream_state
pub data StreamState : Type 0 where
  stream_new stream_acked stream_closed : StreamState

-- enum spdy_stream_states
pub data SpdyStreamState : Type 0 where
  idle parsing_frame terminated : SpdyStreamState

-- spdy_stream, as far as it is written: every other member keeps calloc's zero.
pub record SpdyStream : Type 0 where
  pub state : SpdyStreamState
  pub store_received_data : Bool
  pub store_frames : Bool

-- struct spindly_stream; its `phys` is the connection that has it.
pub record Stream : Type 0 where
  pub state : StreamState
  pub streamid : ℕ
  pub userp : Ptr
  pub prio : ℕ
  pub config : Ptr
  pub spdy : SpdyStream

-- struct spindly_outdata: `buffer` is what was last written to it.
pub record OutData : Type 0 where
  pub len : ℕ
  pub buffer : List ℕ
  pub stream : Ptr

-- struct spindly_indata: `bytes` is its member `data`, and `data_freed` says whether
-- what it points to was freed.
pub record InData : Type 0 where
  pub identifier : Ptr
  pub bytes : List ℕ
  pub datalen : ℕ
  pub copied : Bool
  pub data_freed : Bool

-- PHYS_NUM_OUTDATA and PHYS_OUTBUFSIZE
abbrev pub phys_num_outdata : ℕ
phys_num_outdata = 64

abbrev pub phys_outbufsize : ℕ
phys_outbufsize = 128

-- The addresses of the five list heads inside the struct.
abbrev pub streams : Ptr
streams = 1

abbrev pub outq : Ptr
outq = 2

abbrev pub inq : Ptr
inq = 3

abbrev pub pendq : Ptr
pendq = 4

abbrev pub lhead : Ptr
lhead = 5

-- struct spindly_phys. `store` has the nodes of all five lists; `outdata`, `indata` and `stream_at` are
-- the structs at the nodes' addresses; `parse` is `none` while the pointer is indeterminate, as malloc
-- leaves it; `memory` is what the allocator will answer.
pub record Phys (Strm : Type 0) : Type 0 where
  pub side : Side
  pub protver : ℕ
  pub num_streams : ℕ
  pub streamid : ℕ
  pub store : HashStore
  pub streamhash : Hash
  pub outgoing : Ptr
  pub outgoing_tosend : ℕ
  pub outdata : Ptr → OutData
  pub indata : Ptr → InData
  pub stream_at : Ptr → Stream
  pub inq_size : ℕ
  pub frame : Frame
  pub input : SpdyData
  pub parse : Option (List ℕ)
  pub parsealloc : ℕ
  pub parselen : ℕ
  pub config : Ptr
  pub zlib_in : Strm
  pub zlib_out : Strm
  pub memory : Answers

-- calloc for `n` nodes, and each to the pending queue; `none` when one is refused.
unfoldable pub fill_pendq :
    ℕ → Heap → (Ptr → OutData) → Answers → Option (Heap × (Ptr → OutData)) × Answers
fill_pendq zero g table memory = (some (g, table), memory)
fill_pendq (suc n) g table memory =
    let (od, later) = malloc memory in
    let cleared = update table od (record { len = 0; buffer = []; stream = 0 }) in
    let rest = fill_pendq n (list_add g pendq od) cleared later in
    if od == 0 then (none, later) else rest

module _ {Strm : Type 0} where
  abbrev pub heap_of : Phys Strm → Heap
  heap_of phys = phys.store.heap

  abbrev pub set_heap : Phys Strm → Heap → Phys Strm
  set_heap phys g = record phys { store = record (phys.store) { heap = g } }

  -- A lookup in the hash needs a round for each stream that was added, and one more.
  abbrev pub hash_rounds : Phys Strm → ℕ
  hash_rounds phys = phys.num_streams + 1

  -- What the parsers see of the connection.
  abbrev pub env_of : Phys Strm → Env Strm
  env_of phys = record {
    zlib_in = phys.zlib_in;
    store = phys.store;
    streamhash = phys.streamhash;
    rounds = hash_rounds phys;
    memory = phys.memory;
  }

  unfoldable pub phys_add_stream : Phys Strm → (s : Ptr) → Code × Phys Strm
  phys_add_stream phys s =
      let added = set_heap phys (list_add (heap_of phys) streams s) in
      (ok, record added { num_streams = phys.num_streams + 1 })

  -- The code, the connection, `*data` (`none` for NULL) and `*len`; the first error sets neither.
  unfoldable pub phys_outgoing : Phys Strm → Code × Phys Strm × Option (List ℕ) × ℕ
  phys_outgoing phys =
      if phys.outgoing == 0
      then (let od = list_first (heap_of phys) outq in
          if od == 0
          then (ok, phys, none, 0)
          else (let out = phys.outdata od in
              (
                ok,
                record (set_heap phys (list_remove (heap_of phys) od)) {
                  outgoing = od;
                  outgoing_tosend = out.len;
                },
                some out.buffer,
                out.len,
              )))
      else (inval, phys, none, 0)

  -- The node is written except for `copied`, and queued.
  unfoldable pub queue_indata :
      Phys Strm → (node : Ptr) → (bytes : List ℕ) → (datalen : ℕ) → (identifier : Ptr) → Phys Strm
  queue_indata phys node bytes datalen identifier =
      let chunk = record (phys.indata node) {
        identifier = identifier;
        bytes = bytes;
        datalen = datalen;
      } in
      record (set_heap phys (list_add (heap_of phys) inq node)) {
        indata = update phys.indata node chunk;
        inq_size = (phys.inq_size + datalen) % 2 ^ 64;
      }

  -- `copy` is the flag SPINDLY_INCOMING_COPY.
  unfoldable pub phys_incoming :
      Phys Strm
      → (bytes : List ℕ) → (datalen : ℕ) → (copy : Bool) → (identifier : Ptr)
      → Run (Code × Phys Strm)
  unfolding queue_indata
  phys_incoming phys bytes datalen copy identifier =
      let (node, later) = malloc phys.memory in
      let phys' = record phys { memory = later } in
      if node == 0
      then done (nomem, phys')
      else (if copy
          then (let (buffer, last) = malloc later in
              let phys'' = record phys { memory = last } in
              if buffer == 0 then done (nomem, phys'') else (do
                copied ← memcpy datalen bytes
                done (ok, queue_indata phys'' node copied datalen identifier)))
          else done (ok, queue_indata phys' node bytes datalen identifier))

  -- A chunk off the queue. Its data is freed if `copied` says so, which phys_incoming never writes: it is what
  -- malloc left there.
  abbrev pub without_chunk : Phys Strm → (chunk : Ptr) → Phys Strm
  without_chunk phys chunk =
      let node = phys.indata chunk in
      record (set_heap phys (list_remove (heap_of phys) chunk)) {
        indata =
            update phys.indata chunk (record node { data_freed = node.data_freed || node.copied });
      }

  unfoldable pub remove_inqnode : Phys Strm → (chunk : Ptr) → Run (Code × Phys Strm)
  remove_inqnode phys chunk = if chunk == 0 then fault else done (ok, without_chunk phys chunk)

  -- With nothing outgoing, `od` is NULL when the list is to take it.
  unfoldable pub phys_sent : Phys Strm → (len : ℕ) → Run (Code × Phys Strm)
  phys_sent phys len =
      let od = phys.outgoing in
      if ltb phys.outgoing_tosend len
      then done (inval, phys)
      else (let left = phys.outgoing_tosend - len in
          let phys' = record phys { outgoing_tosend = left } in
          if left == 0
          then (if od == 0
              then fault
              else done
                  (ok, record (set_heap phys' (list_add (heap_of phys) pendq od)) { outgoing = 0 }))
          else done (ok, phys'))

module _ (z : Zlib) where
  open z use {Strm}

  -- `raw` is what malloc left in the struct. When malloc fails, the cleanup uses the NULL pointer; when
  -- the first inflateInit2 fails, it ends a context that was never initialised.
  unfoldable pub phys_init :
      (raw : Phys Strm)
      → Side
      → (protver : ℕ) → (config : Ptr) → Answers
      → Run (Option (Phys Strm) × Answers)
  unfolding fill_pendq
  phys_init raw side protver config memory =
      let (address, later) = malloc memory in
      let (rc, strm) = spdy_zlib_inflate_init z 0 in
      let (rc', strm') = spdy_zlib_inflate_init z 1 in
      let g = list_init (list_init (list_init (list_init (heap_of raw) streams) outq) inq) pendq in
      let (filled, last) = fill_pendq phys_num_outdata g raw.outdata later in
      if address == 0
      then fault
      else if succeeded rc
      then (if succeeded rc'
          then (elim filled [
            | none ↦ done (none, last)
            | some (g', table) ↦
                let (hash, store) = hash_init (record (raw.store) { heap = g' }) lhead address in
                done (
                  some (record raw {
                    config = config;
                    side = side;
                    protver = protver;
                    num_streams = 0;
                    streamid = elim side [ client ↦ 1 | server ↦ 2 ];
                    outgoing = 0;
                    outgoing_tosend = 0;
                    zlib_in = strm;
                    zlib_out = strm';
                    outdata = table;
                    frame = spdy_frame_init raw.frame;
                    input = spdy_data_use [];
                    store = store;
                    streamhash = hash;
                    memory = last;
                  }),
                  last,
                )
          ])
          else done (none, later))
      else fault
