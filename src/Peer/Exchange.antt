-- ===== src/Peer/Exchange.antt =====
-- A stream from spindly_stream_new of src/spindly_stream.c at one end to spindly_phys_demux of
-- src/spindly_phys.c at the other.
use spindly.Prelude.{
  ℕ, suc, ◌%◌, ◌^◌, ◌≤◌, ◌≡◌, ◌≢◌, refl, sym, ◌∙◌, ap, false, none, some, List, ◌∷◌, done, length,
  Post-done,
}
use spindly.Codes.{ok}
use spindly.Bytes.{be_store_16}
use spindly.Memory.{Answers, malloc}
use spindly.LinkedList.{Ptr, list_first}
use spindly.Hash.Cells.{Cells, IsHash, find}
use spindly.Zlib.{Zlib, Deflated, spdy_zlib_deflate}
use spindly.ControlFrame.{ControlFrame, spdy_control_frame_init, spdy_control_frame_destroy}
use spindly.Phys.{Phys, inq, pendq, heap_of, env_of}
use spindly.Stream.{spindly_stream_new}
use spindly.Demux.{Demux, dx_stream_req, phys_demux}
use spindly.Connection.{IsConnection}
use spindly.Peer.Read.{InflatesEmpty}
use spindly.Peer.Accept.{peers_stream}
use spindly.Peer.Receive.{phys_demux-opened}
use spindly.Peer.Send.{HoldsOpened, spindly_stream_new-LeavesOpened}

-- An end that waits for input: it is whole, its input is used up, the chunk `n` is the first of its queue, it
-- has not read a frame before, and the stream id `id` is new to it, and not a multiple of 2^31.
pub record Awaits {Strm : Type 0} (phys : Phys Strm) (cells : Cells) (n : Ptr) (id : ℕ)
    : Type 0 where
  pub lists : Ptr → List Ptr
  pub whole : IsConnection phys lists cells
  pub rest : List Ptr
  pub waiting : lists inq ≡ n ∷ rest
  pub used : length phys.input.buf ≤ phys.input.cursor
  pub fresh : phys.frame.header_parsed ≡ false
  pub nonzero : id % 2 ^ 31 ≢ 0
  pub absent : find (id % 2 ^ 31) cells ≡ none

-- What that end can do with the compressed block: its first ten bytes are inflated to the empty block, and the
-- allocator then gives two addresses.
pub record Affords (z : Zlib) (block : List ℕ) (phys : Phys (z.Strm)) (s : Ptr) : Type 0 where
  pub inflates : InflatesEmpty z block (env_of phys)
  pub node : Ptr
  pub later : Answers
  pub granted : inflates.result.memory ≡ s ∷ node ∷ later
  pub some_stream : s ≢ 0
  pub some_node : node ≢ 0

-- When spindly_stream_new succeeds at one end, and the other end, which awaits its first frame and affords it
-- (what it inflates the first ten bytes of the block to is the empty block), is given the bytes of the buffer
-- that was queued, and where what its uninitialised frame on the stack holds can be destroyed: its
-- demultiplexer asks for a new stream, whose id is the opener's next id less the top bit and whose priority
-- has the two low bits of the opener's, its lookup finds that stream, and the compressed block is left unread.
pub opened-received :
    (z : Zlib) (stack stack' : ControlFrame) (a a' b : Phys (z.Strm)) (prio userp config : ℕ)
    (o s n : Ptr) (d : Deflated) (cells : Cells) (message : Demux) (k : ℕ)
    → spindly_stream_new z stack a prio userp config ≡ done (ok, o, a')
    → spdy_zlib_deflate z (be_store_16 0) 2 0 (malloc a.memory).1 ≡ done d
    → Awaits b cells n a.streamid
    → Affords z d.dest b s
    → (b.indata n).bytes ≡ (a'.outdata (list_first (heap_of a) pendq)).buffer
    → (b.indata n).datalen ≡ (a'.outdata (list_first (heap_of a) pendq)).len
    → spdy_control_frame_destroy (spdy_control_frame_init stack') ≡ done tt
    → (b' : Phys (z.Strm)) × (cells' : Cells) × (phys_demux z stack' (suc k) b message
        ≡ done (ok, record { type = dx_stream_req; stream = s }, b'))
      × (b'.stream_at s ≡ peers_stream (prio % 4) (a.streamid % 2 ^ 31))
      × IsHash b'.store b'.streamhash cells'
      × (find (a.streamid % 2 ^ 31) cells' ≡ some s)
      × (b'.input.cursor ≡ 18)
opened-received z stack stack' a a' b prio userp config o s n d cells message k opens run w can
      bytes size clean =
    let (d', run', holds, counted) =
      Post-done
        (λ r.
          HoldsOpened z a.streamid prio (malloc a.memory).1 (list_first (heap_of a) pendq) r.0 r.2)
        (spindly_stream_new z stack a prio userp config) (ok, o, a')
        (spindly_stream_new-LeavesOpened z stack a prio userp config) opens refl in
    let same : d ≡ d' = Post-done (λ x. d ≡ x) (done d) d' refl (sym run ∙ run') in
    phys_demux-opened z stack' w.lists cells b w.whole a.streamid prio d.dest can.inflates s
      can.node can.later can.granted can.some_stream can.some_node w.nonzero w.absent clean message
      k n w.rest w.waiting w.used (bytes ∙ rw same holds) (size ∙ (counted ∙ ap length (sym bytes)))
      w.fresh
