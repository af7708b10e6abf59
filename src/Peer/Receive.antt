-- ===== src/Peer/Receive.antt =====
-- spindly_phys_demux of src/spindly_phys.c on the frame of a stream that the other end has opened.
use spindly.Prelude.{
  ℕ, suc, ◌%◌, ◌^◌, ◌≤◌, ◌<◌, ◌≡◌, ◌≢◌, refl, true, false, none, some, List, [], ◌∷◌, ◌++◌, done,
  ◌==◌, leb, ==_refl, arith, length, Post-done, ne→test,
}
use spindly.Codes.{ok}
use spindly.Bytes.{load_8, be_store_16}
use spindly.Memory.{Answers}
use spindly.Memory.Copies.{memcpy-whole}
use spindly.SpdyData.{SpdyData, spdy_data_use, at_cursor, advance}
use spindly.LinkedList.{Ptr, list_add}
use spindly.LinkedList.IsList.{ne→==}
use spindly.LinkedList.Lists.{list_first-cons}
use spindly.Hash.Cells.{Cells, IsHash, find, hash_get-node_of}
use spindly.Hash.Map.{find-none, entry}
use spindly.Zlib.{Zlib}
use spindly.Zlib.Supply.{spdy_zlib_inflate-Answers}
use spindly.Env.{Env}
use spindly.NvBlock.{spdy_nv_block_destroy}
use spindly.ControlFrame.{
  ControlFrame, spdy_control_frame_init, spdy_control_frame_destroy, spdy_control_frame_pack_header,
}
use spindly.Frame.{
  Frame, control_frame, begin_frame, spdy_frame_parse_header, spdy_frame_parse, spdy_frame_destroy,
}
use spindly.Phys.{Phys, inq, heap_of, hash_rounds, env_of, phys_add_stream}
use spindly.Demux.{
  Demux, dx_none, dx_stream_req, deliver_syn_stream, deliver_control, deliver, take_chunk,
  demux_loop, phys_demux,
}
use spindly.Stream.{stream_init}
use spindly.Connection.{IsConnection}
use spindly.Connection.Supply.{IsSupply}
use spindly.Connection.Unchanged.{alike}
use spindly.Connection.Streams.{connection-IsHash}
use spindly.Peer.{opened_bytes}
use spindly.Peer.Read.{
  length-opened_bytes, read_frame, read_env, InflatesEmpty, spdy_control_frame_parse-opened,
}
use spindly.Peer.Accept.{accepted, peers_stream, stream_init-accepted}

-- What is read into a frame.
abbrev whole_frame : Frame → (id prio : ℕ) → Frame
whole_frame frame id prio = record frame {
  header_parsed = true;
  type = control_frame;
  control = read_frame (spdy_control_frame_init frame.control) id prio;
}

abbrev behind : (id prio : ℕ) → List ℕ → SpdyData
behind id prio block = advance (advance (spdy_data_use (opened_bytes id prio block)) 8) 10

first_byte :
    (id prio : ℕ) (block : List ℕ)
    → load_8 (at_cursor (spdy_data_use (opened_bytes id prio block))) ≡ done 128
unfolding load_8 at_cursor spdy_control_frame_pack_header be_store_16
first_byte id prio block = refl

module _ (z : Zlib) (id prio : ℕ) (block : List ℕ) (env : Env (z.Strm))
    (i : InflatesEmpty z block env) (cells : Cells) (is : IsHash env.store env.streamhash cells)
    (fuel : length cells < env.rounds) (ne : id % 2 ^ 31 ≢ 0)
    (absent : find (id % 2 ^ 31) cells ≡ none) where
  spdy_frame_parse-opened :
      (frame : Frame)
      → frame.header_parsed ≡ false
      → spdy_frame_parse z frame (spdy_data_use (opened_bytes id prio block)) env
        ≡ done (ok, whole_frame frame id prio, behind id prio block, read_env z id prio block env i)
  unfolding spdy_frame_parse begin_frame spdy_frame_parse_header
  spdy_frame_parse-opened frame fresh =
      let new =
        hash_get-node_of env.rounds env.store env.streamhash (id % 2 ^ 31) cells is ne fuel in
      rw
        (
          fresh,
          first_byte id prio block,
          spdy_control_frame_parse-opened z id prio block env i
              (spdy_control_frame_init frame.control) refl
              (rw (find-none (id % 2 ^ 31) cells absent) at new),
        )
        refl

unread :
    (id prio : ℕ) (block : List ℕ)
    → 10 ≤ length block
    → ((behind id prio block).cursor == length (opened_bytes id prio block)) ≡ false
unread id prio block h = ne→test _ _ (omega (arith, length-opened_bytes id prio block))

module _ (z : Zlib) (stack : ControlFrame) (f : Ptr → List Ptr) (cells : Cells)
    (phys : Phys (z.Strm)) (c : IsConnection phys f cells) (id prio : ℕ) (block : List ℕ)
    (i : InflatesEmpty z block (env_of phys)) (s p : ℕ) (later : Answers)
    (granted : i.result.memory ≡ s ∷ p ∷ later) (ns : s ≢ 0) (np : p ≢ 0) (ne : id % 2 ^ 31 ≢ 0)
    (absent : find (id % 2 ^ 31) cells ≡ none)
    (clean : spdy_control_frame_destroy (spdy_control_frame_init stack) ≡ done tt) where
  -- The connection with the frame read.
  abbrev parsed : Phys (z.Strm)
  parsed = record phys {
    frame = whole_frame phys.frame id prio;
    input = behind id prio block;
    zlib_in = i.result.strm;
    memory = i.result.memory;
  }

  left-IsSupply : IsSupply f phys.outgoing i.result.memory
  left-IsSupply =
      let Q = λ (m : Answers). IsSupply f phys.outgoing m in
      Post-done (λ r. Q r.memory) _ i.result
        (spdy_zlib_inflate-Answers z Q (λ p m q. q.1) phys.zlib_in block 10 phys.memory c.supply)
        i.run

  -- The connection with the peer's stream.
  abbrev pub received : Phys (z.Strm)
  received = accepted parsed (prio % 4) (id % 2 ^ 31) s p later

  parsed-accepted :
      (stream_init z stack parsed (prio % 4) 0 0 (id % 2 ^ 31) ≡ done (ok, s, received))
      × IsHash received.store received.streamhash (cells ++ (p, entry (id % 2 ^ 31) s) ∷ [])
      × (find (id % 2 ^ 31) (cells ++ (p, entry (id % 2 ^ 31) s) ∷ []) ≡ some s)
  parsed-accepted =
      let c' = alike f cells phys parsed c refl refl refl refl refl refl refl left-IsSupply in
      stream_init-accepted z f cells parsed c' (prio % 4) (id % 2 ^ 31) s p later np ns ne absent
        (rw granted at left-IsSupply) stack (omega arith) granted clean

  deliver-received :
      (message : Demux) (chunk : Ptr)
      → deliver z stack parsed message chunk
        ≡ done (ok, record { type = dx_stream_req; stream = s }, received)
  unfolding deliver deliver_control deliver_syn_stream spdy_frame_destroy spdy_control_frame_destroy
      spdy_nv_block_destroy accepted phys_add_stream list_add
  deliver-received message chunk = rw (parsed-accepted.0, unread id prio block i.enough) refl

  received_stream : received.stream_at s ≡ peers_stream (prio % 4) (id % 2 ^ 31)
  unfolding accepted phys_add_stream
  received_stream = rw (==_refl s) refl

  received_cursor : received.input.cursor ≡ 18
  unfolding accepted phys_add_stream
  received_cursor = refl

  -- On a whole connection that waits for input, where the first chunk of the queue is the frame that the other
  -- end makes for a new stream, whose id is new here (and not a multiple of 2^31); where the first ten bytes
  -- of its block are inflated to an empty block, the block has at least ten bytes, the allocator then gives
  -- two addresses, and what the uninitialised frame on the stack holds can be destroyed: the demultiplexer
  -- returns a request for a new stream, with the id less its top bit and the two low bits of the priority,
  -- the lookup finds the stream, and the cursor stands behind the fixed part of the frame, where the
  -- compressed block still is.
  pub phys_demux-opened :
      (message : Demux) (k : ℕ) (n : Ptr) (rest : List Ptr)
      → f inq ≡ n ∷ rest
      → length phys.input.buf ≤ phys.input.cursor
      → (phys.indata n).bytes ≡ opened_bytes id prio block
      → (phys.indata n).datalen ≡ length (phys.indata n).bytes
      → phys.frame.header_parsed ≡ false
      → (phys' : Phys (z.Strm)) × (cells' : Cells) × (phys_demux z stack (suc k) phys message
          ≡ done (ok, record { type = dx_stream_req; stream = s }, phys'))
        × (phys'.stream_at s ≡ peers_stream (prio % 4) (id % 2 ^ 31))
        × IsHash phys'.store phys'.streamhash cells'
        × (find (id % 2 ^ 31) cells' ≡ some s)
        × (phys'.input.cursor ≡ 18)
  unfolding phys_demux demux_loop take_chunk
  phys_demux-opened message k n rest waits used bytes size fresh =
      let (first, nonnull) = list_first-cons (heap_of phys) f c.lists inq n rest waits in
      let (_, is, found) = parsed-accepted in
      let full : leb (length phys.input.buf) phys.input.cursor ≡ true = ground arith in
      let fuel : length cells < hash_rounds phys = let m = c.counted in omega arith in
      let read =
        spdy_frame_parse-opened z id prio block (env_of phys) i cells
          (connection-IsHash f cells phys c) fuel ne absent phys.frame fresh in
      (
        received,
        cells ++ (p, entry (id % 2 ^ 31) s) ∷ [],
        rw
            (
              first,
              full,
              ne→== nonnull,
              size,
              memcpy-whole (phys.indata n).bytes,
              bytes,
              read,
              deliver-received (record message { type = dx_none }) n,
            )
            refl,
        received_stream,
        is,
        found,
        received_cursor,
      )
