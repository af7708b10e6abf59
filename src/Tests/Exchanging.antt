-- ===== src/Tests/Exchanging.antt =====
-- A client opens a stream, and its server reads the frame.
use spindly.Prelude.{
  ℕ, false, ◌≡◌, ◌%◌, ◌^◌, refl, inl, some, List, [], ◌∷◌, ◌++◌, done, arith, take,
}
use spindly.Codes.{ok}
use spindly.Bytes.{be_store_16, be_store_24, be_store_32}
use spindly.LinkedList.{update, list_add, list_remove, list_first}
use spindly.LinkedList.Lists.{list_add-Lists}
use spindly.Hash.{hash_store, hash_get, get_loop}
use spindly.Hash.Cells.{Cells, IsHash, find}
use spindly.Zlib.{
  Zlib, z_ok, z_stream_end, Deflated, Inflated, spdy_zlib_deflate, spdy_zlib_inflate, inflate_step,
}
use spindly.SynStream.{spdy_syn_stream_init, spdy_syn_stream_pack}
use spindly.NvBlock.{spdy_nv_block_destroy}
use spindly.ControlFrame.{
  zero_frame, spdy_control_frame_pack, spdy_control_frame_pack_header, spdy_control_frame_destroy,
  spdy_control_mk_syn_stream,
}
use spindly.Phys.{Phys, server, InData, inq}
use spindly.Stream.{spindly_stream_new}
use spindly.Demux.{dx_stream_req, phys_demux}
use spindly.Connection.Supply.{IsSupply-added}
use spindly.Peer.Accept.{peers_stream}
use spindly.Peer.Exchange.{Awaits, Affords, opened-received}
use spindly.Tests.Storage.{no_lists, nothing_in, no_lists-Lists, no_store}
use spindly.Tests.Connection.{quiet, no_message}
use spindly.Tests.Streams.{ready}
use spindly.Tests.Whole.{addresses, addresses-IsSupply}

abbrev padding : List ℕ
padding = 7 ∷ 7 ∷ 7 ∷ 7 ∷ 7 ∷ 7 ∷ 7 ∷ 7 ∷ []

-- A zlib that puts eight bytes behind a text, and takes a text of two bytes out again.
abbrev padded : Zlib
padded = record {
  Strm = Unit {0};
  deflate_init = (z_ok, tt);
  deflate_set_dictionary = λ s d. (z_ok, tt);
  deflate = λ s f next_in room. record {
    ret = z_stream_end;
    strm = tt;
    rest_in = [];
    out = next_in ++ padding;
  };
  inflate_init2 = λ call. (z_ok, tt);
  inflate_set_dictionary = λ s d. (z_ok, tt);
  inflate =
      λ s f next_in room. record { ret = z_ok; strm = tt; rest_in = []; out = take 2 next_in };
  inflate_end = λ s. s;
}

abbrev block : List ℕ
block = 0 ∷ 0 ∷ padding

abbrev deflated : Deflated
deflated = record { code = ok; data_used = 2; dest = block; memory = 408 ∷ [] }

deflates : spdy_zlib_deflate padded (be_store_16 0) 2 0 (404 ∷ 408 ∷ []) ≡ done deflated
unfolding spdy_zlib_deflate be_store_16
deflates = refl

-- The client behind spindly_stream_new.
unfoldable sent : Phys (Unit {0})
sent = elim (spindly_stream_new padded zero_frame ready 3 0 0) [ done r ↦ r.2 | _ ↦ ready ]

sends : spindly_stream_new padded zero_frame ready 3 0 0 ≡ done (ok, 400, sent)
unfolding sent spindly_stream_new spdy_control_mk_syn_stream spdy_syn_stream_init
    spdy_control_frame_pack spdy_control_frame_pack_header spdy_syn_stream_pack spdy_zlib_deflate
    be_store_16 be_store_24 be_store_32 list_add list_remove hash_store hash_get get_loop
    spdy_control_frame_destroy spdy_nv_block_destroy
sends = refl

-- The server, with what was sent in its queue.
abbrev frame_in : InData
frame_in = record {
  identifier = 0;
  bytes = (sent.outdata 40).buffer;
  datalen = (sent.outdata 40).len;
  copied = false;
  data_freed = false;
}

abbrev waiting : Phys (Unit {0})
waiting = record quiet {
  side = server;
  streamid = 2;
  store = record no_store { heap = list_add no_lists inq 200 };
  indata = λ p. frame_in;
  memory = addresses 300 3;
}

waiting-Awaits : Awaits waiting [] 200 1
unfolding find
waiting-Awaits = record {
  lists = update nothing_in inq (200 ∷ []);
  whole = record {
    lists = list_add-Lists no_lists nothing_in no_lists-Lists inq 200 (omega arith) (λ k. refl);
    hashed = refl;
    linked = refl;
    held = tt;
    distinct = tt;
    counted = omega arith;
    sending = inl refl;
    buffers = omega arith;
    supply =
        IsSupply-added nothing_in 0 (addresses 300 3) (addresses-IsSupply 300 3 (omega arith)) inq
          200 refl;
    unset = refl;
    ids = refl;
  };
  rest = [];
  waiting = refl;
  used = omega arith;
  fresh = refl;
  nonzero = omega arith;
  absent = refl;
}

abbrev inflated : Inflated (Unit {0})
inflated = record { code = ok; strm = tt; dest = 0 ∷ 0 ∷ []; memory = 301 ∷ 302 ∷ [] }

inflates : spdy_zlib_inflate padded tt block 10 (addresses 300 3) ≡ done inflated
unfolding spdy_zlib_inflate inflate_step
inflates = refl

waiting-Affords : Affords padded block waiting 301
waiting-Affords = record {
  inflates = record {
    result = inflated;
    run = inflates;
    fine = refl;
    empty = refl;
    enough = omega arith;
    small = omega arith;
  };
  node = 302;
  later = [];
  granted = refl;
  some_stream = omega arith;
  some_node = omega arith;
}

clean : spdy_control_frame_destroy zero_frame ≡ done tt
unfolding spdy_control_frame_destroy
clean = refl

first_pending : list_first ready.store.heap 4 ≡ 40
unfolding list_add
first_pending = refl

opened-received_example :
    (b' : Phys (Unit {0})) × (cells' : Cells) × (phys_demux padded zero_frame 1 waiting no_message
      ≡ done (ok, record { type = dx_stream_req; stream = 301 }, b'))
    × (b'.stream_at 301 ≡ peers_stream (3 % 4) (1 % 2 ^ 31))
    × IsHash b'.store b'.streamhash cells'
    × (find (1 % 2 ^ 31) cells' ≡ some 301)
    × (b'.input.cursor ≡ 18)
opened-received_example =
    opened-received padded zero_frame zero_frame ready sent waiting 3 0 0 400 301 200 deflated []
      no_message 0 sends deflates waiting-Awaits waiting-Affords (rw first_pending refl)
      (rw first_pending refl) clean
