-- ===== src/Tests/Streams.antt =====
-- A stream that is opened, and replies for streams.
use spindly.Prelude.{ℕ, ◌≤◌, ◌≡◌, ◌≢◌, refl, [], ◌∷◌, done}
use spindly.Codes.{ok}
use spindly.Bytes.{be_store_16, be_store_24, be_store_32}
use spindly.LinkedList.{list_add, list_remove}
use spindly.Hash.{hash_store, hash_get, get_loop}
use spindly.Memory.{malloc}
use spindly.Zlib.{spdy_zlib_deflate}
use spindly.SynStream.{spdy_syn_stream_init, spdy_syn_stream_pack}
use spindly.NvBlock.{spdy_nv_block_init, spdy_nv_block_destroy}
use spindly.ControlFrame.{
  zero_frame, zero_obj, ctrl_syn_reply, spdy_control_frame_pack, spdy_control_frame_pack_header,
  spdy_control_frame_destroy, spdy_control_mk_syn_stream,
}
use spindly.Phys.{Phys}
use spindly.Stream.{spindly_stream_new}
use spindly.Stream.Opening.{spindly_stream_new-done}
use spindly.Hash.Cells.{find}
use spindly.Demux.{dx_stream_ack}
use spindly.Frame.{control_frame}
use spindly.Demux.Replies.{after_reply}
use spindly.Tests.Storage.{no_lists, no_store, cells_7, store_7}
use spindly.Tests.Codec.{copying}
use spindly.Tests.Connection.{quiet, no_message}

-- A pending buffer, and memory for the stream, the compressed block and the lookup's node.
abbrev pub ready : Phys (Unit {0})
ready = record quiet {
  store = record no_store { heap = list_add no_lists 4 40 };
  memory = 400 ∷ 404 ∷ 408 ∷ [];
}

unfoldable pub opened : Phys (Unit {0})
opened = elim (spindly_stream_new copying zero_frame ready 3 0 0) [ done r ↦ r.2 | _ ↦ quiet ]

pub opens : spindly_stream_new copying zero_frame ready 3 0 0 ≡ done (ok, 400, opened)
unfolding opened spindly_stream_new spdy_control_mk_syn_stream spdy_syn_stream_init
    spdy_control_frame_pack spdy_control_frame_pack_header spdy_syn_stream_pack spdy_zlib_deflate
    be_store_16 be_store_24 be_store_32 list_add list_remove hash_store hash_get get_loop
    spdy_control_frame_destroy spdy_nv_block_destroy
opens = refl

spindly_stream_new-done_example :
    (3 ≤ 7) × (400 ≡ (malloc ready.memory).0) × (◌≢◌ {A = ℕ} 400 0) × (opened.streamid ≡ 3)
spindly_stream_new-done_example =
    spindly_stream_new-done copying zero_frame ready opened 3 0 0 400 opens

abbrev reply_for : ℕ → Phys (Unit {0})
reply_for id = record quiet {
  num_streams = 1;
  store = store_7;
  frame = record (quiet.frame) {
    type = control_frame;
    control = record zero_frame {
      type = ctrl_syn_reply;
      obj = record zero_obj {
        syn_reply = record { stream_id = id; nv_block = spdy_nv_block_init };
      };
    };
  };
}

reply_7 :
    (after_reply (reply_for 7) no_message (find 7 cells_7)).1
    ≡ record { type = dx_stream_ack; stream = 70 }
unfolding find
reply_7 = refl
