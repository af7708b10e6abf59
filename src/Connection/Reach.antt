-- ===== src/Connection/Reach.antt =====
-- The life of a connection: the calls of an application, in any order.
use spindly.Prelude.{ℕ, ◌≡◌, Bool, List, done}
use spindly.Codes.{Code}
use spindly.LinkedList.{Ptr}
use spindly.Zlib.{Zlib}
use spindly.ControlFrame.{ControlFrame}
use spindly.Phys.{Phys, phys_outgoing, phys_incoming, phys_sent}
use spindly.Stream.{spindly_stream_new, spindly_stream_ack, spindly_stream_nack}
use spindly.Demux.{Demux, phys_demux}
use spindly.Connection.{IsConnected}
use spindly.Connection.Queues.{
  phys_incoming-IsConnected, phys_outgoing-IsConnected, phys_sent-IsConnected,
}
use spindly.Connection.Opening.{spindly_stream_new-IsConnected}
use spindly.Connection.Answering.{spindly_stream_ack-IsConnected, spindly_stream_nack-IsConnected}
use spindly.Connection.Demultiplexing.{phys_demux-IsConnected}

-- One call that returned, with any arguments.
pub data Step (z : Zlib) : Phys (z.Strm) → Phys (z.Strm) → Type 0 where
  incoming :
      (phys phys' : Phys (z.Strm)) (bytes : List ℕ) (n : ℕ) (copy : Bool) (identifier : Ptr)
      (rc : Code)
      → phys_incoming phys bytes n copy identifier ≡ done (rc, phys')
      → Step z phys phys'
  outgoing : (phys : Phys (z.Strm)) → Step z phys (phys_outgoing phys).1
  sent :
      (phys phys' : Phys (z.Strm)) (len : ℕ) (rc : Code)
      → phys_sent phys len ≡ done (rc, phys')
      → Step z phys phys'
  opened :
      (phys phys' : Phys (z.Strm)) (stack : ControlFrame) (prio userp config : ℕ) (rc : Code)
      (s : Ptr)
      → spindly_stream_new z stack phys prio userp config ≡ done (rc, s, phys')
      → Step z phys phys'
  acked :
      (phys phys' : Phys (z.Strm)) (s : Ptr) (rc : Code)
      → spindly_stream_ack z phys s ≡ done (rc, phys')
      → Step z phys phys'
  nacked :
      (phys phys' : Phys (z.Strm)) (s : Ptr) (rc : Code)
      → spindly_stream_nack z phys s ≡ done (rc, phys')
      → Step z phys phys'
  demuxed :
      (phys phys' : Phys (z.Strm)) (stack : ControlFrame) (rounds : ℕ) (message message' : Demux)
      (rc : Code)
      → phys_demux z stack rounds phys message ≡ done (rc, message', phys')
      → Step z phys phys'

-- Any number of calls.
pub data Reach (z : Zlib) (phys : Phys (z.Strm)) : Phys (z.Strm) → Type 0 where
  start : Reach z phys phys
  next :
      (phys' phys'' : Phys (z.Strm))
      → Reach z phys phys'
      → Step z phys' phys''
      → Reach z phys phys''

Step-IsConnected :
    (z : Zlib) (phys phys' : Phys (z.Strm))
    → Step z phys phys'
    → IsConnected phys
    → IsConnected phys'
Step-IsConnected z phys phys' (incoming _ _ bytes n copy identifier rc e) (f, cells, c) =
    phys_incoming-IsConnected f cells phys phys' bytes n copy identifier rc c e
Step-IsConnected z phys phys' (outgoing _) (f, cells, c) = phys_outgoing-IsConnected f cells phys c
Step-IsConnected z phys phys' (sent _ _ len rc e) (f, cells, c) =
    phys_sent-IsConnected f cells phys phys' len rc c e
Step-IsConnected z phys phys' (opened _ _ stack prio userp config rc s e) (f, cells, c) =
    spindly_stream_new-IsConnected z f cells phys phys' c stack prio userp config rc s e
Step-IsConnected z phys phys' (acked _ _ s rc e) (f, cells, c) =
    spindly_stream_ack-IsConnected z f cells phys c s phys' rc e
Step-IsConnected z phys phys' (nacked _ _ s rc e) (f, cells, c) =
    spindly_stream_nack-IsConnected z f cells phys c s phys' rc e
Step-IsConnected z phys phys' (demuxed _ _ stack rounds message message' rc e) (f, cells, c) =
    phys_demux-IsConnected z stack f cells rounds phys phys' message message' rc c e

-- Whatever calls an application makes of a connection that is whole, in any order and with any arguments,
-- the connection that the last of them leaves is whole.
pub Reach-IsConnected :
    (z : Zlib) (phys phys' : Phys (z.Strm))
    → Reach z phys phys'
    → IsConnected phys
    → IsConnected phys'
Reach-IsConnected z phys phys' start c = c
Reach-IsConnected z phys phys'' (next phys' _ before step) c =
    Step-IsConnected z phys' phys'' step (Reach-IsConnected z phys phys' before c)
