-- ===== src/Lib.antt =====
-- spindly, an implementation of the SPDY protocol (draft 2) in C: include/spindly.h is its interface and
-- src/ the library. The library does no I/O. An application hands the bytes that it received to a physical
-- connection (spindly_phys_incoming), asks for messages (spindly_phys_demux), and fetches what is to be sent
-- (spindly_phys_outgoing, spindly_phys_sent). Streams are opened and answered on a connection
-- (src/spindly_stream.c); a connection keeps them in a list and in a lookup by stream id.
--
-- The parts, from the ground up, with the files that model them; a child module of each holds its proofs.
--   Prelude      no code of its own: tests, lists over the native numbers, and Run, the outcome of C code
--                (a value, undefined behaviour, a failed assertion, or rounds used up)
--   Codes        spindly_error_t of include/spindly.h and the names in src/spdy_error.h
--   Bytes        the macros of src/spdy_bytes.h
--   Memory       malloc and memcpy: the answers of the allocator are an argument
--   SpdyData     src/spdy_data.c, the cursor over received bytes
--   LinkedList   src/list.c: an operation is a function from store to store, nodes by address
--   Hash         src/hash.c: the lookup of stream ids; Calls has sequences of calls, and a finite map to
--                answer them
--   NvBlock      src/spdy_nv_block.c: name/value blocks, parsed, packed and destroyed; NvInflate has
--                spdy_nv_block_inflate_parse
--   Zlib         src/spdy_zlib.c, over a record of the functions of zlib, which is no code of the repository;
--                Contract names what zlib documents and Tests has a value that keeps it
--   Env          what the parsers see of a connection
--   RstStream, SynStream, SynReply, Headers    the payloads: src/spdy_rst_stream.c, src/spdy_syn_stream.c,
--                src/spdy_syn_reply.c, src/spdy_headers.c
--   ControlFrame src/spdy_control_frame.c
--   DataFrame    src/spdy_data_frame.c
--   Frame        src/spdy_frame.c
--   Phys         src/spindly_phys.c less the demultiplexer, with the structs of src/spindly_stream.h
--   Stream       src/spindly_stream.c
--   Demux        spindly_phys_demux and parse_append of src/spindly_phys.c
--   Connection   a whole connection: what holds of its lists, its lookup, the buffer that is sent and the
--                allocator's coming answers between two calls of the interface (IsConnected), and the calls
--                of an application in any order (Reach)
--   Peer         two connections: a stream that one end opens and the other reads
--   Demo         handleclient of demo/server.c, in Server the loop of its main, and in Client the main of
--                demo/client.c, over what the sockets answer
--   CreateNvBlock  bin/create_nv_block.c
--   Tests        concrete inputs
-- A definition has the name of its function without the prefixes spindly_ or _spindly_, where the name stays
-- clear without; spdy_ is kept. A function that changes a struct takes it and returns it. Bytes are numbers,
-- integers keep their wrap-around as a remainder where the code can reach it, and a pointer into a buffer is
-- the list of the bytes from there on, so a read outside it is a fault.
--
-- Bounds. The loops over a list take a number of rounds, and one more than there are nodes is enough. The
-- outer loops of Zlib take the length divided by the chunk size and two more, which is enough for every
-- zlib; the inner loops take an answer of the allocator in each round, so a list of answers
-- bounds them, and that they end is not shown. zlib is given the bytes that there are; one that has used them
-- up, has room left and is not at its stream's end has read on behind them.
-- spindly_phys_demux takes rounds too, and on a whole connection one is enough: a second round would need the
-- merged chunks, whose buffer is never set.
--
-- The allocator. A connection carries the answers that malloc, calloc and realloc will give. Where a theorem
-- needs it, each is NULL, or an address that is in no list, is not the buffer being sent and is not answered
-- again (IsSupply): an address that was freed is not reused. The sequences of calls on the lookup (Hash/Calls)
-- do reuse addresses that were freed, and the theorems on compression and packing say which answers are needed.
--
-- Not modelled: spindly_phys_cleanup, which frees the struct alone; what is compiled out
-- (_spindly_list_insert, spindly_phys_settings); functions of include/spindly.h that have no body in the
-- repository; debug output and the platform's setup; the sockets' setup in the demos, and bin/read_dump.c
-- and bin/read_stream.c, which pass spdy_frame_parse an older argument list; the tests. The address of a
-- buffer is no part of its value.
pub mod Prelude
pub mod Codes
pub mod Bytes
pub mod Memory
pub mod SpdyData
pub mod DataFrame
pub mod NvBlock
pub mod LinkedList
pub mod Hash
pub mod Zlib
pub mod Env
pub mod NvInflate
pub mod RstStream
pub mod SynStream
pub mod SynReply
pub mod Headers
pub mod ControlFrame
pub mod Frame
pub mod Phys
pub mod Stream
pub mod Demux
pub mod Demo
pub mod CreateNvBlock
pub mod Peer
pub mod Tests
pub mod Connection
