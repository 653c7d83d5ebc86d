-- ===== src/Lib.antt =====
-- Verification of aNotherWS, a websocket library for client and server on libuv.
--
-- The program. Bytes that arrive on a connection go through `try_parse_protocol`
-- (src/ws/wsutil.cpp), which keeps the state of a connection in a `websocket_handle`
-- (include/ws/wsutil.h) and collects one frame at a time in the buffer `protoBuf`. What is sent is
-- made by `generate_websocket_frame` (src/ws/wsutil.cpp), which wraps a message in frames at the
-- end of a buffer. The loops `on_read_websocket` of the server (src/ws/CWSServer.cpp) and the
-- client (src/ws/CWSClient.cpp) call the parser until the data is read, put the fragments of a
-- message together and call the application; what an application sends goes through the queue of
-- asynchronous objects of src/ws/CAsyncs.cpp, which asks src/ws/CChecker.cpp whether a connection
-- is still there. A connection begins with a handshake: `on_read` of the server finds the client's
-- key with `parse_http_heads` (src/ws/uvutil.cpp) and answers with its SHA-1 digest
-- (src/ws/sha1.cpp) in base64 (src/ws/encode.cpp); only then are frames read. Parser and generator
-- stand on the growable byte buffer of src/ws/membuf.cpp and on the length fields in network byte
-- order of src/ws/common.cpp.
--
-- The files.
-- Prelude: numbers, Boolean tests, lists and options, words of fixed width (Prelude/Word) and the
--   bit operations of the code in arithmetic (Prelude/Bits).
-- ByteOrder: write_two_byte_length to read_four_byte_length of src/ws/common.cpp.
-- Membuf: membuf_init, membuf_uninit, membuf_clear, membuf_reserve, membuf_trunc,
--   membuf_append_data and membuf_remove of src/ws/membuf.cpp, under their names without the
--   prefix. The block behind `data` is the list `bytes`.
-- Frame/Handle: the struct, the enumerations and the constants of include/ws/wsutil.h.
-- Frame/Mask, Frame/Reader, Frame/Parser, Frame/Generator: do_mask, read_char_from_buf_or_data,
--   try_parse_protocol, and generate_websocket_frame with all that it calls, of
--   src/ws/wsutil.cpp. The parser is cut at its reads: a function of Frame/Parser is the code
--   from one read on.
-- Frame/Decode: what a parser is to find at the head of a stream, without state; it is a
--   specification and stands for no code.
-- Connection: on_read_websocket of src/ws/CWSServer.cpp (server_loop) and of src/ws/CWSClient.cpp
--   (client_loop), with on_close, and tw_close_client of src/ws/uvutil.cpp. Calls of the
--   application and of libuv are events, in order. Connection/View and Connection/Stream say what
--   the frames of a stream are to do; they are specifications.
-- Asyncs: src/ws/CAsyncs.cpp, one function for each member function, and src/ws/CChecker.cpp. The
--   caller's function that splits a length is a parameter.
-- Base64: base64_encode of src/ws/encode.cpp. Base64/Reading has a reader of such text, a
--   specification.
-- Sha1, Sha1/Final: src/ws/sha1.cpp and the struct of include/ws/sha1.h; a call of
--   hash1_write with NULL is flush. Sha1/Fips and Sha1/Padding have the block function and the
--   padding of FIPS 180-1, specifications.
-- Handshake: sha1_and_base64 and the texts of src/ws/wsutil.cpp, and parse_http_heads of
--   src/ws/uvutil.cpp, on C strings (Prelude/Text).
-- Endpoint, Endpoint/Client: on_read and on_connection of src/ws/CWSServer.cpp; on_read,
--   onConnectInternal, connect, the timers, startup and shutdown of src/ws/CWSClient.cpp; and
--   after_uv_close_client of src/ws/uvutil.cpp. What libuv hands over is an argument, what it is
--   asked for an event.
-- Url: url_encode and url_decode of src/ws/encode.cpp. sscanf is a parameter.
-- Common: read_line, split_ont_size_to_multi_parts, parseFilePath and strinstr of
--   src/ws/common.cpp. What read and rand give is a list.
-- Tests: runs at concrete inputs.
--
-- Conventions. A byte is a number below 256 and a word a number; the wrap-around of `uint` and
-- `size_t` is written out where the code computes one, except for sums that the theorems bound.
-- The host is little-endian. Allocation succeeds, as the code asserts. `none` stands for a loop
-- that does not end: the loop of membuf_reserve has fuel for 33 rounds, after which a `uint` that
-- is doubled is 0 and stays 0, so more rounds change nothing; the loop of
-- generate_websocket_frame has one round of fuel for each fragment, which is all that its test
-- admits. Both are shown to return under the bounds stated. The loops of the endpoints have fuel
-- for their rounds, and more rounds than there are frames are enough, so a round for each byte
-- and one more is too. The search of acquireManyUvAsync has a round for each object and one more,
-- and always ends within them.
--
-- The texts of the handshake are printed whole or up to 1023 bytes, and a write behind `akey`, or
-- `%s` of a null pointer, is `none`.
--
-- Not modelled: membuf_append_format and membuf_insert, which nothing calls; logging; threads, locks,
-- the event loop and the sockets, which are libuv; the copies of libuv and simplelog under deps;
-- base64_decode, the tasks, and the system calls of src/ws/common.cpp.
pub mod Prelude
pub mod ByteOrder
pub mod Membuf
pub mod Frame
pub mod Connection
pub mod Asyncs
pub mod Base64
pub mod Sha1
pub mod Handshake
pub mod Endpoint
pub mod Common
pub mod Url
pub mod Tests
