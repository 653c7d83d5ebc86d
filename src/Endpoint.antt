-- ===== src/Endpoint.antt =====
-- What the server does when libuv calls it: `on_read` and `on_connection` of src/ws/CWSServer.cpp,
-- and `after_uv_close_client` of src/ws/uvutil.cpp, for both endpoints.
pub mod Client
pub mod Handshakes
pub mod Answered
pub mod Closing
use Prim.Native.Nat.{bit_and}
use a_nother_ws.Prelude.{
  ℕ, zero, suc, List, [], ◌∷◌, ◌++◌, Option, none, some, Bool, true, false, not, ◌&&◌, ◌==◌,
  if◌then◌else◌, length, take, ◌>>=◌,
}
use a_nother_ws.Prelude.Text.{codes, c_string}
use a_nother_ws.Membuf.{Membuf, is_null}
use a_nother_ws.Membuf
use a_nother_ws.Frame.{WebsocketHandle, ParseState, EndpointType, flag_websocket}
use a_nother_ws.Frame.Generator.{generate_ping_control_frame}
use a_nother_ws.Connection.{
  Event, Timer, Connection, emit, flag_proto, tw_close_client, server_loop, client_loop,
}
use a_nother_ws.Asyncs.{register_connection, unregister_connection}
use a_nother_ws.Handshake.{
  parse_http_heads, generate_websocket_server_handshake, generate_websocket_client_handshake,
  sha1_and_base64, accept_text,
}

-- `uv_stream_t`: the handle in its `data`, whether its loop has data, and whether it is closing.
pub record Peer : Type 0 where
  pub data_of : Option WebsocketHandle
  pub has_loop_data : Bool
  pub is_closing : Bool
  pub events : List Event

-- What `nread` says. With data come the bytes, of which there is one at least, and what stands
-- behind them in the block.
pub data Read : Type 0 where
  received : ℕ → List ℕ → List ℕ → Read
  nothing end_of_file : Read
  failed : ℕ → Read

-- `calloc` of a handle, with its endpoint and state.
abbrev pub new_handle : EndpointType → WebsocketHandle
new_handle endpoint = record {
  proto_buf = record { bytes = []; size = 0; buffer_size = 0; flag = 0 };
  merge_buf = record { bytes = []; size = 0; buffer_size = 0; flag = 0 };
  endpoint_type = endpoint;
  is_eof = 0;
  df_ext = 0;
  type = 0;
  has_mask = 0;
  payload_len = 0;
  mask = 0 ∷ 0 ∷ 0 ∷ 0 ∷ [];
  real_payload_len = 0;
  read_count = 0;
  parse_state = ParseState.complete;
}

abbrev pub ensure_handle : EndpointType → Option WebsocketHandle → WebsocketHandle
ensure_handle endpoint none = new_handle endpoint
ensure_handle endpoint (some hd) = hd

abbrev pub ensure_block : Membuf → Membuf
ensure_block buf = if is_null buf.bytes then Membuf.init 128 else buf

-- The start of both `on_read`: a handle, and a block for each of its buffers.
unfoldable pub opened : EndpointType → Peer → Connection
opened endpoint peer =
    let hd = ensure_handle endpoint peer.data_of in
    record {
      handle = record hd {
        proto_buf = ensure_block hd.proto_buf;
        merge_buf = ensure_block hd.merge_buf;
      };
      has_loop_data = peer.has_loop_data;
      is_closing = peer.is_closing;
      events = peer.events;
    }

abbrev pub peer_of : Connection → Peer
peer_of c = record {
  data_of = some c.handle;
  has_loop_data = c.has_loop_data;
  is_closing = c.is_closing;
  events = c.events;
}

abbrev pub is_websocket : Connection → Bool
is_websocket c = not (bit_and c.handle.proto_buf.flag flag_websocket == 0)

abbrev pub key_name : List ℕ
key_name = codes "Sec-WebSocket-Key:"

abbrev pub accept_name : List ℕ
accept_name = codes "Sec-WebSocket-Accept:"

-- What the server does with the value of the header, or without one.
unfoldable pub shake : Connection → Option (List ℕ) → Option Connection
shake c none = some (tw_close_client c)
shake c (some key) = do
  answer ← generate_websocket_server_handshake key
  some (emit Event.on_connect (emit (Event.send answer) (flag_proto flag_websocket c)))

-- `nread > 0` at the server; `fuel` is for the rounds of its loop.
unfoldable pub server_received : ℕ → Connection → List ℕ → List ℕ → Option Connection
server_received fuel c bytes spare =
    let shaken = shake c (parse_http_heads (bytes ++ spare) key_name) in
    let served = server_loop fuel c bytes in if is_websocket c then served else shaken

-- `nread < 0`, up to the reconnection of a client.
abbrev pub read_failed : Connection → Read → Connection
read_failed c (Read.failed code) = tw_close_client (emit (Event.on_error code) c)
read_failed c other = tw_close_client c

unfoldable pub server_read : ℕ → Connection → Read → Option Connection
server_read fuel c (Read.received x rest spare) = server_received fuel c (x ∷ rest) spare
server_read fuel c Read.nothing = some c
server_read fuel c Read.end_of_file = some (read_failed c Read.end_of_file)
server_read fuel c (Read.failed code) = some (read_failed c (Read.failed code))

-- `on_read` of the server.
unfoldable pub server_on_read : ℕ → Read → Peer → Option Peer
server_on_read fuel read peer =
    let c = opened EndpointType.server peer in
    let after = server_read fuel c read in
    if peer.has_loop_data then (do done ← after; some (peer_of done)) else some (peer_of c)

abbrev pub note : Event → Peer → Peer
note e peer = record peer { events = peer.events ++ (e ∷ []) }

-- `on_connection` of the server for a new connection `id`, with its `status` and what `uv_accept`
-- returned.
pub on_connection : ℕ → Bool → ℕ → List ℕ → Peer → List ℕ × Peer
on_connection status accepted id connections peer =
    let fresh = record peer { data_of = none } in
    if (status == 0) && peer.has_loop_data
    then (if accepted
        then (register_connection connections id, note Event.read_start fresh)
        else (connections, note Event.uv_close fresh))
    else (connections, peer)

-- `after_uv_close_client`, of a server's connection or of a client's.
abbrev pub freed : EndpointType → Peer → Peer
freed EndpointType.server peer = note Event.free peer
freed EndpointType.client peer = peer

pub after_close : Option WebsocketHandle → ℕ → List ℕ → Peer → List ℕ × Peer
after_close none id connections peer = (connections, peer)
after_close (some hd) id connections peer =
    (unregister_connection connections id, freed hd.endpoint_type (record peer { data_of = none }))

abbrev pub after_uv_close_client : ℕ → List ℕ → Peer → List ℕ × Peer
after_uv_close_client id connections peer = after_close peer.data_of id connections peer
