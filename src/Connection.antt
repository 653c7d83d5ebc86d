-- ===== src/Connection.antt =====
-- What an endpoint does with the data that it reads: `on_read_websocket` of src/ws/CWSServer.cpp
-- and of src/ws/CWSClient.cpp, and `tw_close_client` of src/ws/uvutil.cpp. `none` stands for a loop
-- that has no end. The application's callbacks and libuv are outside: a call of them is an event.
pub mod View
pub mod Stream
pub mod Loops
pub mod Stuck
pub mod Total
use Prim.Native.Nat.{bit_or}
use a_nother_ws.Prelude.{
  ℕ, zero, suc, List, [], ◌∷◌, ◌++◌, Option, none, some, Bool, true, false, ◌==◌, if◌then◌else◌,
  length, drop, ◌>>=◌,
}
use a_nother_ws.Membuf.{Membuf, contents}
use a_nother_ws.Membuf
use a_nother_ws.Frame.{WebsocketHandle, ParseState, flag_websocket_text, flag_websocket_bin}
use a_nother_ws.Frame.Parser.{try_parse_protocol}
use a_nother_ws.Frame.Generator.{generate_pong_control_frame}

pub data Timer : Type 0 where
  heart_beat reconnect : Timer

pub data Event : Type 0 where
  -- The application's `onData` with the data and its flag.
  on_data : List ℕ → ℕ → Event
  -- The application's `onClose`.
  on_close : Event
  -- `uv_close` on the connection.
  uv_close : Event
  -- `sendDataWithAsync` of these bytes to the peer.
  send : List ℕ → Event
  -- The application's `onConnect`, and its `onError` with the code.
  on_connect : Event
  on_error : ℕ → Event
  -- `uv_read_start` on the connection, and `free` of it.
  read_start : Event
  free : Event
  -- `uv_timer_start` with the first wait and the interval, and `uv_timer_stop`.
  timer_start : Timer → ℕ → ℕ → Event
  timer_stop : Timer → Event
  -- `uv_tcp_connect`.
  tcp_connect : Event

-- `has_loop_data` tells whether `peer->loop->data` is set; `is_closing` is what `uv_is_closing`
-- says of the peer.
pub record Connection : Type 0 where
  pub handle : WebsocketHandle
  pub has_loop_data : Bool
  pub is_closing : Bool
  pub events : List Event

-- `SET_FLAG`
abbrev pub set_flag : ℕ → ℕ → ℕ
set_flag flag value = bit_or flag value

abbrev pub emit : Event → Connection → Connection
emit e c = record c { events = c.events ++ (e ∷ []) }

-- The endpoint's own `on_close`, which tests for data that is not set.
abbrev pub notify_close : Connection → Connection
notify_close c = if c.has_loop_data then c else emit on_close c

unfoldable pub tw_close_client : Connection → Connection
tw_close_client c =
    if c.is_closing
    then notify_close c
    else record (emit uv_close (notify_close c)) { is_closing = true }

-- `membuf_append_data(&hd->mergeBuf, hd->protoBuf.data, hd->protoBuf.size)`
pub append_to_merge : Connection → Option Connection
append_to_merge c = do
  merge_buf ← Membuf.append_data c.handle.merge_buf (contents c.handle.proto_buf)
  some (record c { handle = record c.handle { merge_buf = merge_buf } })

-- `case 0`
pub on_continuation : Connection → Option Connection
on_continuation c = do
  merged ← append_to_merge c
  some (
      if merged.handle.is_eof == 0
      then merged
      else emit (on_data (contents merged.handle.merge_buf) merged.handle.merge_buf.flag) merged)

-- `SET_FLAG(hd->protoBuf.flag, flag)`
abbrev pub flag_proto : ℕ → Connection → Connection
flag_proto flag c = record c {
  handle = record c.handle {
    proto_buf = record c.handle.proto_buf { flag = set_flag c.handle.proto_buf.flag flag };
  };
}

-- The merge buffer cleared, and its flag set.
abbrev pub restart_merge : ℕ → Connection → Connection
restart_merge flag c =
    let cleared = Membuf.clear c.handle.merge_buf 0 in
    record c {
      handle = record c.handle { merge_buf = record cleared { flag = set_flag cleared.flag flag } };
    }

-- `case 1` and `case 2`, which differ in the flag only.
pub on_data_frame : ℕ → Connection → Option Connection
on_data_frame flag c =
    let flagged = flag_proto flag c in
    let first = append_to_merge (restart_merge flag flagged) in
    if c.handle.is_eof == 0
    then first
    else some
        (emit (on_data (contents flagged.handle.proto_buf) flagged.handle.proto_buf.flag) flagged)

-- The cases of the `switch` on the type of a frame.
pub data Kind : Type 0 where
  continuation text binary close ping other : Kind

pub kind_of : ℕ → Kind
kind_of type =
    if type == 0
    then Kind.continuation
    else if type == 1
    then Kind.text
    else if type == 2
    then Kind.binary
    else if type == 8
    then Kind.close
    else if type == 9
    then Kind.ping
    else Kind.other

pub on_kind : Kind → Connection → Option Connection
on_kind Kind.continuation c = on_continuation c
on_kind Kind.text c = on_data_frame flag_websocket_text c
on_kind Kind.binary c = on_data_frame flag_websocket_bin c
on_kind Kind.close c = some (tw_close_client c)
on_kind Kind.ping c = some (emit (send generate_pong_control_frame) c)
on_kind Kind.other c = some c

abbrev pub on_frame : Connection → Option Connection
on_frame c = on_kind (kind_of c.handle.type) c

-- `while (haveReadCount < len)`, where `rest` is the data that is not yet read.
pub while_unread :
    (Connection → List ℕ → Option Connection) → Connection → List ℕ → Option Connection
while_unread again c [] = some c
while_unread again c (x ∷ rest) = again c (x ∷ rest)

-- The body of the server's loop after the call of the parser, by the state of the parser.
pub server_parsed :
    ParseState → (Connection → List ℕ → Option Connection) → Connection → List ℕ → Option Connection
server_parsed ParseState.complete again c rest = do
  served ← on_frame c
  while_unread again served rest
server_parsed ParseState.failed again c rest = while_unread again (tw_close_client c) rest
server_parsed ParseState.incomplete again c rest = some c

-- The server's loop, with fuel for its rounds.
pub server_loop : (fuel : ℕ) → Connection → List ℕ → Option Connection
server_loop zero c input = none
server_loop (suc fuel) c input = do
  parsed ← try_parse_protocol c.handle input
  server_parsed parsed.0.parse_state (server_loop fuel) (record c { handle = parsed.0 })
      (drop parsed.0.read_count input)

-- The client's loop goes on where the server's breaks off.
pub client_parsed :
    ParseState → (Connection → List ℕ → Option Connection) → Connection → List ℕ → Option Connection
client_parsed ParseState.complete again c rest = do
  served ← on_frame c
  while_unread again served rest
client_parsed ParseState.failed again c rest = while_unread again (tw_close_client c) rest
client_parsed ParseState.incomplete again c rest = while_unread again c rest

pub client_loop : (fuel : ℕ) → Connection → List ℕ → Option Connection
client_loop zero c input = none
client_loop (suc fuel) c input = do
  parsed ← try_parse_protocol c.handle input
  client_parsed parsed.0.parse_state (client_loop fuel) (record c { handle = parsed.0 })
      (drop parsed.0.read_count input)
