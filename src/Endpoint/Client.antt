-- ===== src/Endpoint/Client.antt =====
-- src/ws/CWSClient.cpp: `on_read`, `onConnectInternal`, the timers, and `startup` and `shutdown`.
use a_nother_ws.Prelude.{
  ℕ, List, ◌∷◌, ◌++◌, Option, some, Bool, ◌&&◌, ◌==◌, if◌then◌else◌, take, ◌>>=◌,
}
use a_nother_ws.Prelude.Text.{c_string}
use a_nother_ws.Frame.{EndpointType}
use a_nother_ws.Frame.Generator.{generate_ping_control_frame}
use a_nother_ws.Connection.{Event, Timer, Connection, emit, client_loop}
use a_nother_ws.Asyncs.{register_connection}
use a_nother_ws.Handshake.{
  parse_http_heads, generate_websocket_client_handshake, sha1_and_base64, accept_text,
}
use a_nother_ws.Endpoint.{Peer, Read, new_handle, opened, peer_of, accept_name, read_failed, note}

pub data ClientStatus : Type 0 where
  handshaking working : ClientStatus

-- `CWSClient`, without its thread, its loop and its queue.
pub record Client : Type 0 where
  pub ip : List ℕ
  pub port : ℕ
  pub uri : List ℕ
  pub key : List ℕ
  pub status : ClientStatus
  pub enable_reconnect : Bool
  pub enable_heart_beat : Bool

-- `case HANDSHAKING`: any value that is not empty is taken.
pub client_shake : Client → Connection → Option (List ℕ) → Client × Connection
client_shake client c (some (x ∷ accept)) =
    (record client { status = ClientStatus.working }, emit Event.on_connect c)
client_shake client c other = (client, c)

pub client_received :
    ℕ → ClientStatus → Client → Connection → List ℕ → List ℕ → Option (Client × Connection)
client_received fuel ClientStatus.handshaking client c bytes spare =
    some (client_shake client c (parse_http_heads (bytes ++ spare) accept_name))
client_received fuel ClientStatus.working client c bytes spare = do
  served ← client_loop fuel c bytes
  some (client, served)

-- `uv_timer_start` of the reconnection after a failed read.
abbrev pub reconnect_later : Client → Connection → Connection
reconnect_later client c =
    if client.enable_reconnect then emit (Event.timer_start Timer.reconnect 10000 30000) c else c

pub client_read : ℕ → Client → Connection → Read → Option (Client × Connection)
client_read fuel client c (Read.received x rest spare) =
    client_received fuel client.status client c (x ∷ rest) spare
client_read fuel client c Read.nothing = some (client, c)
client_read fuel client c Read.end_of_file =
    some (client, reconnect_later client (read_failed c Read.end_of_file))
client_read fuel client c (Read.failed code) =
    some (client, reconnect_later client (read_failed c (Read.failed code)))

-- `on_read` of the client.
pub client_on_read : ℕ → Read → Client → Peer → Option (Client × Peer)
client_on_read fuel read client peer =
    let c = opened EndpointType.client peer in
    let after = client_read fuel client c read in
    if peer.has_loop_data
    then (do done ← after; some (done.0, peer_of done.1))
    else some (client, peer_of c)

-- `onConnectInternal` from the registration on, with the random bytes and the text of the key.
pub request_handshake : Client → List ℕ → Peer → Client × Peer
request_handshake client key peer =
    let request = generate_websocket_client_handshake client.ip client.port client.uri key in
    (
      record client { key = key; status = ClientStatus.handshaking },
      note Event.read_start (note (Event.send (c_string request)) peer),
    )

-- `onConnectInternal` with its `status`; `random` is what `get_random` gives, and `connections` is
-- the registry. `none` is a key that has no text.
pub on_connect_internal : ℕ → List ℕ → ℕ → List ℕ → Client → Peer → Option (List ℕ × Client × Peer)
on_connect_internal status random id connections client peer =
    let stopped =
      if client.enable_reconnect then note (Event.timer_stop Timer.reconnect) peer else peer in
    let fresh = record stopped { data_of = some (new_handle EndpointType.client) } in
    let connected = (do
      encoded ← sha1_and_base64 random
      key ← accept_text encoded
      let requested = request_handshake client key fresh in
          some (register_connection connections id, requested.0, requested.1)) in
    if (status == 0) && peer.has_loop_data then connected else some (connections, client, peer)

-- `connect`, with what `uv_tcp_init` returned.
abbrev pub connect : Bool → Peer → Peer
connect init_failed peer = if init_failed then peer else note Event.tcp_connect peer

abbrev pub reconnect_timer_callback : Bool → Peer → Peer
reconnect_timer_callback init_failed peer =
    if peer.has_loop_data then connect init_failed peer else peer

abbrev pub hb_timer_callback : Peer → Peer
hb_timer_callback peer =
    if peer.has_loop_data then note (Event.send (take 2 generate_ping_control_frame)) peer else peer

-- `startup` of the client, up to the start of its thread.
pub client_startup : Client → Bool → Peer → Peer
client_startup client init_failed peer =
    let beating =
      if client.enable_heart_beat
      then note (Event.timer_start Timer.heart_beat 300000 120000) peer
      else peer in
    let ready =
      if client.enable_reconnect
      then note (Event.timer_start Timer.reconnect 60000 60000) beating
      else beating in
    connect init_failed ready

-- `shutdown` of the client, up to the stop of its loop and thread.
pub client_shutdown : Client → Peer → Peer
client_shutdown client peer =
    let silent =
      if client.enable_heart_beat then note (Event.timer_stop Timer.heart_beat) peer else peer in
    if client.enable_reconnect then note (Event.timer_stop Timer.reconnect) silent else silent
