-- ===== src/Endpoint/Handshakes.antt =====
-- The handshake of a connection at the server: src/ws/CWSServer.cpp with src/ws/wsutil.cpp.
use a_nother_ws.Prelude.{
  ℕ, suc, ◌≡◌, refl, sym, ap, ◌∙◌, List, [], ◌∷◌, ◌++◌, Option, none, some, Bool, true, false,
  if◌then◌else◌, some_returns, ◌>>=◌,
}
use a_nother_ws.Frame.{EndpointType, flag_websocket}
use a_nother_ws.Connection.{
  Event, Connection, emit, flag_proto, tw_close_client, notify_close, server_loop,
}
use a_nother_ws.Handshake.{parse_http_heads, generate_websocket_server_handshake}
use a_nother_ws.Endpoint.{
  Peer, Read, opened, peer_of, is_websocket, key_name, shake, server_received, read_failed,
  server_read, server_on_read,
}

pub is_data : Event → Bool
is_data (Event.on_data bytes flag) = true
is_data other = false

-- How often the application was given data.
unfoldable pub data_count : List Event → ℕ
data_count [] = 0
data_count (e ∷ es) = let rest = data_count es in if is_data e then suc rest else rest

count_more :
    (e : Event) (c : Connection)
    → is_data e ≡ false
    → data_count (emit e c).events ≡ data_count c.events
unfolding data_count
count_more e c h = go c.events
  where
    go : (es : List Event) → data_count (es ++ (e ∷ [])) ≡ data_count es
    go [] = rw h refl
    go (d ∷ es) = ap (λ n. if is_data d then suc n else n) (go es)

notify_count : (c : Connection) → data_count (notify_close c).events ≡ data_count c.events
unfolding is_data
notify_count c = go c.has_loop_data
  where
    go :
        (b : Bool)
        → data_count (if b then c else emit Event.on_close c).events ≡ data_count c.events
    go true = refl
    go false = count_more Event.on_close c refl

close_count : (c : Connection) → data_count (tw_close_client c).events ≡ data_count c.events
unfolding tw_close_client is_data
close_count c = go c.is_closing ∙ notify_count c
  where
    go :
        (b : Bool)
        → data_count
            (if b
              then notify_close c
              else record (emit Event.uv_close (notify_close c)) { is_closing = true }).events
          ≡ data_count (notify_close c).events
    go true = refl
    go false = count_more Event.uv_close (notify_close c) refl

-- The connection after the answer to a handshake.
abbrev pub greeted : List ℕ → Connection → Connection
greeted answer c = emit Event.on_connect (emit (Event.send answer) (flag_proto flag_websocket c))

greeted_count :
    (answer : List ℕ) (c : Connection) → data_count (greeted answer c).events ≡ data_count c.events
unfolding is_data
greeted_count answer c =
    count_more Event.on_connect (emit (Event.send answer) (flag_proto flag_websocket c)) refl
    ∙ count_more (Event.send answer) (flag_proto flag_websocket c) refl

shake_count :
    (c out : Connection) (key : Option (List ℕ))
    → shake c key ≡ some out
    → data_count out.events ≡ data_count c.events
unfolding shake
shake_count c out none e =
    ap (λ o. data_count o.events) (sym (some_returns (tw_close_client c) out e)) ∙ close_count c
shake_count c out (some key) e = go (generate_websocket_server_handshake key) e
  where
    go :
        (reply : Option (List ℕ))
        → (reply >>= (λ answer. some (greeted answer c))) ≡ some out
        → data_count out.events ≡ data_count c.events
    go none e = cc
    go (some answer) e =
        ap (λ o. data_count o.events) (sym (some_returns (greeted answer c) out e))
        ∙ greeted_count answer c

failed_count :
    (c : Connection) (read : Read) → data_count (read_failed c read).events ≡ data_count c.events
unfolding is_data
failed_count c (Read.failed code) =
    close_count (emit (Event.on_error code) c) ∙ count_more (Event.on_error code) c refl
failed_count c (Read.received x rest spare) = close_count c
failed_count c Read.nothing = close_count c
failed_count c Read.end_of_file = close_count c

read_count_lem :
    (fuel : ℕ) (c out : Connection) (read : Read)
    → is_websocket c ≡ false
    → server_read fuel c read ≡ some out
    → data_count out.events ≡ data_count c.events
unfolding server_read server_received
read_count_lem fuel c out (Read.received x rest spare) new e =
    let key = parse_http_heads ((x ∷ rest) ++ spare) key_name in
    let shaken : shake c key ≡ some out =
      sym (ap (λ b. if b then server_loop fuel c (x ∷ rest) else shake c key) new) ∙ e in
    shake_count c out key shaken
read_count_lem fuel c out Read.nothing new e =
    ap (λ o. data_count o.events) (sym (some_returns c out e))
read_count_lem fuel c out Read.end_of_file new e =
    ap (λ o. data_count o.events) (sym (some_returns (read_failed c Read.end_of_file) out e))
    ∙ failed_count c Read.end_of_file
read_count_lem fuel c out (Read.failed code) new e =
    ap (λ o. data_count o.events) (sym (some_returns (read_failed c (Read.failed code)) out e))
    ∙ failed_count c (Read.failed code)

-- Before its handshake a connection gives the application no data, whatever the server reads from
-- it, the text of a frame included, and whether the read succeeds or not. The buffer of the
-- connection has no flag of a websocket, and the read has a defined result.
pub nothing_before_handshake :
    (fuel : ℕ) (read : Read) (peer out : Peer)
    → is_websocket (opened EndpointType.server peer) ≡ false
    → server_on_read fuel read peer ≡ some out
    → data_count out.events ≡ data_count peer.events
unfolding server_on_read opened
nothing_before_handshake fuel read peer out new e = go peer.has_loop_data e
  where
    c : Connection
    c = opened EndpointType.server peer

    after :
        (done : Option Connection)
        → done ≡ server_read fuel c read
        → (done >>= (λ d. some (peer_of d))) ≡ some out
        → data_count out.events ≡ data_count peer.events
    after none f e = cc
    after (some d) f e =
        ap (λ o. data_count o.events) (sym (some_returns (peer_of d) out e))
        ∙ read_count_lem fuel c d read new (sym f)

    go :
        (b : Bool)
        → (if b then (server_read fuel c read >>= (λ d. some (peer_of d))) else some (peer_of c))
          ≡ some out
        → data_count out.events ≡ data_count peer.events
    go true e = after (server_read fuel c read) refl e
    go false e = ap (λ o. data_count o.events) (sym (some_returns (peer_of c) out e))
