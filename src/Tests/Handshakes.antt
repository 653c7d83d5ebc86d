-- ===== src/Tests/Handshakes.antt =====
-- The handshake of src/ws/CWSClient.cpp with src/ws/CWSServer.cpp, with the key of RFC 6455.
use a_nother_ws.Prelude.{
  ℕ, ◌≡◌, ◌⊎◌, refl, List, [], ◌∷◌, ◌++◌, none, some, true, false, drop, arith,
}
use a_nother_ws.Prelude.Text.{codes, c_string, is_text_lem, crlf}
use a_nother_ws.Frame.{EndpointType}
use a_nother_ws.Connection.{tw_close_client}
use a_nother_ws.Sha1.Padding.{fips_digest}
use a_nother_ws.Asyncs.Registry.{HasSet, IsDistinct}
use a_nother_ws.Asyncs.{check_connection}
use a_nother_ws.Handshake.{
  ws_key_suffix, generate_websocket_server_handshake, generate_websocket_client_handshake,
  parse_http_heads, client_handshake_text,
}
use a_nother_ws.Handshake.Heads.{IsToken, is_token_lem, head_with, header_is_found}
use a_nother_ws.Handshake.Answer.{IsAnswer, server_answers}
use a_nother_ws.Endpoint.{
  server_read, server_received, shake, Peer, peer_of, Read, opened, server_on_read,
  after_uv_close_client, key_name,
}
use a_nother_ws.Membuf.{is_null, init}
use a_nother_ws.Endpoint.Handshakes.{nothing_before_handshake, data_count}
use a_nother_ws.Endpoint.Answered.{IsRequest, IsGreeted, client-IsGreeted}
use a_nother_ws.Endpoint.Closing.{last_read, closed_is_forgotten}

abbrev sample_key : List ℕ
sample_key = codes "dGhlIHNhbXBsZSBub25jZQ=="

abbrev host : List ℕ
host = codes "127.0.0.1"

abbrev root : List ℕ
root = codes "/"

abbrev new_peer : Peer
new_peer = record { data_of = none; has_loop_data = true; is_closing = false; events = [] }

server_answers_example :
    ((c_string (fips_digest (sample_key ++ ws_key_suffix)) ≡ [])
      × (generate_websocket_server_handshake sample_key ≡ none))
    ⊎ IsAnswer
        (c_string (fips_digest (sample_key ++ ws_key_suffix)))
        (generate_websocket_server_handshake sample_key)
server_answers_example = server_answers sample_key (omega arith) (omega arith)

sample-IsToken : IsToken sample_key
sample-IsToken = is_token_lem sample_key refl

header_is_found_example :
    parse_http_heads
      (head_with (codes "GET / HTTP/1.1" ++ crlf) key_name (97 ∷ 98 ∷ []) (10 ∷ codes "Host: a")
        ++ ((crlf ++ crlf) ++ (0x81 ∷ [])))
      key_name
    ≡ some (97 ∷ 98 ∷ [])
header_is_found_example =
    header_is_found (codes "GET / HTTP/1.1" ++ crlf) key_name 97 (98 ∷ []) (10 ∷ codes "Host: a")
      (0x81 ∷ [])
      (is_text_lem
        (head_with (codes "GET / HTTP/1.1" ++ crlf) key_name (97 ∷ 98 ∷ []) (10 ∷ codes "Host: a"))
        refl)
      refl refl (is_token_lem (97 ∷ 98 ∷ []) refl)

sample-IsRequest : IsRequest host 9090 root sample_key
unfolding client_handshake_text
sample-IsRequest = record {
  text = is_text_lem _ refl;
  ends = refl;
  first = refl;
  token = sample-IsToken;
  long = omega arith;
  short = omega arith;
  fits = omega arith;
}

client-IsGreeted_example :
    ((c_string (fips_digest (sample_key ++ ws_key_suffix)) ≡ [])
      × (server_on_read 9
            (Read.received 71
              (drop 1 (generate_websocket_client_handshake host 9090 root sample_key))
              (0 ∷ []))
            new_peer
          ≡ none))
    ⊎ IsGreeted
        (opened EndpointType.server new_peer)
        (c_string (fips_digest (sample_key ++ ws_key_suffix)))
        (server_on_read 9
          (Read.received 71
            (drop 1 (generate_websocket_client_handshake host 9090 root sample_key))
            (0 ∷ []))
          new_peer)
unfolding opened is_null init
client-IsGreeted_example =
    client-IsGreeted 9 host 9090 root sample_key (0 ∷ []) new_peer sample-IsRequest refl refl

two-IsDistinct : IsDistinct (5 ∷ 7 ∷ [])
unfolding check_connection
two-IsDistinct = (refl, (refl, tt))

closed_is_forgotten_example :
    (out : Peer) × (server_on_read 1 (last_read (some 104)) new_peer ≡ some out)
    × (out.is_closing ≡ true)
    × HasSet (5 ∷ 7 ∷ []) 7 false (after_uv_close_client 7 (5 ∷ 7 ∷ []) out).0
    × ((after_uv_close_client 7 (5 ∷ 7 ∷ []) out).1.data_of ≡ none)
closed_is_forgotten_example =
    closed_is_forgotten 1 7 (5 ∷ 7 ∷ []) (some 104) new_peer two-IsDistinct refl

-- A text frame without a handshake: the connection is closed.
nothing_before_handshake_example :
    data_count (tw_close_client (opened EndpointType.server new_peer)).events
    ≡ data_count new_peer.events
unfolding opened server_on_read parse_http_heads is_null init server_read server_received shake
nothing_before_handshake_example =
    nothing_before_handshake 9 (Read.received 0x81 (2 ∷ 104 ∷ 105 ∷ []) (0 ∷ [])) new_peer
      (peer_of (tw_close_client (opened EndpointType.server new_peer))) refl refl
