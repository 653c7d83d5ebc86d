-- ===== src/Endpoint/Answered.antt =====
-- The request of src/ws/CWSClient.cpp as src/ws/CWSServer.cpp reads and answers it.
use a_nother_ws.Prelude.{
  ℕ, ◌≤◌, ◌≡◌, ◌⊎◌, refl, sym, ap, ◌∙◌, subst, List, [], ◌∷◌, ◌++◌, Option, none, some, true, false,
  if◌then◌else◌, length, take, drop, take-all, inl, inr, append_assoc, ◌>>=◌, arith,
}
use a_nother_ws.Prelude.Text.{codes, crlf, c_string, strstr, decimal, IsText}
use a_nother_ws.Frame.{EndpointType}
use a_nother_ws.Connection.{Connection, server_loop}
use a_nother_ws.Sha1.Padding.{fips_digest}
use a_nother_ws.Base64.Reading.{read_base64}
use a_nother_ws.Handshake.{
  ws_key_suffix, parse_http_heads, generate_websocket_server_handshake, server_handshake_text,
  client_handshake_text, generate_websocket_client_handshake,
}
use a_nother_ws.Handshake.Heads.{IsToken, head_with, header_is_found}
use a_nother_ws.Handshake.Answer.{IsAnswer, server_answers}
use a_nother_ws.Endpoint.{
  Peer, Read, opened, peer_of, is_websocket, key_name, shake, server_received, server_read,
  server_on_read,
}
use a_nother_ws.Endpoint.Handshakes.{greeted}

-- The lines of the client's request before the key, and its head.
abbrev pub lines_before : List ℕ → ℕ → List ℕ → List ℕ
lines_before ip port path =
    codes "GET "
    ++ (path
        ++ (codes " HTTP/1.1"
            ++ (crlf
                ++ (codes "Host: "
                    ++ (ip
                        ++ (codes ":"
                            ++ (decimal port
                                ++ (crlf
                                    ++ (codes "Upgrade: websocket"
                                        ++ (crlf ++ (codes "Connection: Upgrade" ++ crlf)))))))))))

abbrev pub request_head : List ℕ → ℕ → List ℕ → List ℕ → List ℕ
request_head ip port path key =
    head_with (lines_before ip port path) key_name key (10 ∷ codes "Sec-WebSocket-Version: 13")

-- The conditions on what the client puts into its request: no byte 0, the empty line and the name of
-- the header only where they belong, a key of 20 to 47 bytes without white space, and room for
-- all of it.
pub record IsRequest (ip : List ℕ) (port : ℕ) (path key : List ℕ) : Type 0 where
  pub text : IsText (request_head ip port path key)
  pub ends : strstr (request_head ip port path key ++ (13 ∷ 10 ∷ 13 ∷ [])) (crlf ++ crlf) ≡ none
  pub first : strstr (lines_before ip port path ++ take 17 key_name) key_name ≡ none
  pub token : IsToken key
  pub long : 20 ≤ length key
  pub short : length key ≤ 47
  pub fits : length (client_handshake_text ip port path key) ≤ 1023

request_lem :
    (ip : List ℕ) (port : ℕ) (path key : List ℕ)
    → client_handshake_text ip port path key ≡ request_head ip port path key ++ (crlf ++ crlf)
unfolding client_handshake_text
request_lem ip port path key = simp append_assoc

first_byte :
    (ip : List ℕ) (port : ℕ) (path key : List ℕ)
    → 71 ∷ drop 1 (generate_websocket_client_handshake ip port path key)
      ≡ generate_websocket_client_handshake ip port path key
unfolding generate_websocket_client_handshake client_handshake_text
first_byte ip port path key = refl

key_found :
    (ip : List ℕ) (port : ℕ) (path key spare : List ℕ)
    → IsRequest ip port path key
    → parse_http_heads (generate_websocket_client_handshake ip port path key ++ spare) key_name
      ≡ some key
unfolding generate_websocket_client_handshake
key_found ip port path [] spare r = absurd (omega (arith, r.long))
key_found ip port path (k ∷ key) spare r =
    let head = request_head ip port path (k ∷ key) in
    let whole = take-all 1023 (client_handshake_text ip port path (k ∷ key)) r.fits in
    let block : generate_websocket_client_handshake ip port path (k ∷ key) ++ spare
        ≡ head ++ ((crlf ++ crlf) ++ spare) =
      ap (λ l. l ++ spare) (whole ∙ request_lem ip port path (k ∷ key))
      ∙ append_assoc head (crlf ++ crlf) spare in
    ap (λ l. parse_http_heads l key_name) block
    ∙ header_is_found (lines_before ip port path) key_name k key
        (10 ∷ codes "Sec-WebSocket-Version: 13") spare r.text r.ends r.first r.token

-- What the server makes of a request with this key.
pub record IsGreeted (c : Connection) (bytes : List ℕ) (after : Option Peer) : Type 0 where
  pub accept : List ℕ
  pub returned : after ≡ some (peer_of (greeted (server_handshake_text accept) c))
  pub reads : read_base64 accept ≡ bytes

answered :
    (c : Connection) (key bytes : List ℕ)
    → ((bytes ≡ []) × (generate_websocket_server_handshake key ≡ none))
      ⊎ IsAnswer bytes (generate_websocket_server_handshake key)
    → let after = shake c (some key) >>= (λ d. some (peer_of d)) in
      ((bytes ≡ []) × (after ≡ none)) ⊎ IsGreeted c bytes after
unfolding shake
answered c key bytes (inl (nothing, e)) = inl (nothing, rw e refl)
answered c key bytes (inr a) =
    inr (record { accept = a.accept; returned = rw a.returned refl; reads = a.reads })

-- The server greets the client: when the text of the client's handshake arrives at a connection that
-- is new, in one read, the server sends the text of RFC 6455, whose `Sec-WebSocket-Accept` reads back
-- as the SHA-1 digest of the client's key followed by the fixed identifier up to its first byte 0,
-- sets the flag of a websocket, and tells the application of the connection, all in this order; when
-- the digest begins with a 0, no answer is defined. The request is as `IsRequest` says, with
-- anything behind it in the block, and the loop of the connection has its data.
pub client-IsGreeted :
    (fuel : ℕ) (ip : List ℕ) (port : ℕ) (path key spare : List ℕ) (peer : Peer)
    → IsRequest ip port path key
    → peer.has_loop_data ≡ true
    → is_websocket (opened EndpointType.server peer) ≡ false
    → let request = generate_websocket_client_handshake ip port path key in
      let after = server_on_read fuel (Read.received 71 (drop 1 request) spare) peer in
      let digest = c_string (fips_digest (key ++ ws_key_suffix)) in
      ((digest ≡ []) × (after ≡ none)) ⊎ IsGreeted (opened EndpointType.server peer) digest after
unfolding server_on_read server_read server_received
client-IsGreeted fuel ip port path key spare peer r has new =
    let request = generate_websocket_client_handshake ip port path key in
    let c = opened EndpointType.server peer in
    let block : 71 ∷ drop 1 request ≡ request = first_byte ip port path key in
    let found : parse_http_heads ((71 ∷ drop 1 request) ++ spare) key_name ≡ some key =
      ap (λ l. parse_http_heads (l ++ spare) key_name) block ∙ key_found ip port path key spare r in
    let bytes = (71 ∷ drop 1 request) ++ spare in
    let digest = c_string (fips_digest (key ++ ws_key_suffix)) in
    let shaken : server_received fuel c (71 ∷ drop 1 request) spare ≡ shake c (some key) =
      ap
        (λ b.
          if b
          then server_loop fuel c (71 ∷ drop 1 request)
          else shake c (parse_http_heads bytes key_name))
        new
      ∙ ap (shake c) found in
    let same : server_on_read fuel (Read.received 71 (drop 1 request) spare) peer
        ≡ (shake c (some key) >>= (λ d. some (peer_of d))) =
      ap
        (λ b.
          if b
          then (server_received fuel c (71 ∷ drop 1 request) spare >>= (λ d. some (peer_of d)))
          else some (peer_of c))
        has
      ∙ ap (λ o. o >>= (λ d. some (peer_of d))) shaken in
    subst (λ after. ((digest ≡ []) × (after ≡ none)) ⊎ IsGreeted c digest after) (sym same)
      (answered c key digest (server_answers key r.long r.short))
