-- ===== src/Handshake.antt =====
-- src/ws/wsutil.cpp: `sha1_and_base64` and the texts of the handshake; src/ws/uvutil.cpp:
-- `parse_http_heads`. `none` stands for what has no defined behaviour, a write behind an array or
-- a null pointer, and for a buffer that cannot grow.
pub mod Heads
pub mod Answer
use a_nother_ws.Prelude.{
  ℕ, zero, suc, ◌+◌, ◌-◌, List, [], ◌∷◌, ◌++◌, Option, none, some, length, take, drop, ltb,
  if◌then◌else◌, ◌>>=◌,
}
use a_nother_ws.Prelude.Text.{codes, crlf, c_string, strstr, skip_spaces, before, decimal}
use a_nother_ws.Membuf.{Membuf, is_null}
use a_nother_ws.Base64.{base64_encode}
use a_nother_ws.Sha1.{hash1_reset, hash1_write}
use a_nother_ws.Sha1.Final.{hash1_final}

abbrev pub ws_key_suffix : List ℕ
ws_key_suffix = codes "258EAFA5-E914-47DA-95CA-C5AB0DC85B11"

abbrev pub handshake_size : ℕ
handshake_size = 1024

-- The buffer behind the pointer that is returned.
unfoldable pub sha1_and_base64 : List ℕ → Option Membuf
sha1_and_base64 input = base64_encode (c_string (hash1_final (hash1_write hash1_reset input)).buf)

-- What `snprintf` with the size of the block writes.
abbrev pub printed : List ℕ → List ℕ
printed text = take (handshake_size - 1) text

unfoldable pub client_handshake_text : List ℕ → ℕ → List ℕ → List ℕ → List ℕ
client_handshake_text ip port path key =
    codes "GET "
    ++ (path
        ++ (codes " HTTP/1.1"
            ++ (crlf
                ++ (codes "Host: "
                    ++ (ip
                        ++ (codes ":"
                            ++ (decimal port
                                ++ (crlf
                                    ++ (codes "Upgrade: websocket"
                                        ++ (crlf
                                            ++ (codes "Connection: Upgrade"
                                                ++ (crlf
                                                    ++ (codes "Sec-WebSocket-Key: "
                                                        ++ (key
                                                            ++ (crlf
                                                            ++ (codes "Sec-WebSocket-Version: 13"
                                                            ++ (crlf ++ crlf)))))))))))))))))

unfoldable pub generate_websocket_client_handshake : List ℕ → ℕ → List ℕ → List ℕ → List ℕ
generate_websocket_client_handshake ip port path key =
    printed (client_handshake_text ip port path key)

unfoldable pub server_handshake_text : List ℕ → List ℕ
server_handshake_text accept =
    codes "HTTP/1.1 101 Switching Protocols"
    ++ (crlf
        ++ (codes "Upgrade: websocket"
            ++ (crlf
                ++ (codes "Connection: Upgrade"
                    ++ (crlf ++ (codes "Sec-WebSocket-Accept: " ++ (accept ++ (crlf ++ crlf))))))))

-- `%s` of the buffer, which has no block when nothing was encoded.
abbrev pub accept_text : Membuf → Option (List ℕ)
accept_text buf = if is_null buf.bytes then none else some (c_string buf.bytes)

-- From the call of `sha1_and_base64` on.
unfoldable pub answer_for : List ℕ → Option (List ℕ)
answer_for akey = do
  encoded ← sha1_and_base64 akey
  accept ← accept_text encoded
  some (printed (server_handshake_text accept))

-- `akey` has 100 bytes, and one of them is to end the text.
unfoldable pub generate_websocket_server_handshake : List ℕ → Option (List ℕ)
generate_websocket_server_handshake key =
    let akey = key ++ ws_key_suffix in
    let answer = answer_for akey in if ltb (length akey) 100 then answer else none

-- `base` is the block of the read. The head of the request is cut off with a 0, which stands in
-- the block behind it; the name may stand at its end, and what follows is then read on.
unfoldable pub parse_http_heads : List ℕ → List ℕ → Option (List ℕ)
parse_http_heads base key_name = do
  data_at ← strstr (c_string base) (crlf ++ crlf)
  let block = take data_at base ++ (0 ∷ drop (suc data_at) base) in
      (do
        key_at ← strstr (c_string block) key_name
        some (before 13 (c_string (skip_spaces (drop (key_at + (length key_name + 1)) block)))))
