-- ===== src/Tests/Connections.antt =====
-- The loops of both endpoints on a text frame with the data "hi" and on a frame that is too long.
use a_nother_ws.Prelude.{◌⊎◌, ℕ, ◌≡◌, refl, List, [], ◌∷◌, some, none, true, false, inl, arith}
use a_nother_ws.Membuf.{Membuf}
use a_nother_ws.Membuf.Valid.{IsValid}
use a_nother_ws.Frame.{ParseState, EndpointType}
use a_nother_ws.Frame.Decode.{
  too_long, decode, decode_length, decode_mask, decode_payload, decode_four,
}
use a_nother_ws.Frame.Parser.Refine.{IsReady, decode-nil}
use a_nother_ws.Connection.{Connection, server_loop, client_loop}
use a_nother_ws.Connection.Stream.{Message, message_of, Splits, IsServing, HasServedAll}
use a_nother_ws.Connection.Loops.{server_loop_delivers, client_loop_delivers}
use a_nother_ws.Connection.Total.{IsOverlong, server_loop_ends}
use a_nother_ws.Connection.Stuck.{long_frame_hangs}

abbrev no_bytes : Membuf
no_bytes = record { bytes = 0 ∷ 0 ∷ []; size = 0; buffer_size = 2; flag = 4 }

no_bytes-IsValid : IsValid no_bytes
no_bytes-IsValid = record { block = refl; fits = omega arith; word = omega arith }

abbrev accepted : Connection
accepted = record {
  handle = record {
    proto_buf = no_bytes;
    merge_buf = no_bytes;
    endpoint_type = EndpointType.server;
    is_eof = 0;
    df_ext = 0;
    type = 0;
    has_mask = 0;
    payload_len = 0;
    mask = 0 ∷ 0 ∷ 0 ∷ 0 ∷ [];
    real_payload_len = 0;
    read_count = 0;
    parse_state = ParseState.incomplete;
  };
  has_loop_data = true;
  is_closing = false;
  events = [];
}

accepted-IsReady : IsReady accepted.handle
accepted-IsReady = record { valid = no_bytes-IsValid; key_size = refl; pending = inl decode-nil }

accepted-IsServing : IsServing accepted 0
accepted-IsServing = record {
  ready = accepted-IsReady;
  valid = no_bytes-IsValid;
  loop = refl;
  within = omega arith;
}

-- A whole frame, and the first byte of another.
abbrev hi_and_more : List ℕ
hi_and_more = 0x81 ∷ 2 ∷ 0x68 ∷ 0x69 ∷ 0x82 ∷ []

hi_and_more-Splits : Splits hi_and_more (message_of 0x81 (0x68 ∷ 0x69 ∷ []) ∷ []) (0x82 ∷ [])
unfolding decode decode_length decode_mask decode_payload
hi_and_more-Splits = Splits.whole 0x81 2 2 (0x68 ∷ 0x69 ∷ []) refl (Splits.stop refl)

server_loop_delivers_example :
    (out : Connection) × (server_loop 2 accepted hi_and_more ≡ some out)
    × HasServedAll accepted (message_of 0x81 (0x68 ∷ 0x69 ∷ []) ∷ []) (0x82 ∷ []) 5 out
server_loop_delivers_example =
    server_loop_delivers 2 accepted 0x81 (2 ∷ 0x68 ∷ 0x69 ∷ 0x82 ∷ []) (0x82 ∷ [])
      (message_of 0x81 (0x68 ∷ 0x69 ∷ []) ∷ []) 0 hi_and_more-Splits accepted-IsServing
      (omega arith) (omega arith)

client_loop_delivers_example :
    (out : Connection) × (client_loop 2 accepted hi_and_more ≡ some out)
    × HasServedAll accepted (message_of 0x81 (0x68 ∷ 0x69 ∷ []) ∷ []) (0x82 ∷ []) 5 out
client_loop_delivers_example =
    client_loop_delivers 2 accepted 0x81 (2 ∷ 0x68 ∷ 0x69 ∷ 0x82 ∷ []) (0x82 ∷ [])
      (message_of 0x81 (0x68 ∷ 0x69 ∷ []) ∷ []) 0 hi_and_more-Splits accepted-IsServing
      (omega arith) (omega arith)

-- A length of 2 ^ 56.
abbrev long_frame : List ℕ
long_frame = 0x82 ∷ 0x7f ∷ 1 ∷ 0 ∷ 0 ∷ 0 ∷ 0 ∷ []

long_frame-decodes : decode long_frame ≡ too_long
unfolding decode decode_length decode_four
long_frame-decodes = refl

long_frame_hangs_example :
    (server_loop 1000 accepted long_frame ≡ none) × (client_loop 1000 accepted long_frame ≡ none)
long_frame_hangs_example =
    long_frame_hangs 1000 accepted 0x82 (0x7f ∷ 1 ∷ 0 ∷ 0 ∷ 0 ∷ 0 ∷ []) accepted-IsReady
      long_frame-decodes (omega arith) (omega arith) (omega arith)

server_loop_ends_example :
    ((ms : List Message) × (left : List ℕ) × (out : Connection) × Splits hi_and_more ms left
      × (server_loop 6 accepted hi_and_more ≡ some out)
      × HasServedAll accepted ms left 5 out)
    ⊎ IsOverlong hi_and_more
server_loop_ends_example =
    server_loop_ends accepted 0x81 (2 ∷ 0x68 ∷ 0x69 ∷ 0x82 ∷ []) 0 accepted-IsServing (omega arith)
