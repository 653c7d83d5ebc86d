-- ===== src/Tests/Frames.antt =====
-- src/ws/wsutil.cpp on a text frame with the data "hi".
use a_nother_ws.Prelude.{ℕ, ◌+◌, ◌≤◌, ◌≡◌, refl, List, [], ◌∷◌, ◌++◌, some, inl, arith, length}
use a_nother_ws.Membuf.{Membuf, contents}
use a_nother_ws.Membuf.Valid.{IsValid}
use a_nother_ws.Membuf.Contents.{HasAppended}
use a_nother_ws.Frame.{WebsocketHandle, ParseState, EndpointType}
use a_nother_ws.Frame.Decode.{need_more, decode, decode_length, decode_mask, decode_key}
use a_nother_ws.Frame.Parser.{try_parse_protocol}
use a_nother_ws.Frame.Parser.Stages.{Yields}
use a_nother_ws.Frame.Parser.Refine.{kept, IsReady, decode-nil, try_parse_protocol-Yields}
use a_nother_ws.Frame.Parser.Pieces.{SameParse, two_pieces, try_parse_protocol-IsReady}
use a_nother_ws.Frame.Parser.Empty.{
  IsLeftIncomplete, empty_frame_keeps_header, control_frames_are_incomplete,
}
use a_nother_ws.Frame.Generator.{
  header_of, generate_websocket_frame_without_fragment, generate_close_control_frame,
  generate_ping_control_frame, generate_pong_control_frame, generate_websocket_frame,
}
use a_nother_ws.Frame.Generator.Bytes.{body_of, generate-HasAppended, header_for_short}
use a_nother_ws.Frame.Generator.Delivery.{Delivered, generated_is_parsed}
use a_nother_ws.Frame.Generator.Fragments.{HasWrapped, message_is_carried}

abbrev empty_buf : Membuf
empty_buf = record { bytes = 0 ∷ 0 ∷ []; size = 0; buffer_size = 2; flag = 0 }

empty_buf-IsValid : IsValid empty_buf
empty_buf-IsValid = record { block = refl; fits = omega arith; word = omega arith }

abbrev new_handle : WebsocketHandle
new_handle = record {
  proto_buf = empty_buf;
  merge_buf = empty_buf;
  endpoint_type = EndpointType.server;
  is_eof = 0;
  df_ext = 0;
  type = 0;
  has_mask = 0;
  payload_len = 0;
  mask = 0 ∷ 0 ∷ 0 ∷ 0 ∷ [];
  real_payload_len = 0;
  read_count = 0;
  parse_state = ParseState.incomplete;
}

new_handle-IsReady : IsReady new_handle
new_handle-IsReady = record { valid = empty_buf-IsValid; key_size = refl; pending = inl decode-nil }

-- A frame of a client with the key 1, 2, 3, 4.
abbrev masked_hi : List ℕ
masked_hi = 0x81 ∷ 0x82 ∷ 1 ∷ 2 ∷ 3 ∷ 4 ∷ 0x69 ∷ 0x6b ∷ []

abbrev hi : List ℕ
hi = 0x68 ∷ 0x69 ∷ []

try_parse_protocol-Yields_example :
    Yields
      (kept new_handle)
      []
      masked_hi
      (decode masked_hi)
      (try_parse_protocol new_handle masked_hi)
try_parse_protocol-Yields_example =
    try_parse_protocol-Yields new_handle 0x81 (0x82 ∷ 1 ∷ 2 ∷ 3 ∷ 4 ∷ 0x69 ∷ 0x6b ∷ [])
      new_handle-IsReady (omega arith)

generated_is_parsed_example :
    (sent : Membuf) × (out : WebsocketHandle × ℕ) × (generate_websocket_frame_without_fragment
        empty_buf hi 1 1 1
      ≡ some sent)
    × (length (contents sent) ≤ length hi + 14)
    × (try_parse_protocol new_handle (contents sent ++ masked_hi) ≡ some out)
    × Delivered hi 1 1 1 (length (contents sent)) out
generated_is_parsed_example =
    generated_is_parsed empty_buf new_handle hi masked_hi 1 1 1 empty_buf-IsValid refl
      new_handle-IsReady refl (omega arith) (omega arith) (omega arith) (omega arith) (omega arith)

message_is_carried_example :
    (out : Membuf) × (generate_websocket_frame empty_buf hi 2 ≡ some out)
    × HasWrapped 2 hi empty_buf out
message_is_carried_example =
    message_is_carried empty_buf hi 2 empty_buf-IsValid (omega arith) (omega arith) (omega arith)

generate-HasAppended_example :
    (out : Membuf) × (generate_websocket_frame_without_fragment empty_buf hi 1 1 1 ≡ some out)
    × HasAppended empty_buf (header_of 1 1 1 2 [] ++ body_of 1 hi) out
unfolding header_of
generate-HasAppended_example =
    generate-HasAppended empty_buf hi (header_of 1 1 1 2 []) 1 1 1 empty_buf-IsValid
      (header_for_short 1 1 1 2 (omega arith)) (omega arith)

empty_frame_keeps_header_example :
    (out : WebsocketHandle × ℕ) × (try_parse_protocol new_handle (0x89 ∷ 0x80 ∷ 1 ∷ 2 ∷ 3 ∷ 4 ∷ [])
      ≡ some out)
    × (out.1 ≡ 1)
    × (out.0.parse_state ≡ ParseState.complete)
    × (out.0.read_count ≡ 2)
    × (contents out.0.proto_buf ≡ 0x89 ∷ 0x80 ∷ [])
empty_frame_keeps_header_example =
    empty_frame_keeps_header new_handle 0x89 0x80 (1 ∷ 2 ∷ 3 ∷ 4 ∷ []) new_handle-IsReady refl refl
      (omega arith)

control_frames_are_incomplete_example :
    IsLeftIncomplete new_handle generate_close_control_frame
    × IsLeftIncomplete new_handle generate_ping_control_frame
    × IsLeftIncomplete new_handle generate_pong_control_frame
control_frames_are_incomplete_example =
    control_frames_are_incomplete new_handle new_handle-IsReady refl

-- The first three bytes of the frame leave the parser incomplete.
short_run :
    Yields
      (kept new_handle)
      []
      (0x81 ∷ 0x82 ∷ 1 ∷ [])
      need_more
      (try_parse_protocol new_handle (0x81 ∷ 0x82 ∷ 1 ∷ []))
unfolding decode decode_length decode_mask decode_key
short_run =
    try_parse_protocol-Yields new_handle 0x81 (0x82 ∷ 1 ∷ []) new_handle-IsReady (omega arith)

two_pieces_example :
    (last : WebsocketHandle × ℕ) × (whole : WebsocketHandle × ℕ) × (try_parse_protocol short_run.0.0
        (2 ∷ 3 ∷ 4 ∷ 0x69 ∷ 0x6b ∷ [])
      ≡ some last)
    × (try_parse_protocol new_handle masked_hi ≡ some whole)
    × SameParse 3 last whole
two_pieces_example =
    two_pieces new_handle 0x81 2 (0x82 ∷ 1 ∷ []) (3 ∷ 4 ∷ 0x69 ∷ 0x6b ∷ []) short_run.0
      new_handle-IsReady (omega arith) short_run.1 short_run.2.parse_state

try_parse_protocol-IsReady_example : IsReady short_run.0.0
try_parse_protocol-IsReady_example =
    try_parse_protocol-IsReady new_handle 0x81 (0x82 ∷ 1 ∷ []) short_run.0 new_handle-IsReady
      (omega arith) short_run.1
