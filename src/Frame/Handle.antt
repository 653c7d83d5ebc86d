-- ===== src/Frame/Handle.antt =====
-- include/ws/wsutil.h: the constants of a frame and the state that is kept for a connection.
use a_nother_ws.Prelude.{ℕ, List, Bool, true, false}
use a_nother_ws.Membuf.{Membuf}

abbrev pub fin_enable : ℕ
fin_enable = 1

abbrev pub fin_disable : ℕ
fin_disable = 0

abbrev pub ws_continue_frame : ℕ
ws_continue_frame = 0

abbrev pub ws_text_frame : ℕ
ws_text_frame = 1

abbrev pub ws_bin_frame : ℕ
ws_bin_frame = 2

abbrev pub ws_close_frame : ℕ
ws_close_frame = 8

abbrev pub ws_ping_frame : ℕ
ws_ping_frame = 9

abbrev pub ws_pong_frame : ℕ
ws_pong_frame = 10

abbrev pub data_frame_max_len : ℕ
data_frame_max_len = 65520

abbrev pub flag_websocket_text : ℕ
flag_websocket_text = 1

abbrev pub flag_websocket_bin : ℕ
flag_websocket_bin = 2

abbrev pub flag_websocket : ℕ
flag_websocket = 4

pub data ParseState : Type 0 where
  complete failed incomplete : ParseState

abbrev pub is_complete : ParseState → Bool
is_complete ParseState.complete = true
is_complete ParseState.failed = false
is_complete ParseState.incomplete = false

pub data EndpointType : Type 0 where
  client server : EndpointType

-- `websocket_handle`; the fields of one bit are 0 or 1, and `mask` has four bytes.
pub record WebsocketHandle : Type 0 where
  pub proto_buf : Membuf
  pub merge_buf : Membuf
  pub endpoint_type : EndpointType
  pub is_eof : ℕ
  pub df_ext : ℕ
  pub type : ℕ
  pub has_mask : ℕ
  pub payload_len : ℕ
  pub mask : List ℕ
  pub real_payload_len : ℕ
  pub read_count : ℕ
  pub parse_state : ParseState
