-- ===== src/Frame/Generator.antt =====
-- The frame generator of src/ws/wsutil.cpp. `none` stands for a buffer that cannot grow.
pub mod Bytes
pub mod Roundtrip
pub mod Delivery
pub mod Fragments
use Prim.Native.Nat.{bit_and, bit_or}
use a_nother_ws.Prelude.{
  ℕ, zero, suc, ◌+◌, ◌-◌, ◌*◌, ◌/◌, ◌%◌, ◌^◌, List, [], ◌∷◌, ◌++◌, Option, none, some, Bool, true,
  false, ◌&&◌, ltb, leb, ◌==◌, if◌then◌else◌, length, take, drop, ◌>>=◌,
}
use a_nother_ws.Prelude.Word.{u8, u32, ◌<<<◌}
use a_nother_ws.ByteOrder.{write_two_byte_length, write_four_byte_length}
use a_nother_ws.Membuf.{Membuf, write_at}
use a_nother_ws.Membuf
use a_nother_ws.Frame.Handle.{
  fin_enable, fin_disable, ws_continue_frame, ws_close_frame, ws_ping_frame, ws_pong_frame,
  data_frame_max_len,
}
use a_nother_ws.Frame.Mask.{do_mask}

-- The static `mask`.
abbrev pub mask_key : List ℕ
mask_key = 0x1a ∷ 0x2b ∷ 0x3c ∷ 0x4d ∷ []

-- `header[0]` and `header[1]`, in an array that was cleared.
pub first_header_byte : ℕ → ℕ → ℕ
first_header_byte fin op = bit_or (bit_or 0 (u8 (fin <<< 7))) (u8 (bit_and op 0x0f))

pub second_header_byte : ℕ → ℕ → ℕ
second_header_byte enable_mask payload_len =
    bit_or (bit_or 0 (u8 (enable_mask <<< 7))) (u8 (bit_and payload_len 0x7f))

-- The first `header_size` bytes of `header`, with the longer length field between the first two
-- bytes and the key.
unfoldable pub header_of : (fin op enable_mask payload_len : ℕ) → List ℕ → List ℕ
unfolding first_header_byte second_header_byte
header_of fin op enable_mask payload_len field =
    first_header_byte fin op
    ∷ second_header_byte enable_mask payload_len
    ∷ (field ++ (if enable_mask == 0 then [] else mask_key))

-- By the length of the data; `none` is data that is too big.
pub header_for : (fin op enable_mask datalen : ℕ) → Option (List ℕ)
unfolding header_of
header_for fin op enable_mask datalen =
    if leb datalen 125
    then some (header_of fin op enable_mask (u8 datalen) [])
    else if leb datalen 65535
    then some (header_of fin op enable_mask 0x7e (write_two_byte_length datalen))
    else if leb datalen 0xffff_ffff
    then some (header_of fin op enable_mask 0x7f (0 ∷ 0 ∷ 0 ∷ 0 ∷ write_four_byte_length datalen))
    else none

-- `do_mask(buf->data + buf->size - datalen, datalen, mask)`; the data was just appended, so the
-- difference does not wrap.
pub mask_tail : Membuf → ℕ → Membuf
mask_tail buf datalen = record buf {
  bytes =
      write_at buf.bytes (buf.size - datalen)
        (do_mask (take datalen (drop (buf.size - datalen) buf.bytes)) mask_key);
}

-- `datalen` is the length of `payload`.
pub generate_websocket_frame_without_fragment :
    Membuf → List ℕ → (op fin enable_mask : ℕ) → Option Membuf
unfolding mask_tail
generate_websocket_frame_without_fragment buf payload op fin enable_mask =
    elim (header_for fin op enable_mask (length payload)) [
      | none ↦ some buf
      | some header ↦ do
        with_header ← Membuf.append_data buf header
        with_body ← Membuf.append_data with_header payload
        some (if enable_mask == 0 then with_body else mask_tail with_body (length payload))
    ]

-- The control frames have a length field of 2 and no payload.
unfoldable pub generate_close_control_frame : List ℕ
generate_close_control_frame = bit_or (u8 (1 <<< 7)) (u8 (bit_and ws_close_frame 0x0f)) ∷ 2 ∷ []

unfoldable pub generate_ping_control_frame : List ℕ
generate_ping_control_frame = bit_or (u8 (1 <<< 7)) (u8 (bit_and ws_ping_frame 0x0f)) ∷ 2 ∷ []

unfoldable pub generate_pong_control_frame : List ℕ
generate_pong_control_frame = bit_or (u8 (1 <<< 7)) (u8 (bit_and ws_pong_frame 0x0f)) ∷ 2 ∷ []

-- The opcode and the FIN bit of the fragment number `counter` of `frag_num`.
abbrev pub fragment_op : (op counter frag_num : ℕ) → ℕ
fragment_op op counter frag_num =
    if frag_num == 1 then op else if counter == 0 then op else ws_continue_frame

abbrev pub fragment_fin : (counter frag_num : ℕ) → ℕ
fragment_fin counter frag_num =
    if frag_num == 1
    then fin_enable
    else if counter == 0
    then fin_disable
    else if counter == frag_num - 1
    then fin_enable
    else fin_disable

abbrev pub fragment_size : ℕ → ℕ
fragment_size left = if ltb data_frame_max_len left then data_frame_max_len else left

-- The `do` loop, with fuel for its rounds. `rest` is the data at `dataptr`; `wrapped` is
-- `haveWrappedCount`, which stays below `datalen` where it is subtracted, and `counter` is a
-- `uint`.
pub wrap_fragments :
    (fuel : ℕ) → Membuf → List ℕ → (op datalen frag_num wrapped counter : ℕ) → Option Membuf
wrap_fragments zero buf rest op datalen frag_num wrapped counter = none
wrap_fragments (suc fuel) buf rest op datalen frag_num wrapped counter = do
  let num = fragment_size (datalen - wrapped)
  buf' ←
      generate_websocket_frame_without_fragment buf (take num rest)
        (fragment_op op counter frag_num) (fragment_fin counter frag_num) 0
  let next =
      wrap_fragments fuel buf' (drop num rest) op datalen frag_num (wrapped + num)
        (u32 (counter + 1))
  if ltb (wrapped + num) datalen && ltb (u32 (counter + 1)) frag_num then next else some buf'

abbrev pub fragment_count : ℕ → ℕ
fragment_count datalen =
    datalen / data_frame_max_len + (if datalen % data_frame_max_len == 0 then 0 else 1)

pub generate_websocket_frame : Membuf → List ℕ → ℕ → Option Membuf
generate_websocket_frame buf payload op =
    if length payload == 0
    then some buf
    else wrap_fragments (fragment_count (length payload)) buf payload op (length payload)
        (fragment_count (length payload)) 0 0
