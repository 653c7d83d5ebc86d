-- ===== src/Frame/Parser.antt =====
-- `try_parse_protocol` of src/ws/wsutil.cpp, from one read to the next. Each function is the code
-- from a read on; the variable `header_len` is an argument. The result is the handle with the value
-- that the call returns.
pub mod Stages
mod Payload
mod Header
mod Length
mod Opening
pub mod Refine
pub mod Pieces
pub mod Empty
use Prim.Native.Nat.{bit_and}
use a_nother_ws.Prelude.{
  ℕ, ◌+◌, ◌-◌, ◌*◌, ◌/◌, ◌%◌, ◌^◌, List, [], ◌∷◌, ◌++◌, Option, none, some, Bool, true, false, ◌&&◌,
  ltb, leb, ◌==◌, if◌then◌else◌, length, take, drop, get_or, ◌>>=◌,
}
use a_nother_ws.Prelude.Word.{◌>>>◌}
use a_nother_ws.ByteOrder.{read_two_byte_length, read_four_byte_length}
use a_nother_ws.Membuf.{Membuf, write_at}
use a_nother_ws.Membuf
use a_nother_ws.Frame.Handle.{WebsocketHandle, ParseState, is_complete}
use a_nother_ws.Frame.Mask.{do_mask}
use a_nother_ws.Frame.Reader.{Reader, Reading, read_char_from_buf_or_data}

abbrev pub Parsing : Type 0
Parsing = Option (WebsocketHandle × ℕ)

-- The code writes the buffer and the count in place; here they are put back at each `return`.
abbrev pub sync : WebsocketHandle → Reader → WebsocketHandle
sync h r = record h { proto_buf = r.buf; read_count = r.read_count }

-- `do_mask(buf->data + header_len, buf->size - header_len, mask)`; a parsed header lies in the
-- buffer, so the difference does not wrap.
pub mask_payload : Membuf → ℕ → List ℕ → Membuf
mask_payload buf header_len mask = record buf {
  bytes =
      write_at buf.bytes header_len
        (do_mask (take (buf.size - header_len) (drop header_len buf.bytes)) mask);
}

pub finish : WebsocketHandle → Reader → ℕ → WebsocketHandle × ℕ
finish h r header_len =
    let buf = if h.has_mask == 0 then r.buf else mask_payload r.buf header_len h.mask in
    (
      record h {
        proto_buf = Membuf.remove buf 0 header_len;
        read_count = r.read_count;
        parse_state = ParseState.complete;
      },
      1,
    )

pub read_payload : List ℕ → WebsocketHandle → Reader → ℕ → Parsing
read_payload input h r header_len = do
  got ← read_char_from_buf_or_data input r h.real_payload_len
  some (if got.done then finish h got.reader header_len else (sync h got.reader, 0))

-- The key is read straight into the handle, also where it is cut short.
abbrev pub with_key : WebsocketHandle → List ℕ → WebsocketHandle
with_key h key = record h { mask = key ++ drop (length key) h.mask }

pub read_mask : List ℕ → WebsocketHandle → Reader → ℕ → Parsing
read_mask input h r header_len = if h.has_mask == 0 then read_payload input h r header_len else do
  got ← read_char_from_buf_or_data input r 4
  if got.done
      then read_payload input (with_key h got.stored) got.reader (header_len + 4)
      else some (sync (with_key h got.stored) got.reader, 0)

pub read_length_two : List ℕ → WebsocketHandle → Reader → Parsing
read_length_two input h r = do
  got ← read_char_from_buf_or_data input r 2
  if got.done
      then read_mask input (record h { real_payload_len = read_two_byte_length got.stored })
          got.reader 4
      else some (sync h got.reader, 0)

pub all_zero : List ℕ → Bool
all_zero [] = true
all_zero (x ∷ xs) = x == 0 && all_zero xs

pub read_length_low : List ℕ → WebsocketHandle → Reader → Parsing
read_length_low input h r = do
  got ← read_char_from_buf_or_data input r 4
  if got.done
      then read_mask input (record h { real_payload_len = read_four_byte_length got.stored })
          got.reader 10
      else some (sync h got.reader, 0)

pub read_length_four : List ℕ → WebsocketHandle → Reader → Parsing
read_length_four input h r = do
  got ← read_char_from_buf_or_data input r 4
  if got.done
      then (if all_zero got.stored
          then read_length_low input h got.reader
          else some (record (sync h got.reader) { parse_state = ParseState.failed }, 0))
      else some (sync h got.reader, 0)

-- By the field `payloadLen`.
pub read_length : List ℕ → WebsocketHandle → Reader → Parsing
read_length input h r =
    if ltb h.payload_len 126
    then (if h.payload_len == 0
        then some (record (sync h r) { real_payload_len = 0; parse_state = ParseState.complete }, 1)
        else read_mask input (record h { real_payload_len = h.payload_len }) r 2)
    else if h.payload_len == 126
    then read_length_two input h r
    else if h.payload_len == 127
    then read_length_four input h r
    else some (record (sync h r) { parse_state = ParseState.failed }, 0)

-- Fields of the first byte. `char` is signed, so `temp >> 7` is 0 or -1, of which the field keeps
-- one bit; `dfExt` keeps three bits of `temp & 0x70`.
pub first_byte : WebsocketHandle → ℕ → WebsocketHandle
first_byte h temp = record h {
  is_eof = (temp >>> 7) % 2;
  df_ext = bit_and temp 0x70 % 8;
  type = bit_and temp 0x0f;
}

pub second_byte : WebsocketHandle → ℕ → WebsocketHandle
second_byte h temp = record h { has_mask = (temp >>> 7) % 2; payload_len = bit_and temp 0x7f }

-- The first read is not checked.
pub read_second : List ℕ → WebsocketHandle → Reader → Parsing
read_second input h r = do
  got ← read_char_from_buf_or_data input r 1
  if got.done
      then read_length input (second_byte h (get_or got.stored 0 0)) got.reader
      else some (sync h got.reader, 0)

pub read_first : List ℕ → WebsocketHandle → Reader → Parsing
read_first input h r = do
  got ← read_char_from_buf_or_data input r 1
  read_second input (first_byte h (get_or got.stored 0 0)) got.reader

-- The handle when the reads begin: a complete frame of an earlier call is dropped.
pub start : WebsocketHandle → WebsocketHandle
start h =
    if is_complete h.parse_state
    then record h {
      proto_buf = Membuf.clear h.proto_buf 0;
      mask = 0 ∷ 0 ∷ 0 ∷ 0 ∷ [];
      read_count = 0;
      parse_state = ParseState.incomplete;
    }
    else record h { read_count = 0; parse_state = ParseState.incomplete }

abbrev pub start_reader : Membuf → Reader
start_reader buf = record { buf = buf; buf_read = 0; data_read = 0; read_count = 0 }

-- `input` is the block of `datalen` bytes at `data`, `[]` for NULL.
pub try_parse_protocol : WebsocketHandle → List ℕ → Parsing
unfolding start
try_parse_protocol h [] = some (record h { read_count = 0 }, 0)
try_parse_protocol h (x ∷ input) =
    read_first (x ∷ input) (start h) (start_reader (start h).proto_buf)
