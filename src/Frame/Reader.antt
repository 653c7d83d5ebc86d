-- ===== src/Frame/Reader.antt =====
-- `read_char_from_buf_or_data` of src/ws/wsutil.cpp: the bytes of a frame come from what earlier
-- calls left in the buffer, then from the new data, which is copied to the buffer on the way.
pub mod Position
use a_nother_ws.Prelude.{
  ℕ, ◌+◌, ◌-◌, ◌≤◌, List, [], ◌∷◌, ◌++◌, Option, none, some, Bool, true, false, leb, if◌then◌else◌,
  length, take, drop, ◌>>=◌,
}
use a_nother_ws.Prelude.Word.{size_add, size_sub}
use a_nother_ws.Membuf.{Membuf}
use a_nother_ws.Membuf

-- The variables that the calls share: `buf`, `buf_read`, `data_read` and the handle's `readCount`.
pub record Reader : Type 0 where
  pub buf : Membuf
  pub buf_read : ℕ
  pub data_read : ℕ
  pub read_count : ℕ

-- The bytes stored through `readchar`, and whether all of them were read.
pub record Reading : Type 0 where
  pub reader : Reader
  pub stored : List ℕ
  pub done : Bool

-- `n` bytes at `data + data_read` are copied to the buffer and passed.
pub take_from_data : List ℕ → Reader → ℕ → Option Reader
take_from_data input r n = do
  buf ← Membuf.append_data r.buf (take n (drop r.data_read input))
  some (record {
    buf = buf;
    buf_read = size_add r.buf_read n;
    data_read = size_add r.data_read n;
    read_count = size_add r.read_count n;
  })

-- `datalen` is the length of `input`.
pub read_char_from_buf_or_data : List ℕ → Reader → ℕ → Option Reading
read_char_from_buf_or_data input r readlen =
    if leb (size_add r.buf_read readlen) r.buf.size
    then some (record {
      reader = record r { buf_read = size_add r.buf_read readlen };
      stored = take readlen (drop r.buf_read r.buf.bytes);
      done = true;
    })
    else let buf_available = size_sub r.buf.size r.buf_read in
      let from_buf = take buf_available (drop r.buf_read r.buf.bytes) in
      let r' : Reader = record r { buf_read = size_add r.buf_read buf_available } in
      let missing = size_sub readlen buf_available in
      let data_available = size_sub (length input) r.data_read in
      if leb (size_sub (size_add r.data_read readlen) buf_available) (length input)
      then (do
        r'' ← take_from_data input r' missing
        some (record {
          reader = r'';
          stored = from_buf ++ take missing (drop r.data_read input);
          done = true;
        }))
      else do
        r'' ← take_from_data input r' data_available
        some (record {
          reader = r'';
          stored = from_buf ++ take data_available (drop r.data_read input);
          done = false;
        })
