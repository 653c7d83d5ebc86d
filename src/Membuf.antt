-- ===== src/Membuf.antt =====
-- src/ws/membuf.cpp: the growable byte buffer. The state is `membuf_t` (include/ws/membuf.h). The
-- field `bytes` is the block that the pointer `data` stands for, `[]` when it is NULL. Allocation
-- succeeds (the code asserts it), and `none` is a loop that does not end.
pub mod Valid
pub mod Growth
pub mod Contents
pub mod Removal
pub mod Zeros
use a_nother_ws.Prelude.{
  ℕ, zero, suc, ◌+◌, ◌-◌, ◌*◌, ◌^◌, List, [], ◌∷◌, ◌++◌, Option, none, some, Bool, true, false,
  ◌&&◌, ◌||◌, ltb, leb, ◌==◌, if◌then◌else◌, length, take, drop, replicate, ◌>>=◌, not,
}
use a_nother_ws.Prelude.Word.{u32, size_sub, size_add}

pub record Membuf : Type 0 where
  pub bytes : List ℕ
  pub size : ℕ
  pub buffer_size : ℕ
  pub flag : ℕ

-- `realloc` to `n` bytes. What it adds has no determined value; every caller overwrites it.
abbrev pub realloc : List ℕ → ℕ → List ℕ
realloc bytes n = take n bytes ++ replicate (n - length bytes) 0

-- `memset(data + offset, 0, n)`
abbrev pub zero_fill : List ℕ → ℕ → ℕ → List ℕ
zero_fill bytes offset n = take offset bytes ++ (replicate n 0 ++ drop (offset + n) bytes)

-- `memmove(data + offset, src, length src)`
abbrev pub write_at : List ℕ → ℕ → List ℕ → List ℕ
write_at bytes offset src = take offset bytes ++ (src ++ drop (offset + length src) bytes)

-- The data that the buffer holds.
abbrev pub contents : Membuf → List ℕ
contents buf = take buf.size buf.bytes

unfoldable pub is_null : List ℕ → Bool
is_null [] = true
is_null (x ∷ xs) = false

-- `memset` of the whole struct clears the flag too.
unfoldable pub init : ℕ → Membuf
init initial_buffer_size = record {
  bytes = replicate initial_buffer_size 0;
  size = 0;
  buffer_size = initial_buffer_size;
  flag = 0;
}

unfoldable pub uninit : Membuf → Membuf
uninit buf = record { bytes = []; size = 0; buffer_size = 0; flag = 0 }

pub clear : Membuf → ℕ → Membuf
unfolding is_null
clear buf max_size =
    if is_null buf.bytes || buf.size == 0
    then buf
    else if ltb 1 max_size && ltb max_size buf.buffer_size
    then record buf {
      bytes = zero_fill (realloc buf.bytes max_size) 0 max_size;
      size = 0;
      buffer_size = max_size;
    }
    else record buf { bytes = zero_fill buf.bytes 0 buf.buffer_size; size = 0 }

-- `while (new_buffer_size < new_data_size) new_buffer_size <<= 1;` on `uint`, with fuel.
pub double_until : ℕ → ℕ → ℕ → Option ℕ
double_until zero new_buffer_size new_data_size = none
double_until (suc fuel) new_buffer_size new_data_size =
    let next = double_until fuel (u32 (new_buffer_size * 2)) new_data_size in
    if ltb new_buffer_size new_data_size then next else some new_buffer_size

-- A `uint` that is doubled 32 times is 0 from then on.
abbrev pub doublings : ℕ
doublings = 33

-- The size that the loop starts from; `buffer_size << 1` is cut to a `uint`.
abbrev pub first_size : Membuf → ℕ → ℕ
first_size buf extra_size = u32 (if buf.buffer_size == 0 then extra_size else buf.buffer_size * 2)

pub resize : Membuf → ℕ → Membuf
resize buf new_buffer_size = record buf {
  bytes =
      zero_fill (realloc buf.bytes new_buffer_size) buf.size (size_sub new_buffer_size buf.size);
  buffer_size = new_buffer_size;
}

pub reserve : Membuf → ℕ → Option Membuf
reserve buf extra_size =
    if ltb (size_sub buf.buffer_size buf.size) extra_size
    then (do
      new_buffer_size ←
          double_until doublings (first_size buf extra_size) (u32 (buf.size + extra_size))
      some (resize buf new_buffer_size))
    else some buf

pub trunc : Membuf → Membuf
trunc buf =
    if ltb (buf.size + 4) buf.buffer_size || ltb buf.buffer_size (buf.size + 4)
    then record buf {
      bytes = zero_fill (realloc buf.bytes (buf.size + 4)) buf.size 4;
      buffer_size = buf.size + 4;
    }
    else buf

-- `src` is the block of `size` bytes at `data`, `[]` when `data` is NULL or `size` is 0.
pub append_data : Membuf → List ℕ → Option Membuf
append_data buf [] = some buf
append_data buf (x ∷ src) = do
  room ← reserve buf (length (x ∷ src))
  some (record room {
    bytes = write_at room.bytes room.size (x ∷ src);
    size = room.size + length (x ∷ src);
  })

-- `data[size] = 0`, where `size` lies in the block.
end_mark : Membuf → Membuf
end_mark buf =
    if leb buf.size buf.buffer_size
    then record buf { bytes = write_at buf.bytes buf.size (0 ∷ []) }
    else buf

pub remove : Membuf → ℕ → ℕ → Membuf
unfolding end_mark
remove buf offset size =
    if leb buf.size offset
    then buf
    else if leb buf.size (size_add offset size)
    then end_mark (record buf { size = offset })
    else end_mark (record buf {
      bytes =
          write_at buf.bytes offset
            (take (buf.size - offset - size) (drop (offset + size) buf.bytes));
      size = buf.size - size;
    })
