-- ===== src/Membuf/Contents.antt =====
-- The data that a buffer holds: each operation is one on the list of its bytes.
use a_nother_ws.Prelude.{
  ℕ, zero, suc, ◌+◌, ◌-◌, ◌^◌, ◌≤◌, ◌<◌, ◌≡◌, refl, ◌∙◌, ap, sym, List, [], ◌∷◌, ◌++◌, true, some,
  inl, inr, arith, length, take, drop, replicate, append-nil, le_or_lt, lt→ltb, le→ltb,
}
use a_nother_ws.Prelude.Word.{size_sub, size_sub_lem, u32}
use a_nother_ws.Membuf.{
  Membuf, realloc, zero_fill, write_at, contents, clear, reserve, resize, append_data, is_null,
}
use a_nother_ws.Membuf.Valid.{
  IsValid, length-realloc, length-write_at, length-zero_fill, take-rewritten, take-write_at,
  take-realloc,
}
use a_nother_ws.Membuf.Growth.{first_size_reaches}

-- What a buffer is after room for `extra` bytes was made: the same data in a block that is large
-- enough.
pub record HasRoom (buf : Membuf) (extra : ℕ) (room : Membuf) : Type 0 where
  pub valid : IsValid room
  pub same : contents room ≡ contents buf
  pub same_size : room.size ≡ buf.size
  pub same_flag : room.flag ≡ buf.flag
  pub holds : buf.size + extra ≤ room.buffer_size

resize-HasRoom :
    (buf : Membuf) (extra n : ℕ)
    → IsValid buf
    → buf.size + extra ≤ n
    → n < 2 ^ 32
    → HasRoom buf extra (resize buf n)
unfolding resize
resize-HasRoom buf extra n v big word =
    let gap : size_sub n buf.size ≡ n - buf.size =
      size_sub_lem n buf.size (omega arith) (omega arith) in
    let filled : length (zero_fill (realloc buf.bytes n) buf.size (size_sub n buf.size)) ≡ n =
      length-zero_fill (realloc buf.bytes n) buf.size (size_sub n buf.size)
        (omega (arith, gap, length-realloc buf.bytes n))
      ∙ length-realloc buf.bytes n in
    record {
      valid = record { block = filled; fits = omega arith; word = word };
      same =
          take-rewritten buf.size buf.size (realloc buf.bytes n)
            (replicate (size_sub n buf.size) 0
              ++ drop (buf.size + size_sub n buf.size) (realloc buf.bytes n))
            (omega arith) (omega (arith, length-realloc buf.bytes n))
          ∙ take-realloc buf.size n buf.bytes (omega arith) (omega (arith, v.block, v.fits));
      same_size = refl;
      same_flag = refl;
      holds = big;
    }

-- Making room for `extra` bytes returns: the loop that doubles the size ends, the block has room
-- for them behind the data, and the data, its size and the flag stay, with the buffer valid. The
-- buffer is valid, and its size with `extra` is at most 2 ^ 31.
pub reserve-HasRoom :
    (buf : Membuf) (extra : ℕ)
    → IsValid buf
    → buf.size + extra ≤ 2 ^ 31
    → (room : Membuf) × (reserve buf extra ≡ some room) × HasRoom buf extra room
unfolding reserve
reserve-HasRoom buf extra v small = elim (le_or_lt (buf.size + extra) buf.buffer_size) [
  | inl enough ↦ (
    buf,
    rw (le→ltb (size_sub buf.buffer_size buf.size) extra (omega (arith, free))),
    record { valid = v; same = refl; same_size = refl; same_flag = refl; holds = enough },
  )
  | inr short ↦
      let (n, e, big, word) = first_size_reaches buf extra v.fits small short in
      let exact : u32 (buf.size + extra) ≡ buf.size + extra = omega arith in
      (
        resize buf n,
        rw (lt→ltb (size_sub buf.buffer_size buf.size) extra (omega (arith, free)), exact, e),
        resize-HasRoom buf extra n v big word,
      )
]
  where
    free : size_sub buf.buffer_size buf.size ≡ buf.buffer_size - buf.size
    free = size_sub_lem buf.buffer_size buf.size v.fits (omega (arith, v.word))

-- What a buffer is after `src` was appended.
pub record HasAppended (buf : Membuf) (src : List ℕ) (out : Membuf) : Type 0 where
  pub valid : IsValid out
  pub added : contents out ≡ contents buf ++ src
  pub new_size : out.size ≡ buf.size + length src
  pub same_flag : out.flag ≡ buf.flag

write-HasAppended :
    (buf room : Membuf) (src : List ℕ)
    → HasRoom buf (length src) room
    → HasAppended buf src
        (record room { bytes = write_at room.bytes room.size src; size = room.size + length src })
write-HasAppended buf room src r =
    let in_block : room.size + length src ≤ length room.bytes =
      omega (arith, r.valid.block, r.holds, r.same_size) in
    record {
      valid = record {
        block = length-write_at room.bytes room.size src in_block ∙ r.valid.block;
        fits = omega (arith, r.holds, r.same_size);
        word = r.valid.word;
      };
      added =
          take-write_at room.bytes room.size src (omega (arith, in_block))
          ∙ ap (λ l. l ++ src) r.same;
      new_size = omega (arith, r.same_size);
      same_flag = r.same_flag;
    }

-- Appending to a valid buffer ends, and adds the bytes behind the data, byte for byte, keeping
-- the flag and the buffer valid. The total size is at most 2 ^ 31.
pub append_data-HasAppended :
    (buf : Membuf) (src : List ℕ)
    → IsValid buf
    → buf.size + length src ≤ 2 ^ 31
    → (out : Membuf) × (append_data buf src ≡ some out) × HasAppended buf src out
unfolding append_data
append_data-HasAppended buf [] v small = (
  buf,
  refl,
  record {
    valid = v;
    added = sym (append-nil (contents buf));
    new_size = omega arith;
    same_flag = refl;
  },
)
append_data-HasAppended buf (x ∷ src) v small =
    let (room, e, r) = reserve-HasRoom buf (length (x ∷ src)) v small in
    (
      record room {
        bytes = write_at room.bytes room.size (x ∷ src);
        size = room.size + length (x ∷ src);
      },
      rw e,
      write-HasAppended buf room (x ∷ src) r,
    )

take-null : (n : ℕ) (bytes : List ℕ) → is_null bytes ≡ true → take n bytes ≡ []
unfolding is_null
take-null zero [] e = refl
take-null (suc n) [] e = refl
take-null n (x ∷ bytes) e = cc

-- Clearing a valid buffer leaves no data, and keeps the flag.
pub clear_empties :
    (buf : Membuf) (max_size : ℕ)
    → IsValid buf
    → (contents (clear buf max_size) ≡ []) × ((clear buf max_size).flag ≡ buf.flag)
unfolding clear
clear_empties buf max_size v = ground (arith, take-null buf.size buf.bytes)
