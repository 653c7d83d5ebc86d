-- ===== src/Membuf/Valid.antt =====
-- The well-formedness of a buffer, and the block operations on its bytes.
use a_nother_ws.Prelude.{
  ℕ, ◌+◌, ◌-◌, ◌^◌, ◌≤◌, ◌<◌, ◌≡◌, refl, ◌∙◌, ap, List, ◌++◌, arith, length, take, drop, replicate,
  length-append, length-take, length-drop, length-replicate, take-append_le, take-append_ge,
  take-all, take-take, Bool, true, false, ◌||◌, ltb, if◌then◌else◌,
}
use a_nother_ws.Membuf.{Membuf, realloc, zero_fill, write_at, contents, init, uninit, clear, trunc}

-- The block has the size that the struct says, and the data fits it.
pub record IsValid (buf : Membuf) : Type 0 where
  pub block : length buf.bytes ≡ buf.buffer_size
  pub fits : buf.size ≤ buf.buffer_size
  pub word : buf.buffer_size < 2 ^ 32

pub length-contents : (buf : Membuf) → IsValid buf → length (contents buf) ≡ buf.size
length-contents buf v = omega (arith, length-take buf.size buf.bytes, v.block, v.fits)

pub length-realloc : (bytes : List ℕ) (n : ℕ) → length (realloc bytes n) ≡ n
length-realloc bytes n = omega (
  arith,
  length-append (take n bytes) (replicate (n - length bytes) 0),
  length-take n bytes,
  length-replicate {A = ℕ} (n - length bytes) 0,
)

pub length-write_at :
    (bytes : List ℕ) (offset : ℕ) (src : List ℕ)
    → offset + length src ≤ length bytes
    → length (write_at bytes offset src) ≡ length bytes
length-write_at bytes offset src h = omega (
  arith,
  length-append (take offset bytes) (src ++ drop (offset + length src) bytes),
  length-append src (drop (offset + length src) bytes),
  length-take offset bytes,
  length-drop (offset + length src) bytes,
)

pub length-zero_fill :
    (bytes : List ℕ) (offset n : ℕ)
    → offset + n ≤ length bytes
    → length (zero_fill bytes offset n) ≡ length bytes
length-zero_fill bytes offset n h = omega (
  arith,
  length-append (take offset bytes) (replicate n 0 ++ drop (offset + n) bytes),
  length-append (replicate n 0) (drop (offset + n) bytes),
  length-take offset bytes,
  length-replicate {A = ℕ} n 0,
  length-drop (offset + n) bytes,
)

-- A write at `offset` leaves what stands before it.
pub take-rewritten :
    (n offset : ℕ) (bytes rest : List ℕ)
    → n ≤ offset
    → offset ≤ length bytes
    → take n (take offset bytes ++ rest) ≡ take n bytes
take-rewritten n offset bytes rest h k =
    take-append_le n (take offset bytes) rest (omega (arith, length-take offset bytes))
    ∙ take-take n offset bytes h

-- The first places after a write at `offset`: what stood before, and the written bytes.
pub take-write_at :
    (bytes : List ℕ) (offset : ℕ) (src : List ℕ)
    → offset ≤ length bytes
    → take (offset + length src) (write_at bytes offset src) ≡ take offset bytes ++ src
take-write_at bytes offset src h =
    let kept : length (take offset bytes) ≡ offset = omega (arith, length-take offset bytes) in
    let left : offset + length src - length (take offset bytes) ≡ length src =
      omega (arith, kept) in
    take-append_ge (offset + length src) (take offset bytes)
      (src ++ drop (offset + length src) bytes) (omega (arith, kept))
    ∙ ap (λ k. take offset bytes ++ take k (src ++ drop (offset + length src) bytes)) left
    ∙ ap (λ l. take offset bytes ++ l)
        (take-append_le (length src) src (drop (offset + length src) bytes) (omega arith)
          ∙ take-all (length src) src (omega arith))

pub take-realloc :
    (n m : ℕ) (bytes : List ℕ) → n ≤ m → n ≤ length bytes → take n (realloc bytes m) ≡ take n bytes
take-realloc n m bytes h k =
    take-append_le n (take m bytes) (replicate (m - length bytes) 0)
      (omega (arith, length-take m bytes))
    ∙ take-take n m bytes h

pub init-IsValid : (n : ℕ) → n < 2 ^ 32 → IsValid (init n)
unfolding init
init-IsValid n h = record { block = length-replicate n 0; fits = omega arith; word = h }

pub uninit-IsValid : (buf : Membuf) → IsValid (uninit buf)
unfolding uninit
uninit-IsValid buf = record { block = refl; fits = omega arith; word = omega arith }

pub clear-IsValid : (buf : Membuf) (max_size : ℕ) → IsValid buf → IsValid (clear buf max_size)
unfolding clear
clear-IsValid buf max_size v = ground (
  arith,
  length-realloc buf.bytes max_size,
  length-zero_fill (realloc buf.bytes max_size) 0 max_size,
  length-zero_fill buf.bytes 0 buf.buffer_size,
)

pub trunc-IsValid : (buf : Membuf) → IsValid buf → buf.size + 4 < 2 ^ 32 → IsValid (trunc buf)
unfolding trunc
trunc-IsValid buf v h = ground (
  arith,
  length-realloc buf.bytes (buf.size + 4),
  length-zero_fill (realloc buf.bytes (buf.size + 4)) buf.size 4,
)

-- Cutting the block keeps the data.
pub contents-trunc : (buf : Membuf) → IsValid buf → contents (trunc buf) ≡ contents buf
unfolding trunc
contents-trunc buf v = go (ltb (buf.size + 4) buf.buffer_size || ltb buf.buffer_size (buf.size + 4))
  where
    block : List ℕ
    block = realloc buf.bytes (buf.size + 4)

    go :
        (b : Bool)
        → contents (
            if b
            then record buf { bytes = zero_fill block buf.size 4; buffer_size = buf.size + 4 }
            else buf)
          ≡ contents buf
    go true =
        take-rewritten buf.size buf.size block (replicate 4 0 ++ drop (buf.size + 4) block)
          (omega arith) (omega (arith, length-realloc buf.bytes (buf.size + 4)))
        ∙ take-realloc buf.size (buf.size + 4) buf.bytes (omega arith)
            (omega (arith, v.block, v.fits))
    go false = refl
