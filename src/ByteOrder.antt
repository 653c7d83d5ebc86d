-- ===== src/ByteOrder.antt =====
-- src/ws/common.cpp: the length fields of a frame in network byte order. The host is
-- little-endian, as the library's targets are: `htons` and `htonl` swap the bytes, and the bytes of
-- a word in memory are its digits to the base 256, lowest first.
use a_nother_ws.Prelude.{
  ℕ, ◌+◌, ◌*◌, ◌/◌, ◌%◌, ◌^◌, ◌<◌, ◌≡◌, refl, arith, List, [], ◌∷◌, get_or, length,
}
use a_nother_ws.Prelude.Word.{u8, u16, u32}

-- `htons`, and `ntohs` too.
swap_two : ℕ → ℕ
swap_two v = v % 256 * 256 + v / 256 % 256

-- `htonl`, and `ntohl` too.
swap_four : ℕ → ℕ
swap_four v =
    v % 256 * 2 ^ 24 + v / 256 % 256 * 2 ^ 16 + v / 2 ^ 16 % 256 * 2 ^ 8 + v / 2 ^ 24 % 256

-- The bytes written to `output`. The argument is cast to `uint16_t`.
pub write_two_byte_length : ℕ → List ℕ
unfolding swap_two
write_two_byte_length length_value =
    let value = swap_two (u16 length_value) in u8 value ∷ u8 (value / 2 ^ 8) ∷ []

-- The argument is cast to `uint32_t`.
pub write_four_byte_length : ℕ → List ℕ
unfolding swap_four
write_four_byte_length length_value =
    let value = swap_four (u32 length_value) in
    u8 value ∷ u8 (value / 2 ^ 8) ∷ u8 (value / 2 ^ 16) ∷ u8 (value / 2 ^ 24) ∷ []

-- The first two bytes of `input`, read as a `uint16_t`.
pub read_two_byte_length : List ℕ → ℕ
unfolding swap_two
read_two_byte_length input = swap_two (get_or input 0 0 + get_or input 1 0 * 2 ^ 8)

-- The first four bytes of `input`, read as a `uint32_t`.
pub read_four_byte_length : List ℕ → ℕ
unfolding swap_four
read_four_byte_length input = swap_four (
    get_or input 0 0
    + get_or input 1 0 * 2 ^ 8
    + get_or input 2 0 * 2 ^ 16
    + get_or input 3 0 * 2 ^ 24)

-- The bytes of a two-byte length field are its high byte and its low byte, in that order, and
-- reading them gives the length back. The length is below 2 ^ 16.
pub two_byte_length_roundtrip :
    (n : ℕ)
    → n < 2 ^ 16
    → (write_two_byte_length n ≡ n / 256 ∷ n % 256 ∷ [])
      × (read_two_byte_length (write_two_byte_length n) ≡ n)
unfolding write_two_byte_length read_two_byte_length
two_byte_length_roundtrip n h = (ground arith, omega arith)

-- The bytes of a four-byte length field are its bytes from the highest to the lowest, and reading
-- them gives the length back. The length is below 2 ^ 32.
pub four_byte_length_roundtrip :
    (n : ℕ)
    → n < 2 ^ 32
    → (write_four_byte_length n ≡ n / 2 ^ 24 ∷ n / 2 ^ 16 % 256 ∷ n / 2 ^ 8 % 256 ∷ n % 256 ∷ [])
      × (read_four_byte_length (write_four_byte_length n) ≡ n)
unfolding write_four_byte_length read_four_byte_length
four_byte_length_roundtrip n h = (ground arith, omega arith)

-- What is read is a machine word, whatever the bytes.
pub read_two_byte_length-lt : (input : List ℕ) → read_two_byte_length input < 2 ^ 16
unfolding read_two_byte_length
read_two_byte_length-lt input = omega arith

pub read_four_byte_length-lt : (input : List ℕ) → read_four_byte_length input < 2 ^ 32
unfolding read_four_byte_length
read_four_byte_length-lt input = omega arith

pub length-write_two_byte_length : (n : ℕ) → length (write_two_byte_length n) ≡ 2
unfolding write_two_byte_length
length-write_two_byte_length n = refl

pub length-write_four_byte_length : (n : ℕ) → length (write_four_byte_length n) ≡ 4
unfolding write_four_byte_length
length-write_four_byte_length n = refl
