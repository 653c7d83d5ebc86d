-- ===== src/Base64.antt =====
-- src/ws/encode.cpp: `base64_encode`. `none` stands for a buffer that cannot grow.
pub mod Sextets
pub mod Reading
pub mod Printed
use Prim.Native.Nat.{bit_and}
use a_nother_ws.Prelude.{ℕ, ◌+◌, ◌*◌, List, [], ◌∷◌, Option, some, length, get_or, ◌>>=◌}
use a_nother_ws.Prelude.Word.{u8, u32, ◌<<<◌, ◌>>>◌}
use a_nother_ws.Membuf.{Membuf}
use a_nother_ws.Membuf

-- `A` to `Z`, `a` to `z`, `0` to `9`, `+` and `/`.
abbrev pub base64_table : List ℕ
base64_table =
    65 ∷ 66 ∷ 67 ∷ 68 ∷ 69 ∷ 70 ∷ 71 ∷ 72 ∷ 73 ∷ 74 ∷ 75 ∷ 76 ∷ 77 ∷ 78 ∷ 79 ∷ 80 ∷ 81 ∷ 82 ∷ 83
    ∷ 84 ∷ 85 ∷ 86 ∷ 87 ∷ 88 ∷ 89 ∷ 90 ∷ 97 ∷ 98 ∷ 99 ∷ 100 ∷ 101 ∷ 102 ∷ 103 ∷ 104 ∷ 105 ∷ 106
    ∷ 107 ∷ 108 ∷ 109 ∷ 110 ∷ 111 ∷ 112 ∷ 113 ∷ 114 ∷ 115 ∷ 116 ∷ 117 ∷ 118 ∷ 119 ∷ 120 ∷ 121 ∷ 122
    ∷ 48 ∷ 49 ∷ 50 ∷ 51 ∷ 52 ∷ 53 ∷ 54 ∷ 55 ∷ 56 ∷ 57 ∷ 43 ∷ 47 ∷ []

-- `=`
abbrev pub base64_end : ℕ
base64_end = 61

-- `char_array_4` from the three bytes of `char_array_3`.
pub first_sextet : ℕ → ℕ
first_sextet a = u8 (bit_and a 0xfc >>> 2)

pub second_sextet : ℕ → ℕ → ℕ
second_sextet a b = u8 ((bit_and a 0x03 <<< 4) + (bit_and b 0xf0 >>> 4))

pub third_sextet : ℕ → ℕ → ℕ
third_sextet b c = u8 ((bit_and b 0x0f <<< 2) + (bit_and c 0xc0 >>> 6))

pub fourth_sextet : ℕ → ℕ
fourth_sextet c = u8 (bit_and c 0x3f)

abbrev pub char_at : ℕ → ℕ
char_at sextet = get_or base64_table sextet 0

-- One call of `membuf_append_data` for each character.
pub append_each : Membuf → List ℕ → Option Membuf
append_each buf [] = some buf
append_each buf (c ∷ cs) = do next ← Membuf.append_data buf (c ∷ []); append_each next cs

-- The loop over the bytes, three at a time, and what follows it for the one or two that are left.
unfoldable pub encode_groups : Membuf → List ℕ → Option Membuf
encode_groups buf [] = some buf
encode_groups buf (a ∷ []) =
    append_each buf
      (char_at (first_sextet a) ∷ char_at (second_sextet a 0) ∷ base64_end ∷ base64_end ∷ [])
encode_groups buf (a ∷ b ∷ []) = append_each buf (
    char_at (first_sextet a)
    ∷ char_at (second_sextet a b)
    ∷ char_at (third_sextet b 0)
    ∷ base64_end
    ∷ [])
encode_groups buf (a ∷ b ∷ c ∷ rest) = do
  next ← append_each buf (
      char_at (first_sextet a)
      ∷ char_at (second_sextet a b)
      ∷ char_at (third_sextet b c)
      ∷ char_at (fourth_sextet c)
      ∷ [])
  encode_groups next rest

-- The buffer whose bytes are the result.
unfoldable pub base64_encode : List ℕ → Option Membuf
base64_encode bytes = encode_groups (Membuf.init (u32 (length bytes * 3))) bytes
