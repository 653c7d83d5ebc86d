-- ===== src/Url.antt =====
-- src/ws/encode.cpp: `url_encode` and `url_decode`. `none` is a byte that is no ASCII, for which the
-- code reads before its table, and a buffer that cannot grow.
pub mod Roundtrip
use Prim.Native.Nat.{bit_and}
use a_nother_ws.Prelude.{
  ℕ, zero, suc, ◌+◌, List, [], ◌∷◌, ◌++◌, Option, none, some, Bool, true, false, ◌||◌, ltb, leb,
  ◌==◌, if◌then◌else◌, length, get_or, ◌>>=◌,
}
use a_nother_ws.Prelude.Text.{codes}
use a_nother_ws.Prelude.Word.{u8, u32, ◌>>>◌}
use a_nother_ws.Membuf.{Membuf}
use a_nother_ws.Membuf

abbrev pub url_unsafe : List ℕ
url_unsafe =
    13 ∷ 10 ∷ 32 ∷ 34 ∷ 35 ∷ 37 ∷ 38 ∷ 43 ∷ 58 ∷ 59 ∷ 60 ∷ 61 ∷ 62 ∷ 63 ∷ 64 ∷ 91 ∷ 92 ∷ 93 ∷ 94
    ∷ 96 ∷ 123 ∷ 124 ∷ 125 ∷ []

abbrev pub hex : List ℕ
hex = codes "0123456789ABCDEF"

-- `strchr` as a test.
abbrev pub has_char : List ℕ → ℕ → Bool
has_char [] c = false
has_char (x ∷ xs) c = (x == c) || has_char xs c

unfoldable pub is_unsafe : ℕ → Bool
is_unsafe c = ltb c 32 || (ltb 126 c || has_char url_unsafe c)

-- `enc`
unfoldable pub escaped : ℕ → List ℕ
escaped c = 37 ∷ get_or hex (c >>> 4) 0 ∷ get_or hex (bit_and c 0x0f) 0 ∷ []

-- What is appended for one character.
abbrev pub url_piece : ℕ → List ℕ
url_piece c = if is_unsafe c then escaped c else c ∷ []

-- The loop from the place `at` on; `limit` is what `len` points to after `len--`, which is not what
-- the caller set.
unfoldable pub encode_from : ℕ → ℕ → Membuf → List ℕ → Option Membuf
encode_from limit at buf [] = some buf
encode_from limit at buf (c ∷ url) =
    let more = (do
      next ← Membuf.append_data buf (url_piece c)
      encode_from limit (suc at) next url) in
    if ltb limit at then some buf else if leb 128 c then none else more

unfoldable pub url_encode : List ℕ → ℕ → Option Membuf
url_encode url limit = do
  buf ← encode_from limit 0 (Membuf.init (u32 (length url + 1))) url
  some (Membuf.trunc buf)

-- `sscanf` with `%2x` is `scan`.
unfoldable pub url_decode : (List ℕ → Option ℕ) → List ℕ → List ℕ
url_decode scan [] = []
url_decode scan (c ∷ []) = c ∷ []
url_decode scan (c ∷ d ∷ []) = c ∷ url_decode scan (d ∷ [])
url_decode scan (c ∷ d ∷ e ∷ url) = elim (c == 37) [
  | true ↦ elim (scan (d ∷ e ∷ url)) [
    | some tmp ↦ u8 tmp ∷ url_decode scan url
    | none ↦ c ∷ url_decode scan (d ∷ e ∷ url)
  ]
  | false ↦ c ∷ url_decode scan (d ∷ e ∷ url)
]
