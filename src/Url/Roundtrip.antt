-- ===== src/Url/Roundtrip.antt =====
-- What `url_encode` of src/ws/encode.cpp writes is decoded to the text.
use Prim.Native.Nat.{bit_and}
use a_nother_ws.Prelude.{
  ℕ, suc, ◌+◌, ◌*◌, ◌/◌, ◌%◌, ◌^◌, ◌≤◌, ◌<◌, ◌≡◌, refl, sym, ap, ◌∙◌, List, [], ◌∷◌, ◌++◌, Option,
  some, true, false, ◌==◌, ==_iff, length, get_or, append-nil, append_assoc, Bool-cases, inl, inr,
  lt→leb, le→ltb, arith,
}
use a_nother_ws.Prelude.Word.{u8, u32, ◌>>>◌}
use a_nother_ws.Prelude.Bits.{bit_and_low4}
use a_nother_ws.Membuf.{Membuf, contents, init, trunc}
use a_nother_ws.Membuf.Valid.{IsValid, init-IsValid, contents-trunc}
use a_nother_ws.Membuf.Contents.{append_data-HasAppended}
use a_nother_ws.Url.{is_unsafe, hex, escaped, url_piece, encode_from, url_encode, url_decode}

-- `sscanf` with `%2x` on two digits that the encoder writes.
unfoldable pub ScansHex : (List ℕ → Option ℕ) → Type 0
ScansHex scan =
    (i j : ℕ) (rest : List ℕ)
    → i < 16
    → j < 16
    → scan (get_or hex i 0 ∷ get_or hex j 0 ∷ rest) ≡ some (i * 16 + j)

abbrev pub IsAscii : List ℕ → Type 0
IsAscii [] = Unit {0}
IsAscii (c ∷ cs) = (c < 128) × IsAscii cs

-- The text that is written.
pieces : List ℕ → List ℕ
pieces [] = []
pieces (c ∷ cs) = url_piece c ++ pieces cs

is_percent : (c : ℕ) → is_unsafe c ≡ false → (c == 37) ≡ false
unfolding is_unsafe
is_percent c e = elim (Bool-cases (c == 37)) [
  | inl same ↦ absurd (clash (sym (ap is_unsafe ((==_iff c 37).0 same)) ∙ e))
  | inr other ↦ other
]
  where
    clash : true ≡ false → ⊥
    clash e = cc

decode_safe :
    (scan : List ℕ → Option ℕ) (c : ℕ) (rest : List ℕ)
    → (c == 37) ≡ false
    → url_decode scan (c ∷ rest) ≡ c ∷ url_decode scan rest
unfolding url_decode
decode_safe scan c [] e = refl
decode_safe scan c (d ∷ []) e = refl
decode_safe scan c (d ∷ e' ∷ rest) e = rw (url_decode, e) refl

decode_escaped :
    (scan : List ℕ → Option ℕ) (c : ℕ) (rest : List ℕ)
    → ScansHex scan
    → c < 128
    → url_decode scan (escaped c ++ rest) ≡ c ∷ url_decode scan rest
unfolding url_decode escaped ScansHex
decode_escaped scan c rest s h =
    let low : bit_and c 0x0f ≡ c % 16 = bit_and_low4 c in
    let scanned : scan (get_or hex (c >>> 4) 0 ∷ get_or hex (bit_and c 0x0f) 0 ∷ rest)
        ≡ some (c / 16 * 16 + c % 16) =
      ap (λ k. scan (get_or hex (c / 16) 0 ∷ get_or hex k 0 ∷ rest)) low
      ∙ s (c / 16) (c % 16) rest (omega arith) (omega arith) in
    let whole : u8 (c / 16 * 16 + c % 16) ≡ c = omega arith in
    rw (url_decode, scanned) (ap (λ k. k ∷ url_decode scan rest) whole)

decode_none : (scan : List ℕ → Option ℕ) → url_decode scan [] ≡ []
unfolding url_decode
decode_none scan = refl

decode_pieces :
    (scan : List ℕ → Option ℕ) (url : List ℕ)
    → ScansHex scan
    → IsAscii url
    → url_decode scan (pieces url) ≡ url
unfolding pieces
decode_pieces scan [] s all = decode_none scan
decode_pieces scan (c ∷ url) s (h, all) = elim (Bool-cases (is_unsafe c)) [
  | inl unsafe ↦
      rw unsafe
        (decode_escaped scan c (pieces url) s h ∙ ap (λ l. c ∷ l) (decode_pieces scan url s all))
  | inr safe ↦ rw safe (
      decode_safe scan c (pieces url) (is_percent c safe)
      ∙ ap (λ l. c ∷ l) (decode_pieces scan url s all))
]

length-url_piece : (c : ℕ) → length (url_piece c) ≤ 3
unfolding escaped
length-url_piece c = elim (Bool-cases (is_unsafe c)) [
  | inl unsafe ↦ rw unsafe (omega arith)
  | inr safe ↦ rw safe (omega arith)
]

encodes :
    (url : List ℕ) (limit at : ℕ) (buf : Membuf)
    → IsAscii url
    → IsValid buf
    → at + length url ≤ limit + 1
    → buf.size + 3 * length url ≤ 2 ^ 31
    → (out : Membuf) × (encode_from limit at buf url ≡ some out)
      × IsValid out
      × (contents out ≡ contents buf ++ pieces url)
      × (out.size ≤ buf.size + 3 * length url)
unfolding encode_from pieces
encodes [] limit at buf all v within small =
    (buf, refl, v, sym (append-nil (contents buf)), omega arith)
encodes (c ∷ url) limit at buf (h, all) v within small =
    let short = length-url_piece c in
    let (next, e, a) = append_data-HasAppended buf (url_piece c) v (omega (arith, short)) in
    let (out, e', w, added, size) =
      encodes url limit (suc at) next all a.valid (omega arith)
        (omega (arith, short, a.new_size)) in
    (
      out,
      rw (le→ltb limit at (omega arith), lt→leb 128 c h, e) e',
      w,
      added
          ∙ ap (λ l. l ++ pieces url) a.added
          ∙ append_assoc (contents buf) (url_piece c) (pieces url),
      omega (arith, size, short, a.new_size),
    )

-- A text of ASCII characters is encoded to a text that decodes to it. The limit, the number that
-- stands before the caller's length, reaches the last character, `sscanf` reads two hexadecimal
-- digits as their number, and three times the text is at most 2 ^ 31.
pub url_roundtrip :
    (scan : List ℕ → Option ℕ) (url : List ℕ) (limit : ℕ)
    → ScansHex scan
    → IsAscii url
    → length url ≤ limit + 1
    → 3 * length url + 1 ≤ 2 ^ 31
    → (out : Membuf) × (url_encode url limit ≡ some out) × (url_decode scan (contents out) ≡ url)
unfolding url_encode init
url_roundtrip scan url limit s all within small =
    let size = u32 (length url + 1) in
    let (out, e, v, added, bound) =
      encodes url limit 0 (init size) all (init-IsValid size (omega arith)) (omega arith)
        (omega arith) in
    (
      trunc out,
      rw e refl,
      ap (url_decode scan) (contents-trunc out v ∙ added) ∙ decode_pieces scan url s all,
    )
