-- ===== src/Tests/Urls.antt =====
-- src/ws/encode.cpp on the text `a b`.
use a_nother_ws.Prelude.{
  ℕ, ◌+◌, ◌*◌, ◌<◌, ◌≡◌, refl, List, [], ◌∷◌, Option, some, none, arith, get_or, if◌then◌else◌, ltb,
  ◌-◌, Bool, true, ◌==◌, ==_iff, ap₂,
}
use a_nother_ws.Membuf.{Membuf, contents}
use a_nother_ws.Base64.Reading.{all_below, all_below-lem}
use a_nother_ws.Url.{url_encode, url_decode, hex}
use a_nother_ws.Url.Roundtrip.{ScansHex, url_roundtrip}

digit : ℕ → ℕ
digit c = if ltb c 58 then c - 48 else c - 55

scan_two : List ℕ → Option ℕ
unfolding digit
scan_two (a ∷ b ∷ rest) = some (digit a * 16 + digit b)
scan_two other = none

reads_digit : ℕ → Bool
unfolding digit
reads_digit i = digit (get_or hex i 0) == i

digits_read : all_below 16 reads_digit ≡ true
unfolding all_below reads_digit digit
digits_read = refl

digit-hex : (i : ℕ) → i < 16 → digit (get_or hex i 0) ≡ i
unfolding reads_digit
digit-hex i h = (==_iff (digit (get_or hex i 0)) i).0 (all_below-lem 16 reads_digit i digits_read h)

scan_two-ScansHex : ScansHex scan_two
unfolding scan_two ScansHex
scan_two-ScansHex i j rest h k = ap₂ (λ a b. some (a * 16 + b)) (digit-hex i h) (digit-hex j k)

url_roundtrip_example :
    (out : Membuf) × (url_encode (97 ∷ 32 ∷ 98 ∷ []) 7 ≡ some out)
    × (url_decode scan_two (contents out) ≡ 97 ∷ 32 ∷ 98 ∷ [])
url_roundtrip_example =
    url_roundtrip scan_two (97 ∷ 32 ∷ 98 ∷ []) 7 scan_two-ScansHex
      (omega arith, (omega arith, (omega arith, tt))) (omega arith) (omega arith)
