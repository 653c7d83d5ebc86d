-- ===== src/Base64/Printed.antt =====
-- The text that `base64_encode` leaves is a C string.
use a_nother_ws.Prelude.{
  ℕ, ◌+◌, ◌*◌, ◌/◌, ◌%◌, ◌^◌, ◌≤◌, ◌<◌, ◌≡◌, refl, ◌∙◌, ap, sym, subst, List, [], ◌∷◌, some,
  some_returns, arith, length, ◌==◌, false,
}
use a_nother_ws.Prelude.Text.{IsText, append-IsText, c_string}
use a_nother_ws.Prelude.Word.{u32}
use a_nother_ws.Membuf.{Membuf, contents, init, append_data}
use a_nother_ws.Membuf.Valid.{IsValid, length-contents, init-IsValid}
use a_nother_ws.Membuf.Contents.{append_data-HasAppended}
use a_nother_ws.Membuf.Zeros.{
  HasZeroTail, append_data-HasZeroTail, init-HasZeroTail, c_string-HasZeroTail,
}
use a_nother_ws.Base64.{
  base64_end, first_sextet, second_sextet, third_sextet, fourth_sextet, char_at, append_each,
  encode_groups, base64_encode,
}
use a_nother_ws.Base64.Sextets.{
  first_sextet_lem, second_sextet_lem, third_sextet_lem, fourth_sextet_lem,
}
use a_nother_ws.Base64.Reading.{IsBytes, char_at_text, read_base64, base64_encode_reads_back}

-- A buffer whose data is a C string, ended by the block behind it.
record IsPrinted (buf : Membuf) : Type 0 where
  valid : IsValid buf
  zeros : HasZeroTail buf
  text : IsText (contents buf)

append_one :
    (c : ℕ) (buf : Membuf)
    → (c == 0) ≡ false
    → IsPrinted buf
    → buf.size + 1 ≤ 2 ^ 31
    → (out : Membuf) × (append_data buf (c ∷ []) ≡ some out)
      × IsPrinted out
      × (out.size ≡ buf.size + 1)
append_one c buf e p small =
    let (out, r, a) = append_data-HasAppended buf (c ∷ []) p.valid small in
    let (same, r', z) = append_data-HasZeroTail buf (c ∷ []) p.valid small p.zeros in
    let agree : same ≡ out = some_returns same out (sym r' ∙ r) in
    (
      out,
      r,
      record {
        valid = a.valid;
        zeros = subst HasZeroTail agree z;
        text =
            subst IsText (sym a.added)
              (append-IsText (contents buf) (c ∷ []) p.text (IsText.next e IsText.end));
      },
      a.new_size,
    )

append_each-IsPrinted :
    (cs : List ℕ) (buf : Membuf)
    → IsText cs
    → IsPrinted buf
    → buf.size + length cs ≤ 2 ^ 31
    → (out : Membuf) × (append_each buf cs ≡ some out)
      × IsPrinted out
      × (out.size ≡ buf.size + length cs)
unfolding append_each
append_each-IsPrinted _ buf IsText.end p small = (buf, refl, p, omega arith)
append_each-IsPrinted _ buf (IsText.next {x = c} {xs = cs} e t) p small =
    let (next, r, q, size) = append_one c buf e p (omega arith) in
    let (out, r', q', size') = append_each-IsPrinted cs next t q (omega (arith, size)) in
    (out, rw r r', q', omega (arith, size, size'))

first_text : (a : ℕ) → a < 256 → (char_at (first_sextet a) == 0) ≡ false
first_text a h = char_at_text (first_sextet a) (a / 4) (first_sextet_lem a h) (omega arith)

second_text : (a b : ℕ) → a < 256 → b < 256 → (char_at (second_sextet a b) == 0) ≡ false
second_text a b h k =
    char_at_text (second_sextet a b) (a % 4 * 16 + b / 16) (second_sextet_lem a b h k) (omega arith)

third_text : (b c : ℕ) → b < 256 → c < 256 → (char_at (third_sextet b c) == 0) ≡ false
third_text b c h k =
    char_at_text (third_sextet b c) (b % 16 * 4 + c / 64) (third_sextet_lem b c h k) (omega arith)

fourth_text : (c : ℕ) → (char_at (fourth_sextet c) == 0) ≡ false
fourth_text c = char_at_text (fourth_sextet c) (c % 64) (fourth_sextet_lem c) (omega arith)

four-IsText :
    (p q r s : ℕ)
    → (p == 0) ≡ false
    → (q == 0) ≡ false
    → (r == 0) ≡ false
    → (s == 0) ≡ false
    → IsText (p ∷ q ∷ r ∷ s ∷ [])
four-IsText p q r s h k l m =
    IsText.next h (IsText.next k (IsText.next l (IsText.next m IsText.end)))

encode_groups-IsPrinted :
    (bytes : List ℕ) (buf : Membuf)
    → IsBytes bytes
    → IsPrinted buf
    → buf.size + 2 * length bytes + 4 ≤ 2 ^ 31
    → (out : Membuf) × (encode_groups buf bytes ≡ some out)
      × IsPrinted out
      × (out.size ≤ buf.size + 2 * length bytes + 4)
unfolding encode_groups
encode_groups-IsPrinted [] buf all p small = (buf, refl, p, omega arith)
encode_groups-IsPrinted (a ∷ []) buf (ha, all) p small =
    let text =
      four-IsText (char_at (first_sextet a)) (char_at (second_sextet a 0)) base64_end base64_end
        (first_text a ha) (second_text a 0 ha (omega arith)) refl refl in
    let (out, r, q, size) =
      append_each-IsPrinted
        (char_at (first_sextet a) ∷ char_at (second_sextet a 0) ∷ base64_end ∷ base64_end ∷ []) buf
        text p (omega arith) in
    (out, r, q, omega (arith, size))
encode_groups-IsPrinted (a ∷ b ∷ []) buf (ha, (hb, all)) p small =
    let text =
      four-IsText (char_at (first_sextet a)) (char_at (second_sextet a b))
        (char_at (third_sextet b 0)) base64_end (first_text a ha) (second_text a b ha hb)
        (third_text b 0 hb (omega arith)) refl in
    let (out, r, q, size) =
      append_each-IsPrinted
        (char_at (first_sextet a)
          ∷ char_at (second_sextet a b)
          ∷ char_at (third_sextet b 0)
          ∷ base64_end
          ∷ [])
        buf text p (omega arith) in
    (out, r, q, omega (arith, size))
encode_groups-IsPrinted (a ∷ b ∷ c ∷ rest) buf (ha, (hb, (hc, all))) p small =
    let text =
      four-IsText (char_at (first_sextet a)) (char_at (second_sextet a b))
        (char_at (third_sextet b c)) (char_at (fourth_sextet c)) (first_text a ha)
        (second_text a b ha hb) (third_text b c hb hc) (fourth_text c) in
    let (next, r, q, size) =
      append_each-IsPrinted
        (char_at (first_sextet a)
          ∷ char_at (second_sextet a b)
          ∷ char_at (third_sextet b c)
          ∷ char_at (fourth_sextet c)
          ∷ [])
        buf text p (omega arith) in
    let (out, r', q', size') = encode_groups-IsPrinted rest next all q (omega (arith, size)) in
    (out, rw r r', q', omega (arith, size, size'))

-- The C string that the result is reads back as the bytes.
pub base64_encode_prints :
    (bytes : List ℕ)
    → IsBytes bytes
    → length bytes + 2 ≤ 2 ^ 30
    → (out : Membuf) × (base64_encode bytes ≡ some out)
      × (c_string out.bytes ≡ contents out)
      × (read_base64 (c_string out.bytes) ≡ bytes)
      × (length (c_string out.bytes) ≤ 2 * length bytes + 4)
unfolding base64_encode init
base64_encode_prints bytes all small =
    let size = u32 (length bytes * 3) in
    let start : IsPrinted (init size) = record {
      valid = init-IsValid size (omega arith);
      zeros = init-HasZeroTail size;
      text = IsText.end;
    } in
    let (out, r, p, size_lem) = encode_groups-IsPrinted bytes (init size) all start (omega arith) in
    let (same, r', reads) = base64_encode_reads_back bytes all small in
    let agree : same ≡ out = some_returns same out (sym r' ∙ r) in
    let prints = c_string-HasZeroTail out p.zeros p.text in
    (
      out,
      r,
      prints,
      ap read_base64 prints ∙ subst (λ b. read_base64 (contents b) ≡ bytes) agree reads,
      omega (arith, size_lem, ap length prints, length-contents out p.valid),
    )
