-- ===== src/Frame/Generator/Roundtrip.antt =====
-- What a parser finds in a generated frame.
use a_nother_ws.Prelude.{
  ℕ, zero, suc, ◌+◌, ◌*◌, ◌/◌, ◌%◌, ◌^◌, ◌≤◌, ◌<◌, ◌≡◌, ◌∙◌, ap, ap₂, sym, List, [], ◌∷◌, ◌++◌,
  some, inl, inr, true, false, arith, ltb, ◌==◌, le→ltb, if◌then◌else◌, length, take, length-append,
  take-all, take-append_le, le_or_lt,
}
use a_nother_ws.ByteOrder.{
  write_two_byte_length, write_four_byte_length, read_two_byte_length, read_four_byte_length,
  length-write_two_byte_length, length-write_four_byte_length, two_byte_length_roundtrip,
  four_byte_length_roundtrip,
}
use a_nother_ws.Frame.Mask.{do_mask, do_mask_twice, length-do_mask}
use a_nother_ws.Frame.Decode.{
  framed, mask_bit, short_length, decode_payload, decode_masked, decode_key, decode_mask,
  decode_two, decode_low, decode_four, decode_length, decode,
}
use a_nother_ws.Frame.Generator.{
  mask_key, header_of, header_for, first_header_byte, second_header_byte,
}
use a_nother_ws.Frame.Generator.Bytes.{
  first_header_byte_lem, second_header_byte_lem, body_of, header_for_short, header_for_two,
  header_for_four,
}

-- The key and the body, behind a header of `k` bytes, with more bytes behind them.
decode_mask-body :
    (b0 b1 k m : ℕ) (payload rest : List ℕ)
    → m < 2
    → mask_bit b1 ≡ m
    → decode_mask b0 b1 k
        (length payload)
        ((if m == 0 then [] else mask_key) ++ (body_of m payload ++ rest))
      ≡ framed b0 b1 (k + length (if m == 0 then [] else mask_key)) payload
unfolding decode_mask decode_payload decode_key decode_masked
decode_mask-body b0 b1 k zero payload rest h e =
    let bit : (mask_bit b1 == 0) ≡ true = ap (λ t. t == 0) e in
    let enough : ltb (length (payload ++ rest)) (length payload) ≡ false =
      le→ltb (length (payload ++ rest)) (length payload)
        (omega (arith, length-append payload rest)) in
    let got : take (length payload) (payload ++ rest) ≡ payload =
      take-append_le (length payload) payload rest (omega arith)
      ∙ take-all (length payload) payload (omega arith) in
    let same : k ≡ k + 0 = omega arith in rw (bit, enough) (ap₂ (framed b0 b1) same got)
decode_mask-body b0 b1 k (suc zero) payload rest h e =
    let bit : (mask_bit b1 == 0) ≡ false = ap (λ t. t == 0) e in
    let body = do_mask payload mask_key in
    let len : length body ≡ length payload = length-do_mask payload mask_key in
    let enough : ltb (length (body ++ rest)) (length payload) ≡ false =
      le→ltb (length (body ++ rest)) (length payload)
        (omega (arith, length-append body rest, len)) in
    let got : take (length payload) (body ++ rest) ≡ body =
      take-append_le (length payload) body rest (omega (arith, len))
      ∙ take-all (length payload) body (omega (arith, len)) in
    rw (bit, enough)
      (ap (λ l. framed b0 b1 (k + 4) (do_mask l mask_key)) got
        ∙ ap (framed b0 b1 (k + 4)) (do_mask_twice payload mask_key))
decode_mask-body b0 b1 k (suc (suc m)) payload rest h e = absurd (omega arith)

length-key : (m : ℕ) → length (if m == 0 then [] else mask_key) ≤ 4
length-key m = ground arith

-- A header is read as the frame it was made for.
pub record IsHeader (fin op m : ℕ) (payload header : List ℕ) : Type 0 where
  pub second : ℕ
  pub made : header_for fin op m (length payload) ≡ some header
  pub masked : mask_bit second ≡ m
  pub read :
      (rest : List ℕ)
      → decode (header ++ (body_of m payload ++ rest))
        ≡ framed (fin * 128 + op) second (length header) payload

module _ (fin op m : ℕ) (payload : List ℕ) (fin_small : fin < 2) (op_small : op < 16)
    (m_small : m < 2) where
  first_byte : first_header_byte fin op ≡ fin * 128 + op
  first_byte = omega (arith, first_header_byte_lem fin op)

  second_byte : (n : ℕ) → n < 128 → second_header_byte m n ≡ m * 128 + n
  second_byte n h = omega (arith, second_header_byte_lem m n)

  short_IsHeader :
      0 < length payload
      → length payload ≤ 125
      → IsHeader fin op m payload (header_of fin op m (length payload) [])
  unfolding header_of decode decode_length
  short_IsHeader some_data few =
      let n = length payload in
      let b1 = m * 128 + n in
      let bit : mask_bit b1 ≡ m = omega arith in
      let short : short_length b1 ≡ n = omega arith in
      let not_zero : (n == 0) ≡ false = ground arith in
      let below : ltb n 126 ≡ true = ground arith in
      record {
        second = b1;
        made = header_for_short fin op m n few;
        masked = bit;
        read = λ rest.
            rw (first_byte, second_byte n (omega arith), short, not_zero, below)
              (decode_mask-body (fin * 128 + op) b1 2 m payload rest m_small bit
                ∙ ap (λ l. framed (fin * 128 + op) b1 l payload) (omega arith));
      }

  two_IsHeader :
      125 < length payload
      → length payload ≤ 65535
      → IsHeader fin op m payload (header_of fin op m 126 (write_two_byte_length (length payload)))
  unfolding header_of decode decode_length decode_two
  two_IsHeader many few =
      let n = length payload in
      let b1 = m * 128 + 126 in
      let bit : mask_bit b1 ≡ m = omega arith in
      let short : short_length b1 ≡ 126 = omega arith in
      let (bytes, back) = two_byte_length_roundtrip n (omega arith) in
      let back' : read_two_byte_length (n / 256 ∷ n % 256 ∷ []) ≡ n =
        ap read_two_byte_length (sym bytes) ∙ back in
      record {
        second = b1;
        made = header_for_two fin op m n many few;
        masked = bit;
        read = λ rest.
            rw (first_byte, second_byte 126 (omega arith), bytes, short, back')
              (decode_mask-body (fin * 128 + op) b1 4 m payload rest m_small bit
                ∙ ap (λ l. framed (fin * 128 + op) b1 l payload) (omega arith));
      }

  four_IsHeader :
      65535 < length payload
      → length payload < 2 ^ 32
      → IsHeader fin op m payload
          (header_of fin op m 127 (0 ∷ 0 ∷ 0 ∷ 0 ∷ write_four_byte_length (length payload)))
  unfolding header_of decode decode_length decode_four decode_low
  four_IsHeader many few =
      let n = length payload in
      let b1 = m * 128 + 127 in
      let bit : mask_bit b1 ≡ m = omega arith in
      let short : short_length b1 ≡ 127 = omega arith in
      let (bytes, back) = four_byte_length_roundtrip n few in
      let back' : read_four_byte_length
            (n / 2 ^ 24 ∷ n / 2 ^ 16 % 256 ∷ n / 2 ^ 8 % 256 ∷ n % 256 ∷ [])
          ≡ n =
        ap read_four_byte_length (sym bytes) ∙ back in
      record {
        second = b1;
        made = header_for_four fin op m n many few;
        masked = bit;
        read = λ rest.
            rw (first_byte, second_byte 127 (omega arith), bytes, short, back')
              (decode_mask-body (fin * 128 + op) b1 10 m payload rest m_small bit
                ∙ ap (λ l. framed (fin * 128 + op) b1 l payload) (omega arith));
      }

  -- Whatever the length of the data, short of 2 ^ 32, there is a header.
  pub frame_IsHeader :
      0 < length payload
      → length payload < 2 ^ 32
      → (header : List ℕ) × IsHeader fin op m payload header × (length header ≤ 14)
  unfolding header_of
  frame_IsHeader some_data few = elim (le_or_lt (length payload) 125) [
    | inl short ↦
        (header_of fin op m (length payload) [], short_IsHeader some_data short, ground arith)
    | inr long ↦ elim (le_or_lt (length payload) 65535) [
      | inl two ↦ (
        header_of fin op m 126 (write_two_byte_length (length payload)),
        two_IsHeader long two,
        omega (
          arith,
          length-append (write_two_byte_length (length payload)) (if m == 0 then [] else mask_key),
          length-write_two_byte_length (length payload),
          length-key m,
        ),
      )
      | inr four ↦ (
        header_of fin op m 127 (0 ∷ 0 ∷ 0 ∷ 0 ∷ write_four_byte_length (length payload)),
        four_IsHeader four few,
        omega (
          arith,
          length-append (write_four_byte_length (length payload)) (if m == 0 then [] else mask_key),
          length-write_four_byte_length (length payload),
          length-key m,
        ),
      )
    ]
  ]
