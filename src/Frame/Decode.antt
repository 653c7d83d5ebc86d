-- ===== src/Frame/Decode.antt =====
-- A frame as a function of the bytes of the stream: what a parser is to find at its head.
pub mod Prefix
pub mod TooLong
pub mod Within
use a_nother_ws.Prelude.{
  ℕ, ◌+◌, ◌≤◌, ◌*◌, ◌/◌, ◌%◌, List, [], ◌∷◌, ◌++◌, Bool, true, false, ◌&&◌, ltb, ◌==◌,
  if◌then◌else◌, length, take,
}
use a_nother_ws.ByteOrder.{read_two_byte_length, read_four_byte_length}
use a_nother_ws.Frame.Mask.{do_mask}

pub data Outcome : Type 0 where
  -- No whole frame yet.
  need_more : Outcome
  -- A length above 32 bits.
  too_long : Outcome
  -- The two bytes of a frame whose short length field is 0.
  bare : (b0 b1 : ℕ) → Outcome
  -- The first two bytes, the length of the header, and the payload without its mask.
  framed : (b0 b1 header_len : ℕ) (payload : List ℕ) → Outcome

abbrev pub fin_bit : ℕ → ℕ
fin_bit b = b / 128 % 2

abbrev pub opcode : ℕ → ℕ
opcode b = b % 16

abbrev pub mask_bit : ℕ → ℕ
mask_bit b = b / 128 % 2

abbrev pub short_length : ℕ → ℕ
short_length b = b % 128

unfoldable pub decode_payload : (b0 b1 header_len n : ℕ) → List ℕ → Outcome
decode_payload b0 b1 header_len n s =
    if ltb (length s) n then need_more else framed b0 b1 header_len (take n s)

unfoldable pub decode_masked : (b0 b1 header_len n : ℕ) → List ℕ → List ℕ → Outcome
decode_masked b0 b1 header_len n key s =
    if ltb (length s) n then need_more else framed b0 b1 header_len (do_mask (take n s) key)

unfoldable pub decode_key : (b0 b1 header_len n : ℕ) → List ℕ → Outcome
unfolding decode_masked
decode_key b0 b1 header_len n (k0 ∷ k1 ∷ k2 ∷ k3 ∷ s) =
    decode_masked b0 b1 (header_len + 4) n (k0 ∷ k1 ∷ k2 ∷ k3 ∷ []) s
decode_key b0 b1 header_len n s = need_more

unfoldable pub decode_mask : (b0 b1 header_len n : ℕ) → List ℕ → Outcome
decode_mask b0 b1 header_len n s =
    if mask_bit b1 == 0
    then decode_payload b0 b1 header_len n s
    else decode_key b0 b1 header_len n s

unfoldable pub decode_two : (b0 b1 : ℕ) → List ℕ → Outcome
decode_two b0 b1 (n1 ∷ n0 ∷ s) = decode_mask b0 b1 4 (read_two_byte_length (n1 ∷ n0 ∷ [])) s
decode_two b0 b1 s = need_more

unfoldable pub decode_low : (b0 b1 : ℕ) → List ℕ → Outcome
decode_low b0 b1 (n3 ∷ n2 ∷ n1 ∷ n0 ∷ s) =
    decode_mask b0 b1 10 (read_four_byte_length (n3 ∷ n2 ∷ n1 ∷ n0 ∷ [])) s
decode_low b0 b1 s = need_more

unfoldable pub decode_four : (b0 b1 : ℕ) → List ℕ → Outcome
decode_four b0 b1 (n7 ∷ n6 ∷ n5 ∷ n4 ∷ s) =
    if n7 == 0 && (n6 == 0 && (n5 == 0 && n4 == 0)) then decode_low b0 b1 s else too_long
decode_four b0 b1 s = need_more

unfoldable pub decode_length : (b0 b1 : ℕ) → List ℕ → Outcome
decode_length b0 b1 s =
    if short_length b1 == 0
    then bare b0 b1
    else if ltb (short_length b1) 126
    then decode_mask b0 b1 2 (short_length b1) s
    else if short_length b1 == 126
    then decode_two b0 b1 s
    else decode_four b0 b1 s

unfoldable pub decode : List ℕ → Outcome
decode (b0 ∷ b1 ∷ s) = decode_length b0 b1 s
decode s = need_more

-- An outcome is settled by no fewer bytes than those held.
abbrev pub Reaches : ℕ → Outcome → Type 0
Reaches held need_more = Unit {0}
Reaches held too_long = held ≤ 6
Reaches held (bare b0 b1) = held ≤ 2
Reaches held (framed b0 b1 header_len payload) = held ≤ header_len + length payload
