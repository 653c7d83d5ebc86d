-- ===== src/Frame/Decode/TooLong.antt =====
-- The streams that the parser gives up: their length field is above 32 bits.
use a_nother_ws.Prelude.{
  ℕ, ◌≡◌, List, [], ◌∷◌, ◌++◌, inl, inr, Bool, false, ◌&&◌, arith, take, ltb, ◌==◌, Bool-cases,
}
use a_nother_ws.Frame.Decode.{
  too_long, bare, mask_bit, short_length, decode_payload, decode_masked, decode_key, decode_mask,
  decode_two, decode_low, decode_four, decode_length, decode,
}

abbrev pub zeros : ℕ → ℕ → ℕ → ℕ → Bool
zeros n7 n6 n5 n4 = n7 == 0 && (n6 == 0 && (n5 == 0 && n4 == 0))

-- The field of eight bytes is used, and its upper half is not zero.
abbrev pub LongField : List ℕ → Type 0
LongField [] = ⊥
LongField (b0 ∷ []) = ⊥
LongField (b0 ∷ b1 ∷ []) = ⊥
LongField (b0 ∷ b1 ∷ n7 ∷ []) = ⊥
LongField (b0 ∷ b1 ∷ n7 ∷ n6 ∷ []) = ⊥
LongField (b0 ∷ b1 ∷ n7 ∷ n6 ∷ n5 ∷ []) = ⊥
LongField (b0 ∷ b1 ∷ n7 ∷ n6 ∷ n5 ∷ n4 ∷ s) = (short_length b1 ≡ 127) × (zeros n7 n6 n5 n4 ≡ false)

pub LongField-append : (s t : List ℕ) → LongField s → LongField (s ++ t)
LongField-append [] t h = absurd h
LongField-append (b0 ∷ []) t h = absurd h
LongField-append (b0 ∷ b1 ∷ []) t h = absurd h
LongField-append (b0 ∷ b1 ∷ n7 ∷ []) t h = absurd h
LongField-append (b0 ∷ b1 ∷ n7 ∷ n6 ∷ []) t h = absurd h
LongField-append (b0 ∷ b1 ∷ n7 ∷ n6 ∷ n5 ∷ []) t h = absurd h
LongField-append (b0 ∷ b1 ∷ n7 ∷ n6 ∷ n5 ∷ n4 ∷ s) t h = h

pub LongField-take_six : (s : List ℕ) → LongField s → LongField (take 6 s)
LongField-take_six [] h = absurd h
LongField-take_six (b0 ∷ []) h = absurd h
LongField-take_six (b0 ∷ b1 ∷ []) h = absurd h
LongField-take_six (b0 ∷ b1 ∷ n7 ∷ []) h = absurd h
LongField-take_six (b0 ∷ b1 ∷ n7 ∷ n6 ∷ []) h = absurd h
LongField-take_six (b0 ∷ b1 ∷ n7 ∷ n6 ∷ n5 ∷ []) h = absurd h
LongField-take_six (b0 ∷ b1 ∷ n7 ∷ n6 ∷ n5 ∷ n4 ∷ s) h = h

pub decode-LongField : (s : List ℕ) → LongField s → decode s ≡ too_long
unfolding decode decode_length decode_four
decode-LongField [] h = absurd h
decode-LongField (b0 ∷ []) h = absurd h
decode-LongField (b0 ∷ b1 ∷ []) h = absurd h
decode-LongField (b0 ∷ b1 ∷ n7 ∷ []) h = absurd h
decode-LongField (b0 ∷ b1 ∷ n7 ∷ n6 ∷ []) h = absurd h
decode-LongField (b0 ∷ b1 ∷ n7 ∷ n6 ∷ n5 ∷ []) h = absurd h
decode-LongField (b0 ∷ b1 ∷ n7 ∷ n6 ∷ n5 ∷ n4 ∷ s) (long, field) = rw (long, field)

payload-ne-too_long : (b0 b1 k n : ℕ) (s : List ℕ) → decode_payload b0 b1 k n s ≡ too_long → ⊥
unfolding decode_payload
payload-ne-too_long b0 b1 k n s = ground arith

key-ne-too_long : (b0 b1 k n : ℕ) (s : List ℕ) → decode_key b0 b1 k n s ≡ too_long → ⊥
unfolding decode_key decode_masked
key-ne-too_long b0 b1 k n [] e = cc
key-ne-too_long b0 b1 k n (k0 ∷ []) e = cc
key-ne-too_long b0 b1 k n (k0 ∷ k1 ∷ []) e = cc
key-ne-too_long b0 b1 k n (k0 ∷ k1 ∷ k2 ∷ []) e = cc
key-ne-too_long b0 b1 k n (k0 ∷ k1 ∷ k2 ∷ k3 ∷ s) e = ground arith

mask-ne-too_long : (b0 b1 k n : ℕ) (s : List ℕ) → decode_mask b0 b1 k n s ≡ too_long → ⊥
unfolding decode_mask
mask-ne-too_long b0 b1 k n s e = elim (Bool-cases (mask_bit b1 == 0)) [
  | inl plain ↦ payload-ne-too_long b0 b1 k n s (rw plain at e)
  | inr masked ↦ key-ne-too_long b0 b1 k n s (rw masked at e)
]

two-ne-too_long : (b0 b1 : ℕ) (s : List ℕ) → decode_two b0 b1 s ≡ too_long → ⊥
unfolding decode_two
two-ne-too_long b0 b1 [] e = cc
two-ne-too_long b0 b1 (n1 ∷ []) e = cc
two-ne-too_long b0 b1 (n1 ∷ n0 ∷ s) e = mask-ne-too_long b0 b1 4 _ s e

low-ne-too_long : (b0 b1 : ℕ) (s : List ℕ) → decode_low b0 b1 s ≡ too_long → ⊥
unfolding decode_low
low-ne-too_long b0 b1 [] e = cc
low-ne-too_long b0 b1 (n3 ∷ []) e = cc
low-ne-too_long b0 b1 (n3 ∷ n2 ∷ []) e = cc
low-ne-too_long b0 b1 (n3 ∷ n2 ∷ n1 ∷ []) e = cc
low-ne-too_long b0 b1 (n3 ∷ n2 ∷ n1 ∷ n0 ∷ s) e = mask-ne-too_long b0 b1 10 _ s e

four_LongField :
    (b0 b1 : ℕ) (s : List ℕ)
    → short_length b1 ≡ 127
    → decode_four b0 b1 s ≡ too_long
    → LongField (b0 ∷ b1 ∷ s)
unfolding decode_four
four_LongField b0 b1 [] h e = cc
four_LongField b0 b1 (n7 ∷ []) h e = cc
four_LongField b0 b1 (n7 ∷ n6 ∷ []) h e = cc
four_LongField b0 b1 (n7 ∷ n6 ∷ n5 ∷ []) h e = cc
four_LongField b0 b1 (n7 ∷ n6 ∷ n5 ∷ n4 ∷ s) h e = elim (Bool-cases (zeros n7 n6 n5 n4)) [
  | inl none' ↦ absurd (low-ne-too_long b0 b1 s (rw none' at e))
  | inr some' ↦ (h, some')
]

length_LongField :
    (b0 b1 : ℕ) (s : List ℕ) → decode_length b0 b1 s ≡ too_long → LongField (b0 ∷ b1 ∷ s)
unfolding decode_length
length_LongField b0 b1 s e = elim (Bool-cases (short_length b1 == 0)) [
  | inl none' ↦ absurd (bare-ne-too_long b0 b1 (rw none' at e))
  | inr some' ↦ elim (Bool-cases (ltb (short_length b1) 126)) [
    | inl short ↦ absurd (mask-ne-too_long b0 b1 2 (short_length b1) s (rw (some', short) at e))
    | inr long ↦ elim (Bool-cases (short_length b1 == 126)) [
      | inl two ↦ absurd (two-ne-too_long b0 b1 s (rw (some', long, two) at e))
      | inr four ↦ four_LongField b0 b1 s (ground arith) (rw (some', long, four) at e)
    ]
  ]
]
  where
    bare-ne-too_long : (b0 b1 : ℕ) → bare b0 b1 ≡ too_long → ⊥
    bare-ne-too_long b0 b1 e = cc

pub too_long_LongField : (s : List ℕ) → decode s ≡ too_long → LongField s
unfolding decode
too_long_LongField [] e = cc
too_long_LongField (b0 ∷ []) e = cc
too_long_LongField (b0 ∷ b1 ∷ s) e = length_LongField b0 b1 s e
