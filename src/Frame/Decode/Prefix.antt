-- ===== src/Frame/Decode/Prefix.antt =====
-- A stream that holds no whole frame, and what it becomes when more bytes follow.
use a_nother_ws.Prelude.{
  ℕ, suc, ◌+◌, ◌≤◌, ◌≡◌, subst, List, [], ◌∷◌, ◌++◌, inl, inr, ◌&&◌, arith, length, take,
  length-take, ltb, ◌==◌, Bool-cases, le_or_lt, le→ltb, lt→ltb,
}
use a_nother_ws.Frame.Mask.{do_mask, length-do_mask}
use a_nother_ws.Frame.Decode.{
  Outcome, need_more, too_long, bare, framed, mask_bit, short_length, decode_payload, decode_masked,
  decode_key, decode_mask, decode_two, decode_low, decode_four, decode_length, decode, Reaches,
}

framed-ne-need_more : (b0 b1 k : ℕ) (p : List ℕ) → framed b0 b1 k p ≡ need_more → ⊥
framed-ne-need_more b0 b1 k p e = cc

bare-ne-need_more : (b0 b1 : ℕ) → bare b0 b1 ≡ need_more → ⊥
bare-ne-need_more b0 b1 e = cc

too_long-ne-need_more : too_long ≡ need_more → ⊥
too_long-ne-need_more e = cc

-- In each lemma `k` bytes come before `s`, and `t` follows it.
payload_grows :
    (b0 b1 k n : ℕ) (s t : List ℕ)
    → decode_payload b0 b1 k n s ≡ need_more
    → Reaches (k + length s) (decode_payload b0 b1 k n (s ++ t))
unfolding decode_payload
payload_grows b0 b1 k n s t e = elim (le_or_lt n (length s)) [
  | inl enough ↦
      absurd (framed-ne-need_more b0 b1 k (take n s) (rw (le→ltb (length s) n enough) at e))
  | inr lack ↦ elim (le_or_lt n (length (s ++ t))) [
    | inl whole ↦ rw (le→ltb (length (s ++ t)) n whole) (omega (arith, length-take n (s ++ t)))
    | inr short ↦ rw (lt→ltb (length (s ++ t)) n short) tt
  ]
]

masked_grows :
    (b0 b1 k n : ℕ) (key s t : List ℕ)
    → decode_masked b0 b1 k n key s ≡ need_more
    → Reaches (k + length s) (decode_masked b0 b1 k n key (s ++ t))
unfolding decode_masked
masked_grows b0 b1 k n key s t e = elim (le_or_lt n (length s)) [
  | inl enough ↦
      absurd (
        framed-ne-need_more b0 b1 k (do_mask (take n s) key) (rw (le→ltb (length s) n enough) at e))
  | inr lack ↦ elim (le_or_lt n (length (s ++ t))) [
    | inl whole ↦
        rw (le→ltb (length (s ++ t)) n whole)
          (omega (arith, length-do_mask (take n (s ++ t)) key, length-take n (s ++ t)))
    | inr short ↦ rw (lt→ltb (length (s ++ t)) n short) tt
  ]
]

-- A frame whose header has at least `k` bytes reaches as far as a stream that is no longer.
abbrev Longer : ℕ → Outcome → Type 0
Longer k need_more = Unit {0}
Longer k too_long = k ≤ 6
Longer k (bare b0 b1) = k ≤ 2
Longer k (framed b0 b1 header_len payload) = k ≤ header_len

Longer-Reaches : (k m : ℕ) (o : Outcome) → Longer k o → m ≤ k → Reaches m o
Longer-Reaches k m need_more h le = tt
Longer-Reaches k m too_long h le = omega arith
Longer-Reaches k m (bare b0 b1) h le = omega arith
Longer-Reaches k m (framed b0 b1 header_len payload) h le = omega arith

Longer-mono : (k m : ℕ) (o : Outcome) → Longer k o → m ≤ k → Longer m o
Longer-mono k m need_more h le = tt
Longer-mono k m too_long h le = omega arith
Longer-mono k m (bare b0 b1) h le = omega arith
Longer-mono k m (framed b0 b1 header_len payload) h le = omega arith

payload-Longer : (b0 b1 k n : ℕ) (s : List ℕ) → Longer k (decode_payload b0 b1 k n s)
unfolding decode_payload
payload-Longer b0 b1 k n s = ground arith

key-Longer : (b0 b1 k n : ℕ) (s : List ℕ) → Longer (k + 4) (decode_key b0 b1 k n s)
unfolding decode_key decode_masked
key-Longer b0 b1 k n [] = tt
key-Longer b0 b1 k n (k0 ∷ []) = tt
key-Longer b0 b1 k n (k0 ∷ k1 ∷ []) = tt
key-Longer b0 b1 k n (k0 ∷ k1 ∷ k2 ∷ []) = tt
key-Longer b0 b1 k n (k0 ∷ k1 ∷ k2 ∷ k3 ∷ s) = ground arith

mask-Longer : (b0 b1 k n : ℕ) (s : List ℕ) → Longer k (decode_mask b0 b1 k n s)
unfolding decode_mask
mask-Longer b0 b1 k n s = elim (Bool-cases (mask_bit b1 == 0)) [
  | inl plain ↦ rw plain (payload-Longer b0 b1 k n s)
  | inr masked ↦
      rw masked
        (Longer-mono (k + 4) k (decode_key b0 b1 k n s) (key-Longer b0 b1 k n s) (omega arith))
]

two-Longer : (b0 b1 : ℕ) (s : List ℕ) → Longer 4 (decode_two b0 b1 s)
unfolding decode_two
two-Longer b0 b1 [] = tt
two-Longer b0 b1 (n1 ∷ []) = tt
two-Longer b0 b1 (n1 ∷ n0 ∷ s) = mask-Longer b0 b1 4 _ s

low-Longer : (b0 b1 : ℕ) (s : List ℕ) → Longer 10 (decode_low b0 b1 s)
unfolding decode_low
low-Longer b0 b1 [] = tt
low-Longer b0 b1 (n3 ∷ []) = tt
low-Longer b0 b1 (n3 ∷ n2 ∷ []) = tt
low-Longer b0 b1 (n3 ∷ n2 ∷ n1 ∷ []) = tt
low-Longer b0 b1 (n3 ∷ n2 ∷ n1 ∷ n0 ∷ s) = mask-Longer b0 b1 10 _ s

four-Longer : (b0 b1 : ℕ) (s : List ℕ) → Longer 6 (decode_four b0 b1 s)
unfolding decode_four
four-Longer b0 b1 [] = tt
four-Longer b0 b1 (n7 ∷ []) = tt
four-Longer b0 b1 (n7 ∷ n6 ∷ []) = tt
four-Longer b0 b1 (n7 ∷ n6 ∷ n5 ∷ []) = tt
four-Longer b0 b1 (n7 ∷ n6 ∷ n5 ∷ n4 ∷ s) =
    elim (Bool-cases (n7 == 0 && (n6 == 0 && (n5 == 0 && n4 == 0)))) [
      | inl zeros ↦
          rw zeros (Longer-mono 10 6 (decode_low b0 b1 s) (low-Longer b0 b1 s) (omega arith))
      | inr long ↦ rw long (omega arith)
    ]

length-Longer : (b0 b1 : ℕ) (s : List ℕ) → Longer 2 (decode_length b0 b1 s)
unfolding decode_length
length-Longer b0 b1 s = elim (Bool-cases (short_length b1 == 0)) [
  | inl none' ↦ rw none' (omega arith)
  | inr some' ↦ elim (Bool-cases (ltb (short_length b1) 126)) [
    | inl short ↦ rw (some', short) (mask-Longer b0 b1 2 (short_length b1) s)
    | inr long ↦ elim (Bool-cases (short_length b1 == 126)) [
      | inl two ↦
          rw (some', long, two)
            (Longer-mono 4 2 (decode_two b0 b1 s) (two-Longer b0 b1 s) (omega arith))
      | inr four ↦
          rw (some', long, four)
            (Longer-mono 6 2 (decode_four b0 b1 s) (four-Longer b0 b1 s) (omega arith))
    ]
  ]
]

key_grows :
    (b0 b1 k n : ℕ) (s t : List ℕ)
    → decode_key b0 b1 k n s ≡ need_more
    → Reaches (k + length s) (decode_key b0 b1 k n (s ++ t))
unfolding decode_key
key_grows b0 b1 k n [] t e = Longer-Reaches (k + 4) _ _ (key-Longer b0 b1 k n t) (omega arith)
key_grows b0 b1 k n (k0 ∷ []) t e =
    Longer-Reaches (k + 4) _ _ (key-Longer b0 b1 k n (k0 ∷ t)) (omega arith)
key_grows b0 b1 k n (k0 ∷ k1 ∷ []) t e =
    Longer-Reaches (k + 4) _ _ (key-Longer b0 b1 k n (k0 ∷ k1 ∷ t)) (omega arith)
key_grows b0 b1 k n (k0 ∷ k1 ∷ k2 ∷ []) t e =
    Longer-Reaches (k + 4) _ _ (key-Longer b0 b1 k n (k0 ∷ k1 ∷ k2 ∷ t)) (omega arith)
key_grows b0 b1 k n (k0 ∷ k1 ∷ k2 ∷ k3 ∷ s) t e =
    let key = k0 ∷ k1 ∷ k2 ∷ k3 ∷ [] in
    let sum : k + 4 + length s ≡ k + suc (suc (suc (suc (length s)))) = omega arith in
    subst (λ m. Reaches m (decode_masked b0 b1 (k + 4) n key (s ++ t))) sum
      (masked_grows b0 b1 (k + 4) n key s t e)

mask_grows :
    (b0 b1 k n : ℕ) (s t : List ℕ)
    → decode_mask b0 b1 k n s ≡ need_more
    → Reaches (k + length s) (decode_mask b0 b1 k n (s ++ t))
unfolding decode_mask
mask_grows b0 b1 k n s t e = elim (Bool-cases (mask_bit b1 == 0)) [
  | inl plain ↦ rw plain (payload_grows b0 b1 k n s t (rw plain at e))
  | inr masked ↦ rw masked (key_grows b0 b1 k n s t (rw masked at e))
]

two_grows :
    (b0 b1 : ℕ) (s t : List ℕ)
    → decode_two b0 b1 s ≡ need_more
    → Reaches (2 + length s) (decode_two b0 b1 (s ++ t))
unfolding decode_two
two_grows b0 b1 [] t e = Longer-Reaches 4 _ _ (two-Longer b0 b1 t) (omega arith)
two_grows b0 b1 (n1 ∷ []) t e = Longer-Reaches 4 _ _ (two-Longer b0 b1 (n1 ∷ t)) (omega arith)
two_grows b0 b1 (n1 ∷ n0 ∷ s) t e =
    let sum : 4 + length s ≡ 2 + suc (suc (length s)) = omega arith in
    subst (λ m. Reaches m (decode_two b0 b1 (n1 ∷ n0 ∷ (s ++ t)))) sum (mask_grows b0 b1 4 _ s t e)

low_grows :
    (b0 b1 : ℕ) (s t : List ℕ)
    → decode_low b0 b1 s ≡ need_more
    → Reaches (6 + length s) (decode_low b0 b1 (s ++ t))
unfolding decode_low
low_grows b0 b1 [] t e = Longer-Reaches 10 _ _ (low-Longer b0 b1 t) (omega arith)
low_grows b0 b1 (n3 ∷ []) t e = Longer-Reaches 10 _ _ (low-Longer b0 b1 (n3 ∷ t)) (omega arith)
low_grows b0 b1 (n3 ∷ n2 ∷ []) t e =
    Longer-Reaches 10 _ _ (low-Longer b0 b1 (n3 ∷ n2 ∷ t)) (omega arith)
low_grows b0 b1 (n3 ∷ n2 ∷ n1 ∷ []) t e =
    Longer-Reaches 10 _ _ (low-Longer b0 b1 (n3 ∷ n2 ∷ n1 ∷ t)) (omega arith)
low_grows b0 b1 (n3 ∷ n2 ∷ n1 ∷ n0 ∷ s) t e =
    let sum : 10 + length s ≡ 6 + suc (suc (suc (suc (length s)))) = omega arith in
    subst (λ m. Reaches m (decode_low b0 b1 (n3 ∷ n2 ∷ n1 ∷ n0 ∷ (s ++ t)))) sum
      (mask_grows b0 b1 10 _ s t e)

four_grows :
    (b0 b1 : ℕ) (s t : List ℕ)
    → decode_four b0 b1 s ≡ need_more
    → Reaches (2 + length s) (decode_four b0 b1 (s ++ t))
unfolding decode_four
four_grows b0 b1 [] t e = Longer-Reaches 6 _ _ (four-Longer b0 b1 t) (omega arith)
four_grows b0 b1 (n7 ∷ []) t e = Longer-Reaches 6 _ _ (four-Longer b0 b1 (n7 ∷ t)) (omega arith)
four_grows b0 b1 (n7 ∷ n6 ∷ []) t e =
    Longer-Reaches 6 _ _ (four-Longer b0 b1 (n7 ∷ n6 ∷ t)) (omega arith)
four_grows b0 b1 (n7 ∷ n6 ∷ n5 ∷ []) t e =
    Longer-Reaches 6 _ _ (four-Longer b0 b1 (n7 ∷ n6 ∷ n5 ∷ t)) (omega arith)
four_grows b0 b1 (n7 ∷ n6 ∷ n5 ∷ n4 ∷ s) t e =
    let sum : 6 + length s ≡ 2 + suc (suc (suc (suc (length s)))) = omega arith in
    elim (Bool-cases (n7 == 0 && (n6 == 0 && (n5 == 0 && n4 == 0)))) [
      | inl zeros ↦ rw zeros (
          subst (λ m. Reaches m (decode_low b0 b1 (s ++ t))) sum
            (low_grows b0 b1 s t (rw zeros at e)))
      | inr long ↦ absurd (too_long-ne-need_more (rw long at e))
    ]

length_grows :
    (b0 b1 : ℕ) (s t : List ℕ)
    → decode_length b0 b1 s ≡ need_more
    → Reaches (2 + length s) (decode_length b0 b1 (s ++ t))
unfolding decode_length
length_grows b0 b1 s t e = elim (Bool-cases (short_length b1 == 0)) [
  | inl none' ↦ absurd (bare-ne-need_more b0 b1 (rw none' at e))
  | inr some' ↦ elim (Bool-cases (ltb (short_length b1) 126)) [
    | inl short ↦
        rw (some', short) (mask_grows b0 b1 2 (short_length b1) s t (rw (some', short) at e))
    | inr long ↦ elim (Bool-cases (short_length b1 == 126)) [
      | inl two ↦ rw (some', long, two) (two_grows b0 b1 s t (rw (some', long, two) at e))
      | inr four ↦ rw (some', long, four) (four_grows b0 b1 s t (rw (some', long, four) at e))
    ]
  ]
]

Reaches-zero : (o : Outcome) → Reaches 0 o
Reaches-zero need_more = tt
Reaches-zero too_long = omega arith
Reaches-zero (bare b0 b1) = omega arith
Reaches-zero (framed b0 b1 header_len payload) = omega arith

-- Bytes that hold no whole frame are all part of the frame that more bytes complete.
pub decode_grows : (s t : List ℕ) → decode s ≡ need_more → Reaches (length s) (decode (s ++ t))
unfolding decode
decode_grows [] t e = Reaches-zero (decode t)
decode_grows (b0 ∷ []) [] e = tt
decode_grows (b0 ∷ []) (b1 ∷ t) e =
    Longer-Reaches 2 1 (decode_length b0 b1 t) (length-Longer b0 b1 t) (omega arith)
decode_grows (b0 ∷ b1 ∷ s) t e =
    let sum : 2 + length s ≡ suc (suc (length s)) = omega arith in
    subst (λ m. Reaches m (decode_length b0 b1 (s ++ t))) sum (length_grows b0 b1 s t e)
