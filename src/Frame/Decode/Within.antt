-- ===== src/Frame/Decode/Within.antt =====
-- A frame that is found lies in the stream.
use a_nother_ws.Prelude.{
  ℕ, ◌+◌, ◌≤◌, ◌≡◌, List, [], ◌∷◌, arith, ltb, ◌==◌, if◌then◌else◌, length, take, length-take, true,
  false, Bool, ◌&&◌, subst,
}
use a_nother_ws.ByteOrder.{read_two_byte_length, read_four_byte_length}
use a_nother_ws.Frame.Mask.{length-do_mask}
use a_nother_ws.Frame.Decode.{
  Outcome, need_more, too_long, bare, framed, mask_bit, short_length, decode_payload, decode_masked,
  decode_key, decode_mask, decode_two, decode_low, decode_four, decode_length, decode,
}

-- The bytes of a frame are among the first `n`, and its header has at least two.
abbrev pub Within : ℕ → Outcome → Type 0
Within n need_more = Unit {0}
Within n too_long = Unit {0}
Within n (bare b0 b1) = 2 ≤ n
Within n (framed b0 b1 header_len payload) = (header_len + length payload ≤ n) × (2 ≤ header_len)

Within-if :
    (n : ℕ) (b : Bool) (o p : Outcome) → Within n o → Within n p → Within n (if b then o else p)
Within-if n true o p h k = h
Within-if n false o p h k = k

payload-Within :
    (b0 b1 k n : ℕ) (s : List ℕ) → 2 ≤ k → Within (k + length s) (decode_payload b0 b1 k n s)
unfolding decode_payload
payload-Within b0 b1 k n s two =
    Within-if (k + length s) (ltb (length s) n) _ _ tt (omega (arith, length-take n s), two)

masked-Within :
    (b0 b1 k n : ℕ) (key s : List ℕ) → 2 ≤ k → Within (k + length s) (decode_masked b0 b1 k n key s)
unfolding decode_masked
masked-Within b0 b1 k n key s two =
    Within-if (k + length s) (ltb (length s) n) _ _ tt
      (omega (arith, length-take n s, length-do_mask (take n s) key), two)

key-Within : (b0 b1 k n : ℕ) (s : List ℕ) → 2 ≤ k → Within (k + length s) (decode_key b0 b1 k n s)
unfolding decode_key
key-Within b0 b1 k n [] two = tt
key-Within b0 b1 k n (x ∷ []) two = tt
key-Within b0 b1 k n (x ∷ y ∷ []) two = tt
key-Within b0 b1 k n (x ∷ y ∷ z ∷ []) two = tt
key-Within b0 b1 k n (x ∷ y ∷ z ∷ w ∷ s) two =
    let same : k + 4 + length s ≡ k + length (x ∷ y ∷ z ∷ w ∷ s) = omega arith in
    subst (λ l. Within l (decode_masked b0 b1 (k + 4) n (x ∷ y ∷ z ∷ w ∷ []) s)) same
      (masked-Within b0 b1 (k + 4) n (x ∷ y ∷ z ∷ w ∷ []) s (omega arith))

mask-Within : (b0 b1 k n : ℕ) (s : List ℕ) → 2 ≤ k → Within (k + length s) (decode_mask b0 b1 k n s)
unfolding decode_mask
mask-Within b0 b1 k n s two =
    Within-if (k + length s) (mask_bit b1 == 0) _ _ (payload-Within b0 b1 k n s two)
      (key-Within b0 b1 k n s two)

two-Within : (b0 b1 : ℕ) (s : List ℕ) → Within (2 + length s) (decode_two b0 b1 s)
unfolding decode_two
two-Within b0 b1 [] = tt
two-Within b0 b1 (x ∷ []) = tt
two-Within b0 b1 (x ∷ y ∷ s) =
    let n = read_two_byte_length (x ∷ y ∷ []) in
    let same : 4 + length s ≡ 2 + length (x ∷ y ∷ s) = omega arith in
    subst (λ l. Within l (decode_mask b0 b1 4 n s)) same (mask-Within b0 b1 4 n s (omega arith))

low-Within : (b0 b1 : ℕ) (s : List ℕ) → Within (6 + length s) (decode_low b0 b1 s)
unfolding decode_low
low-Within b0 b1 [] = tt
low-Within b0 b1 (x ∷ []) = tt
low-Within b0 b1 (x ∷ y ∷ []) = tt
low-Within b0 b1 (x ∷ y ∷ z ∷ []) = tt
low-Within b0 b1 (x ∷ y ∷ z ∷ w ∷ s) =
    let n = read_four_byte_length (x ∷ y ∷ z ∷ w ∷ []) in
    let same : 10 + length s ≡ 6 + length (x ∷ y ∷ z ∷ w ∷ s) = omega arith in
    subst (λ l. Within l (decode_mask b0 b1 10 n s)) same (mask-Within b0 b1 10 n s (omega arith))

four-Within : (b0 b1 : ℕ) (s : List ℕ) → Within (2 + length s) (decode_four b0 b1 s)
unfolding decode_four
four-Within b0 b1 [] = tt
four-Within b0 b1 (x ∷ []) = tt
four-Within b0 b1 (x ∷ y ∷ []) = tt
four-Within b0 b1 (x ∷ y ∷ z ∷ []) = tt
four-Within b0 b1 (x ∷ y ∷ z ∷ w ∷ s) =
    let same : 6 + length s ≡ 2 + length (x ∷ y ∷ z ∷ w ∷ s) = omega arith in
    Within-if (2 + length (x ∷ y ∷ z ∷ w ∷ s)) (x == 0 && (y == 0 && (z == 0 && w == 0))) _ _
      (subst (λ l. Within l (decode_low b0 b1 s)) same (low-Within b0 b1 s)) tt

pub decode-Within : (s : List ℕ) → Within (length s) (decode s)
unfolding decode decode_length
decode-Within [] = tt
decode-Within (b0 ∷ []) = tt
decode-Within (b0 ∷ b1 ∷ s) =
    let same : 2 + length s ≡ length (b0 ∷ b1 ∷ s) = omega arith in
    subst (λ l. Within l (decode (b0 ∷ b1 ∷ s))) same
      (Within-if (2 + length s) (short_length b1 == 0) _ _ (omega arith) (
        Within-if (2 + length s) (ltb (short_length b1) 126) _ _
          (mask-Within b0 b1 2 (short_length b1) s (omega arith))
          (Within-if (2 + length s) (short_length b1 == 126) _ _ (two-Within b0 b1 s)
            (four-Within b0 b1 s))))
