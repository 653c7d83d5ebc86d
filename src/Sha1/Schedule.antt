-- ===== src/Sha1/Schedule.antt =====
-- The sixteen words `x` of src/ws/sha1.cpp are a ring of the last words of FIPS 180-1.
use Prim.Native.Nat.{bit_and}
use a_nother_ws.Prelude.{
  ℕ, zero, suc, ◌+◌, ◌-◌, ◌%◌, ◌≤◌, ◌<◌, ◌≡◌, ◌≢◌, refl, sym, ap, ap₂, ◌∙◌, subst, drop, List, [],
  ◌∷◌, length, get_or, inl, inr, arith, le_or_lt, le→ltb,
}
use a_nother_ws.Prelude.Bits.{bit_and_low4}
use a_nother_ws.Sha1.{set_at, load_words, mixed_word, word_of, words_after}
use a_nother_ws.Sha1.Fips.{fips_word, reverse_onto, fips_words}

get_or-set_at_same : (xs : List ℕ) (i v : ℕ) → i < length xs → get_or (set_at xs i v) i 0 ≡ v
get_or-set_at_same [] i v h = absurd (omega arith)
get_or-set_at_same (x ∷ xs) zero v h = refl
get_or-set_at_same (x ∷ xs) (suc i) v h = get_or-set_at_same xs i v (omega arith)

pub get_or-set_at_other :
    (xs : List ℕ) (i j v : ℕ) → i ≢ j → get_or (set_at xs i v) j 0 ≡ get_or xs j 0
get_or-set_at_other [] i j v h = refl
get_or-set_at_other (x ∷ xs) zero zero v h = absurd (h refl)
get_or-set_at_other (x ∷ xs) zero (suc j) v h = refl
get_or-set_at_other (x ∷ xs) (suc i) zero v h = refl
get_or-set_at_other (x ∷ xs) (suc i) (suc j) v h = get_or-set_at_other xs i j v (λ e. h (ap suc e))

pub length-set_at : (xs : List ℕ) (i v : ℕ) → length (set_at xs i v) ≡ length xs
length-set_at [] i v = refl
length-set_at (x ∷ xs) zero v = refl
length-set_at (x ∷ xs) (suc i) v = ap suc (length-set_at xs i v)

-- The sixteen places of `x` hold the last sixteen words, in a ring.
record Follows (i : ℕ) (x ws : List ℕ) : Type 0 where
  measured : length x ≡ 16
  numbered : length ws ≡ i
  ring : (j : ℕ) → j < 16 → get_or x ((i + 15 - j) % 16) 0 ≡ get_or ws j 0

-- A cell that `M` names by its distance from the word to be made.
cell :
    (i j : ℕ) (x ws : List ℕ) (k : ℕ)
    → Follows i x ws
    → j < 16
    → k % 16 ≡ (i + 15 - j) % 16
    → get_or x (bit_and k 0x0f) 0 ≡ get_or ws j 0
cell i j x ws k f h e = ap (λ p. get_or x p 0) (bit_and_low4 k ∙ e) ∙ f.ring j h

mixed_word_is_next :
    (i : ℕ) (x ws : List ℕ) → 16 ≤ i → Follows i x ws → mixed_word i x ≡ fips_word ws
unfolding mixed_word fips_word
mixed_word_is_next i x ws h f =
    let p = cell i 15 x ws i f (omega arith) (omega arith) in
    let q = cell i 13 x ws (i - 14) f (omega arith) (omega arith) in
    let r = cell i 7 x ws (i - 8) f (omega arith) (omega arith) in
    let s = cell i 2 x ws (i - 3) f (omega arith) (omega arith) in rw (p, q, r, s)

next-Follows :
    (i : ℕ) (x ws : List ℕ)
    → Follows i x ws
    → (v : ℕ) → Follows (suc i) (set_at x (bit_and i 0x0f) v) (v ∷ ws)
next-Follows i x ws f v = record {
  measured = length-set_at x (bit_and i 0x0f) v ∙ f.measured;
  numbered = ap suc f.numbered;
  ring = λ j h. ring_at j h;
}
  where
    ring_at :
        (j : ℕ)
        → j < 16
        → get_or (set_at x (bit_and i 0x0f) v) ((suc i + 15 - j) % 16) 0 ≡ get_or (v ∷ ws) j 0
    ring_at zero h =
        let here : (suc i + 15 - 0) % 16 ≡ bit_and i 0x0f = omega (arith, bit_and_low4 i) in
        ap (λ p. get_or (set_at x (bit_and i 0x0f) v) p 0) here
        ∙ get_or-set_at_same x (bit_and i 0x0f) v (omega (arith, f.measured, bit_and_low4 i))
    ring_at (suc j) h =
        let there : (suc i + 15 - suc j) % 16 ≡ (i + 15 - j) % 16 = omega arith in
        ap (λ p. get_or (set_at x (bit_and i 0x0f) v) p 0) there
        ∙ get_or-set_at_other x (bit_and i 0x0f) ((i + 15 - j) % 16) v
            (λ e. absurd (omega (arith, e, bit_and_low4 i)))
        ∙ f.ring j (omega arith)

get_or-reverse_ge :
    (xs ys : List ℕ) (j : ℕ)
    → length xs ≤ j
    → get_or (reverse_onto xs ys) j 0 ≡ get_or ys (j - length xs) 0
unfolding reverse_onto
get_or-reverse_ge [] ys j h = ap (λ k. get_or ys k 0) (omega arith)
get_or-reverse_ge (x ∷ xs) ys zero h = absurd (omega arith)
get_or-reverse_ge (x ∷ xs) ys (suc j) h =
    let next : suc j - length xs ≡ suc (j - length xs) = omega arith in
    let same : j - length xs ≡ suc j - length (x ∷ xs) = omega arith in
    get_or-reverse_ge xs (x ∷ ys) (suc j) (omega arith)
    ∙ ap (λ k. get_or (x ∷ ys) k 0) next
    ∙ ap (λ k. get_or ys k 0) same

get_or-reverse_lt :
    (xs ys : List ℕ) (j : ℕ)
    → j < length xs
    → get_or (reverse_onto xs ys) j 0 ≡ get_or xs (length xs - 1 - j) 0
unfolding reverse_onto
get_or-reverse_lt [] ys j h = absurd (omega arith)
get_or-reverse_lt (x ∷ xs) ys j h = elim (le_or_lt (length xs) j) [
  | inl last ↦
      let first : j - length xs ≡ 0 = omega arith in
      let top : suc (length xs) - 1 - j ≡ 0 = omega arith in
      get_or-reverse_ge xs (x ∷ ys) j last
      ∙ ap (λ k. get_or (x ∷ ys) k 0) first
      ∙ sym (ap (λ k. get_or (x ∷ xs) k 0) top)
  | inr within ↦
      let next : suc (length xs) - 1 - j ≡ suc (length xs - 1 - j) = omega arith in
      get_or-reverse_lt xs (x ∷ ys) j within ∙ sym (ap (λ k. get_or (x ∷ xs) k 0) next)
]

length-reverse : (xs ys : List ℕ) → length (reverse_onto xs ys) ≡ length xs + length ys
unfolding reverse_onto
length-reverse [] ys = omega arith
length-reverse (x ∷ xs) ys = omega (arith, length-reverse xs (x ∷ ys))

sixteen-Follows : (x : List ℕ) → length x ≡ 16 → Follows 16 x (reverse_onto x [])
sixteen-Follows x e = record {
  measured = e;
  numbered = length-reverse x [] ∙ omega (arith, e);
  ring = λ j h.
      ap (λ k. get_or x k 0) (omega (arith, e)) ∙ sym (get_or-reverse_lt x [] j (omega (arith, e)));
}

-- `x` before the call number `i`, and the words of the calls before it, the last one first.
unfoldable pub x_at : ℕ → List ℕ → List ℕ
x_at zero x = x
x_at (suc i) x = words_after i (x_at i x)

unfoldable pub used : ℕ → List ℕ → List ℕ
used zero x = []
used (suc i) x = word_of i (x_at i x) ∷ used i x

pub length-used : (i : ℕ) (x : List ℕ) → length (used i x) ≡ i
unfolding used
length-used zero x = refl
length-used (suc i) x = ap suc (length-used i x)

first_sixteen :
    (block : List ℕ)
    → (x_at 16 (load_words 16 block) ≡ load_words 16 block)
      × (used 16 (load_words 16 block) ≡ reverse_onto (load_words 16 block) [])
unfolding x_at used load_words word_of words_after reverse_onto
first_sixteen block = (refl, refl)

length-load_words : (n : ℕ) (block : List ℕ) → length (load_words n block) ≡ n
unfolding load_words
length-load_words zero block = refl
length-load_words (suc n) block = ap suc (length-load_words n (drop 4 block))

step_by_M :
    (i : ℕ) (x ws : List ℕ)
    → 16 ≤ i
    → Follows i x ws
    → (word_of i x ≡ fips_word ws) × Follows (suc i) (words_after i x) (fips_word ws ∷ ws)
unfolding word_of words_after
step_by_M i x ws h f =
    let next = mixed_word_is_next i x ws h f in
    let written : words_after i x ≡ set_at x (bit_and i 0x0f) (fips_word ws) =
      rw (le→ltb i 16 h, next) in
    (
      rw (le→ltb i 16 h, next),
      subst (λ y. Follows (suc i) y (fips_word ws ∷ ws)) (sym written)
          (next-Follows i x ws f (fips_word ws)),
    )

abbrev sixteen_and : ℕ → ℕ
sixteen_and zero = 16
sixteen_and (suc n) = suc (sixteen_and n)

sixteen_and_lem : (n : ℕ) → 16 ≤ sixteen_and n
sixteen_and_lem zero = omega arith
sixteen_and_lem (suc n) = omega (arith, sixteen_and_lem n)

record Later (n : ℕ) (block : List ℕ) : Type 0 where
  words : used (sixteen_and n) (load_words 16 block) ≡ fips_words n (load_words 16 block)
  follows :
      Follows
        (sixteen_and n)
        (x_at (sixteen_and n) (load_words 16 block))
        (fips_words n (load_words 16 block))

later : (n : ℕ) (block : List ℕ) → Later n block
unfolding used x_at fips_words
later zero block =
    let (x, words) = first_sixteen block in
    record {
      words = words;
      follows =
          subst (λ y. Follows 16 y (reverse_onto (load_words 16 block) [])) (sym x)
            (sixteen-Follows (load_words 16 block) (length-load_words 16 block));
    }
later (suc n) block =
    let before = later n block in
    let (word, follows) =
      step_by_M (sixteen_and n) (x_at (sixteen_and n) (load_words 16 block))
        (fips_words n (load_words 16 block)) (sixteen_and_lem n) before.follows in
    record { words = ap₂ (λ w ws. w ∷ ws) word before.words; follows = follows }

-- The words of the eighty calls.
pub used_are_fips_words :
    (block : List ℕ) → used 80 (load_words 16 block) ≡ fips_words 64 (load_words 16 block)
used_are_fips_words block = (later 64 block).words
