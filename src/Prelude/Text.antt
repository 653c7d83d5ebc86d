-- ===== src/Prelude/Text.antt =====
-- C strings as lists of bytes, and the functions of the C library on them.
use Prim.Native.Nat.{ℕ, zero, suc, ◌+◌, ◌-◌, ◌/◌, ◌%◌}
use Prim.Native.Char.{code}
use Prim.Native.String.{String}
use mathlib.Core.Path.{◌≡◌, refl, sym, ap, ◌∙◌}
use mathlib.Core.Logic.{inl, inr}
use mathlib.Core.Bool.{Bool, true, false, ◌&&◌, ◌||◌}
use mathlib.Core.Option.{Option, none, some}
use mathlib.Core.List.{List, [], ◌∷◌, ◌++◌, append_assoc}
use native.Mathlib.Omega.{arith}
use a_nother_ws.Prelude.Tests.{ltb, leb, ◌==◌, if◌then◌else◌, Bool-cases}
use a_nother_ws.Prelude.Lists.{
  length, take, drop, replicate, take-append-drop, take-append_le, length-append, length-take,
}

-- The bytes of a text that is ASCII.
abbrev pub codes : String → List ℕ
codes String.[] = []
codes (String.◌∷◌ c s) = code c ∷ codes s

abbrev pub crlf : List ℕ
crlf = 13 ∷ 10 ∷ []

-- The C string that a block begins with.
abbrev pub c_string : List ℕ → List ℕ
c_string [] = []
c_string (x ∷ xs) = let rest = c_string xs in if x == 0 then [] else x ∷ rest

abbrev pub starts_with : List ℕ → List ℕ → Bool
starts_with [] text = true
starts_with (p ∷ ps) [] = false
starts_with (p ∷ ps) (x ∷ xs) = let rest = starts_with ps xs in if p == x then rest else false

abbrev pub one_further : Option ℕ → Option ℕ
one_further none = none
one_further (some i) = some (suc i)

-- `strstr`: how far into the text the first occurrence stands.
abbrev pub strstr : List ℕ → List ℕ → Option ℕ
strstr [] ps = if starts_with ps [] then some 0 else none
strstr (x ∷ xs) ps =
    let rest = one_further (strstr xs ps) in if starts_with ps (x ∷ xs) then some 0 else rest

abbrev pub is_space : ℕ → Bool
is_space x = (x == 32) || (leb 9 x && leb x 13)

abbrev pub skip_spaces : List ℕ → List ℕ
skip_spaces [] = []
skip_spaces (x ∷ xs) = let rest = skip_spaces xs in if is_space x then rest else x ∷ xs

-- What stands before the first byte `c`.
abbrev pub before : ℕ → List ℕ → List ℕ
before c [] = []
before c (x ∷ xs) = let rest = before c xs in if x == c then [] else x ∷ rest

-- `%d` of a `ushort`, which has at most five digits.
abbrev pub decimal_with : ℕ → ℕ → List ℕ
decimal_with zero n = []
decimal_with (suc k) n =
    let high = decimal_with k (n / 10) in
    if ltb n 10 then (48 + n) ∷ [] else high ++ ((48 + n % 10) ∷ [])

abbrev pub decimal : ℕ → List ℕ
decimal n = decimal_with 5 n

-- No byte ends the text.
pub data IsText : List ℕ → Type 0 where
  end : IsText []
  next : {x : ℕ} {xs : List ℕ} → (x == 0) ≡ false → IsText xs → IsText (x ∷ xs)

abbrev pub is_text : List ℕ → Bool
is_text [] = true
is_text (x ∷ xs) = let rest = is_text xs in if x == 0 then false else rest

-- The test, for a text that is given.
pub is_text_lem : (xs : List ℕ) → is_text xs ≡ true → IsText xs
is_text_lem [] e = IsText.end
is_text_lem (x ∷ xs) e = elim (Bool-cases (x == 0)) [
  | inl ends ↦ absurd (clash (sym (ap (λ b. if b then false else is_text xs) ends) ∙ e))
  | inr other ↦
      IsText.next other (is_text_lem xs (sym (ap (λ b. if b then false else is_text xs) other) ∙ e))
]
  where
    clash : false ≡ true → ⊥
    clash e = cc

pub c_string-text :
    (text rest : List ℕ) → IsText text → c_string (text ++ rest) ≡ text ++ c_string rest
c_string-text _ rest IsText.end = refl
c_string-text _ rest (IsText.next {x = x} {xs = xs} e t) =
    rw e (ap (λ l. x ∷ l) (c_string-text xs rest t))

starts_with_self : (ps rest : List ℕ) → starts_with ps (ps ++ rest) ≡ true
starts_with_self [] rest = refl
starts_with_self (p ∷ ps) rest = ground (arith, starts_with_self ps rest)

starts_with-take : (ps text : List ℕ) → starts_with ps (take (length ps) text) ≡ starts_with ps text
starts_with-take [] text = refl
starts_with-take (p ∷ ps) [] = refl
starts_with-take (p ∷ ps) (x ∷ xs) = ap (λ b. if p == x then b else false) (starts_with-take ps xs)

-- Only as much of a text as the pattern is long is looked at.
starts_with-same :
    (ps s post : List ℕ) (x : ℕ)
    → starts_with ps (x ∷ (s ++ (ps ++ post))) ≡ starts_with ps (x ∷ (s ++ take (length ps - 1) ps))
starts_with-same [] s post x = refl
starts_with-same (p ∷ ps) s post x =
    let m = length (p ∷ ps) - 1 in
    let whole : take m (p ∷ ps) ++ (drop m (p ∷ ps) ++ post) ≡ (p ∷ ps) ++ post =
      sym (append_assoc (take m (p ∷ ps)) (drop m (p ∷ ps)) post)
      ∙ ap (λ l. l ++ post) (take-append-drop m (p ∷ ps)) in
    let cut : take (length ps) (s ++ ((p ∷ ps) ++ post)) ≡ take (length ps) (s ++ take m (p ∷ ps)) =
      ap (λ l. take (length ps) (s ++ l)) (sym whole)
      ∙ ap (take (length ps)) (sym (append_assoc s (take m (p ∷ ps)) (drop m (p ∷ ps) ++ post)))
      ∙ take-append_le (length ps) (s ++ take m (p ∷ ps)) (drop m (p ∷ ps) ++ post)
          (omega (arith, length-append s (take m (p ∷ ps)), length-take m (p ∷ ps))) in
    sym (starts_with-take (p ∷ ps) (x ∷ (s ++ ((p ∷ ps) ++ post))))
    ∙ ap (λ l. starts_with (p ∷ ps) (x ∷ l)) cut
    ∙ starts_with-take (p ∷ ps) (x ∷ (s ++ take m (p ∷ ps)))

one_further-none : (o : Option ℕ) → one_further o ≡ none → o ≡ none
one_further-none none e = refl
one_further-none (some i) e = cc

some_is_not_none : {i : ℕ} → some i ≡ none → ⊥
some_is_not_none e = cc

-- A pattern is found where it stands, when it does not occur further to the front: not in what is
-- before it, followed by all of the pattern but its last byte.
pub strstr-first :
    (s ps post : List ℕ)
    → strstr (s ++ take (length ps - 1) ps) ps ≡ none
    → strstr (s ++ (ps ++ post)) ps ≡ some (length s)
strstr-first [] [] post e = cc
strstr-first [] (p ∷ ps) post e = rw (starts_with_self (p ∷ ps) post) refl
strstr-first (x ∷ s) ps post e =
    let cut = s ++ take (length ps - 1) ps in
    elim (Bool-cases (starts_with ps (x ∷ cut))) [
      | inl here ↦
          let clash : some 0 ≡ none =
            sym (ap (λ b. if b then some 0 else one_further (strstr cut ps)) here) ∙ e in
          absurd (some_is_not_none clash)
      | inr further ↦
          let later : one_further (strstr cut ps) ≡ none =
            sym (ap (λ b. if b then some 0 else one_further (strstr cut ps)) further) ∙ e in
          rw
            (
              starts_with-same ps s post x ∙ further,
              strstr-first s ps post (one_further-none (strstr cut ps) later),
            )
            refl
    ]

-- A block of zeros.
pub data IsZeros : List ℕ → Type 0 where
  end : IsZeros []
  next : {xs : List ℕ} → IsZeros xs → IsZeros (0 ∷ xs)

pub replicate-IsZeros : (n : ℕ) → IsZeros (replicate n 0)
replicate-IsZeros zero = IsZeros.end
replicate-IsZeros (suc n) = IsZeros.next (replicate-IsZeros n)

pub drop-IsZeros : (n : ℕ) (xs : List ℕ) → IsZeros xs → IsZeros (drop n xs)
drop-IsZeros zero xs z = z
drop-IsZeros (suc n) _ IsZeros.end = IsZeros.end
drop-IsZeros (suc n) _ (IsZeros.next {xs = xs} z) = drop-IsZeros n xs z

pub append-IsZeros : (xs ys : List ℕ) → IsZeros xs → IsZeros ys → IsZeros (xs ++ ys)
append-IsZeros _ ys IsZeros.end z = z
append-IsZeros _ ys (IsZeros.next {xs = xs} w) z = IsZeros.next (append-IsZeros xs ys w z)

pub drop_behind-IsZeros :
    (n : ℕ) (xs ys : List ℕ) → length xs ≡ n → IsZeros ys → IsZeros (drop n (xs ++ ys))
drop_behind-IsZeros n [] ys e z = drop-IsZeros n ys z
drop_behind-IsZeros zero (x ∷ xs) ys e z = absurd (omega arith)
drop_behind-IsZeros (suc n) (x ∷ xs) ys e z = drop_behind-IsZeros n xs ys (omega arith) z

pub c_string-zeros : (xs : List ℕ) → IsZeros xs → c_string xs ≡ []
c_string-zeros _ IsZeros.end = refl
c_string-zeros _ (IsZeros.next z) = refl

pub append-IsText : (xs ys : List ℕ) → IsText xs → IsText ys → IsText (xs ++ ys)
append-IsText _ ys IsText.end t = t
append-IsText _ ys (IsText.next {xs = xs} e u) t = IsText.next e (append-IsText xs ys u t)
