-- ===== src/Handshake/Heads.antt =====
-- `parse_http_heads` of src/ws/uvutil.cpp on a request that has the header.
use a_nother_ws.Prelude.{
  ℕ, suc, ◌+◌, ◌-◌, ◌≡◌, refl, sym, ap, ◌∙◌, List, [], ◌∷◌, ◌++◌, none, some, Bool, Bool-cases, inl,
  inr, true, false, length, take, drop, arith, append_assoc, append-nil, drop-drop, ◌==◌,
  if◌then◌else◌,
}
use a_nother_ws.Prelude.Text.{
  crlf, c_string, strstr, strstr-first, is_space, skip_spaces, before, IsText, c_string-text,
}
use a_nother_ws.Handshake.{parse_http_heads}

-- No byte is white space.
pub data IsToken : List ℕ → Type 0 where
  end : IsToken []
  next : {x : ℕ} {xs : List ℕ} → is_space x ≡ false → IsToken xs → IsToken (x ∷ xs)

abbrev pub is_token : List ℕ → Bool
is_token [] = true
is_token (x ∷ xs) = let rest = is_token xs in if is_space x then false else rest

-- The test, for a value that is given.
pub is_token_lem : (xs : List ℕ) → is_token xs ≡ true → IsToken xs
is_token_lem [] e = IsToken.end
is_token_lem (x ∷ xs) e = elim (Bool-cases (is_space x)) [
  | inl ends ↦ absurd (clash (sym (ap (λ b. if b then false else is_token xs) ends) ∙ e))
  | inr other ↦
      IsToken.next other
        (is_token_lem xs (sym (ap (λ b. if b then false else is_token xs) other) ∙ e))
]
  where
    clash : false ≡ true → ⊥
    clash e = cc

-- The head of a request: lines, the name of the header, a blank, its value, and more lines.
abbrev pub head_with : List ℕ → List ℕ → List ℕ → List ℕ → List ℕ
head_with pre name key post = pre ++ (name ++ (32 ∷ (key ++ (13 ∷ post))))

drop-exactly : (xs ys : List ℕ) → drop (length xs) (xs ++ ys) ≡ ys
drop-exactly [] ys = refl
drop-exactly (x ∷ xs) ys = drop-exactly xs ys

take-exactly : (xs ys : List ℕ) → take (length xs) (xs ++ ys) ≡ xs
take-exactly [] ys = refl
take-exactly (x ∷ xs) ys = ap (λ l. x ∷ l) (take-exactly xs ys)

IsText-behind : (xs ys : List ℕ) → IsText (xs ++ ys) → IsText ys
IsText-behind [] ys t = t
IsText-behind (x ∷ xs) ys (IsText.next e t) = IsText-behind xs ys t

not_return : (x : ℕ) → is_space x ≡ false → (x == 13) ≡ false
not_return x e = ground arith

before-return : (key post : List ℕ) → IsToken key → before 13 (key ++ (13 ∷ post)) ≡ key
before-return _ post IsToken.end = refl
before-return _ post (IsToken.next {x = x} {xs = xs} e t) =
    rw (not_return x e) (ap (λ l. x ∷ l) (before-return xs post t))

skip-token : (k : ℕ) (xs : List ℕ) → is_space k ≡ false → skip_spaces (k ∷ xs) ≡ k ∷ xs
skip-token k xs e = rw e refl

-- A request that has the header with a blank before its value gives the value, up to the end of
-- its line. The head holds no byte 0, its end and the name do not occur further to the front, and
-- the value is not empty and has no white space.
pub header_is_found :
    (pre name : List ℕ) (k : ℕ) (key post rest : List ℕ)
    → IsText (head_with pre name (k ∷ key) post)
    → strstr (head_with pre name (k ∷ key) post ++ (13 ∷ 10 ∷ 13 ∷ [])) (crlf ++ crlf) ≡ none
    → strstr (pre ++ take (length name - 1) name) name ≡ none
    → IsToken (k ∷ key)
    → parse_http_heads (head_with pre name (k ∷ key) post ++ ((crlf ++ crlf) ++ rest)) name
      ≡ some (k ∷ key)
unfolding parse_http_heads
header_is_found pre name k key post rest text ends first (IsToken.next space token) =
    let head = head_with pre name (k ∷ key) post in
    let base = head ++ ((crlf ++ crlf) ++ rest) in
    let tail = drop (suc (length head)) base in
    let value = (k ∷ key) ++ (13 ∷ post) in
    let cut_at : strstr (c_string base) (crlf ++ crlf) ≡ some (length head) =
      ap (λ l. strstr l (crlf ++ crlf)) (c_string-text head ((crlf ++ crlf) ++ rest) text)
      ∙ strstr-first head (crlf ++ crlf) (c_string rest) ends in
    let block : take (length head) base ++ (0 ∷ tail) ≡ head ++ (0 ∷ tail) =
      ap (λ l. l ++ (0 ∷ tail)) (take-exactly head ((crlf ++ crlf) ++ rest)) in
    let cut : c_string (head ++ (0 ∷ tail)) ≡ head =
      c_string-text head (0 ∷ tail) text ∙ append-nil head in
    let key_at : strstr (c_string (head ++ (0 ∷ tail))) name ≡ some (length pre) =
      ap (λ l. strstr l name) cut ∙ strstr-first pre name (32 ∷ value) first in
    let at_name : drop (length pre) (head ++ (0 ∷ tail)) ≡ (name ++ (32 ∷ value)) ++ (0 ∷ tail) =
      ap (drop (length pre)) (append_assoc pre (name ++ (32 ∷ value)) (0 ∷ tail))
      ∙ drop-exactly pre ((name ++ (32 ∷ value)) ++ (0 ∷ tail)) in
    let behind_name : drop (length name) ((name ++ (32 ∷ value)) ++ (0 ∷ tail))
        ≡ (32 ∷ value) ++ (0 ∷ tail) =
      ap (drop (length name)) (append_assoc name (32 ∷ value) (0 ∷ tail))
      ∙ drop-exactly name ((32 ∷ value) ++ (0 ∷ tail)) in
    let found : drop (length pre + (length name + 1)) (head ++ (0 ∷ tail)) ≡ value ++ (0 ∷ tail) =
      sym (drop-drop (length name + 1) (length pre) (head ++ (0 ∷ tail)))
      ∙ ap (drop (length name + 1)) at_name
      ∙ sym (drop-drop 1 (length name) ((name ++ (32 ∷ value)) ++ (0 ∷ tail)))
      ∙ ap (drop 1) behind_name in
    let whole : c_string (value ++ (0 ∷ tail)) ≡ value =
      c_string-text value (0 ∷ tail) (
        IsText-behind (32 ∷ []) value
          (IsText-behind name (32 ∷ value) (IsText-behind pre (name ++ (32 ∷ value)) text)))
      ∙ append-nil value in
    rw
      (cut_at, block, key_at, found, skip-token k ((key ++ (13 ∷ post)) ++ (0 ∷ tail)) space, whole)
      (ap some (before-return (k ∷ key) post (IsToken.next space token)))
