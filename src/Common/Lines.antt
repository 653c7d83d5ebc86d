-- ===== src/Common/Lines.antt =====
-- `read_line`, `parseFilePath` and `strinstr` of src/ws/common.cpp.
use a_nother_ws.Prelude.{
  ℕ, suc, ◌+◌, ◌-◌, ◌≤◌, ◌<◌, ◌≡◌, ◌⊎◌, refl, sym, ap, ◌∙◌, subst, List, [], ◌∷◌, ◌++◌, none, some,
  Bool, true, false, ◌==◌, ==_iff, if◌then◌else◌, length, take, take-all, length-append,
  length-take, append-nil, append_assoc, inl, inr, le_or_lt, lt→ltb, le→ltb, arith, Bool-cases,
}
use a_nother_ws.Common.{
  Fetch, LineResult, keep, read_loop, read_line, last_slash, or_here, parse_file_path,
}

-- The reads give the bytes of a line and its end, with interruptions between them.
pub data GivesLine : List Fetch → List ℕ → Type 0 where
  newline : {fetches : List Fetch} → GivesLine (Fetch.byte 10 ∷ fetches) []
  again :
      {fetches : List Fetch} {text : List ℕ}
      → GivesLine fetches text
      → GivesLine (Fetch.interrupted ∷ fetches) text
  next :
      {ch : ℕ} {fetches : List Fetch} {text : List ℕ}
      → (ch == 10) ≡ false
      → GivesLine fetches text
      → GivesLine (Fetch.byte ch ∷ fetches) (ch ∷ text)

loop_keeps :
    (n : ℕ) (got : List ℕ) (fetches : List Fetch) (text : List ℕ)
    → GivesLine fetches text
    → length got ≤ n - 1
    → read_loop n got fetches ≡ some (LineResult.line (got ++ take (n - 1 - length got) text))
unfolding read_loop
loop_keeps n got _ _ GivesLine.newline h =
    ap (λ l. some (LineResult.line l))
      (sym (ap (λ l. got ++ l) (take-all (n - 1 - length got) [] (omega arith)) ∙ append-nil got))
loop_keeps n got _ text (GivesLine.again {fetches = fs} g) h = loop_keeps n got fs text g h
loop_keeps n got _ _ (GivesLine.next {ch = ch} {fetches = fs} {text = text} e g) h =
    elim (le_or_lt (n - 1) (length got)) [
      | inl full ↦
          let kept : keep n got ch ≡ got =
            ap (λ b. if b then got ++ (ch ∷ []) else got) (le→ltb (length got) (n - 1) full) in
          let none_left : n - 1 - length got ≡ 0 = omega arith in
          rw (e, kept)
            (loop_keeps n got fs text g h
              ∙ ap (λ k. some (LineResult.line (got ++ take k text))) none_left
              ∙ sym (ap (λ k. some (LineResult.line (got ++ take k (ch ∷ text)))) none_left))
      | inr room ↦
          let kept : keep n got ch ≡ got ++ (ch ∷ []) =
            ap (λ b. if b then got ++ (ch ∷ []) else got) (lt→ltb (length got) (n - 1) room) in
          let longer : length (got ++ (ch ∷ [])) ≡ length got + 1 = length-append got (ch ∷ []) in
          let left : n - 1 - length got ≡ suc (n - 1 - length (got ++ (ch ∷ []))) =
            omega (arith, longer) in
          rw (e, kept)
            (loop_keeps n (got ++ (ch ∷ [])) fs text g (omega (arith, longer))
              ∙ ap (λ l. some (LineResult.line l))
                  (append_assoc got (ch ∷ []) (take (n - 1 - length (got ++ (ch ∷ []))) text))
              ∙ sym (ap (λ k. some (LineResult.line (got ++ take k (ch ∷ text)))) left))
    ]

positive : (n : ℕ) → 0 < n → (n == 0) ≡ false
positive n h = ground arith

-- A line is read up to its end, through interruptions: what is in the buffer is its first bytes, all
-- that have room beside the 0 that ends them, and the write stays within the buffer of `n` bytes.
pub read_line_fits :
    (n : ℕ) (fetches : List Fetch) (text : List ℕ)
    → GivesLine fetches text
    → 0 < n
    → (read_line n fetches ≡ some (LineResult.line (take (n - 1) text)))
      × (length (take (n - 1) text) + 1 ≤ n)
unfolding read_line
read_line_fits n fetches text g h =
    let all : n - 1 - 0 ≡ n - 1 = omega arith in
    let read : read_loop n [] fetches ≡ some (LineResult.line (take (n - 1) text)) =
      loop_keeps n [] fetches text g (omega arith)
      ∙ ap (λ k. some (LineResult.line (take k text))) all in
    (
      ap (λ b. if b then some LineResult.failed else read_loop n [] fetches) (positive n h) ∙ read,
      omega (arith, length-take (n - 1) text),
    )

abbrev pub has_slash : List ℕ → Bool
has_slash [] = false
has_slash (x ∷ xs) = let rest = has_slash xs in if x == 47 then true else rest

-- The text before the last slash and behind it.
record IsParted (path : List ℕ) (parts : List ℕ × List ℕ) : Type 0 where
  joined : parts.0 ++ (47 ∷ parts.1) ≡ path
  last : has_slash parts.1 ≡ false

parted :
    (path : List ℕ)
    → ((has_slash path ≡ false) × (last_slash path ≡ none))
      ⊎ ((parts : List ℕ × List ℕ) × (last_slash path ≡ some parts) × IsParted path parts)
unfolding last_slash
parted [] = inl (refl, refl)
parted (x ∷ xs) = elim (parted xs) [
  | inl (no_slash, e) ↦ elim (Bool-cases (x == 47)) [
    | inl here ↦
        let same : 47 ≡ x = sym ((==_iff x 47).0 here) in
        inr
          (([], xs), rw (e, here) refl, record { joined = ap (λ c. c ∷ xs) same; last = no_slash })
    | inr other ↦ inl (rw (other, no_slash) refl, rw (e, other) refl)
  ]
  | inr (parts, e, p) ↦ inr (
    (x ∷ parts.0, parts.1),
    rw e refl,
    record { joined = ap (λ l. x ∷ l) p.joined; last = p.last },
  )
]

-- A path parts at its last slash: the directory, a slash and the file are the path, and the file has
-- no slash. A path without a slash is a file in the directory `.`.
pub path_parts_at_last_slash :
    (path : List ℕ)
    → ((has_slash path ≡ false) × (parse_file_path path ≡ (46 ∷ [], path)))
      ⊎ (((parse_file_path path).0 ++ (47 ∷ (parse_file_path path).1) ≡ path)
          × (has_slash (parse_file_path path).1 ≡ false))
unfolding parse_file_path
path_parts_at_last_slash path = elim (parted path) [
  | inl (no_slash, e) ↦ inl (no_slash, ap (or_here path) e)
  | inr (parts, e, p) ↦ inr (
    subst (λ o. (or_here path o).0 ++ (47 ∷ (or_here path o).1) ≡ path) (sym e) p.joined,
    subst (λ o. has_slash (or_here path o).1 ≡ false) (sym e) p.last,
  )
]
