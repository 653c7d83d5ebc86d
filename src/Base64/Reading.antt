-- ===== src/Base64/Reading.antt =====
-- What `base64_encode` writes can be read back.
use a_nother_ws.Prelude.{
  ℕ, zero, suc, ◌+◌, ◌*◌, ◌/◌, ◌%◌, ◌^◌, ◌≤◌, ◌<◌, ◌≡◌, refl, ◌∙◌, ap, ap₂, sym, List, [], ◌∷◌,
  ◌++◌, append_assoc, append-nil, some, inl, inr, Bool, true, false, ◌&&◌, not, ◌==◌, ==_iff,
  if◌then◌else◌, arith, length, le_or_lt,
}
use a_nother_ws.Prelude.Word.{u32}
use a_nother_ws.Membuf.{Membuf, contents, init}
use a_nother_ws.Membuf.Valid.{IsValid, init-IsValid}
use a_nother_ws.Membuf.Contents.{HasAppended, append_data-HasAppended}
use a_nother_ws.Base64.{
  base64_table, base64_end, first_sextet, second_sextet, third_sextet, fourth_sextet, char_at,
  append_each, encode_groups, base64_encode,
}
use a_nother_ws.Base64.Sextets.{
  first_sextet_lem, second_sextet_lem, third_sextet_lem, fourth_sextet_lem,
}

-- The value of a character is its place in the table.
index_of : ℕ → List ℕ → ℕ
index_of c [] = 0
index_of c (x ∷ xs) = let rest = index_of c xs in if x == c then 0 else suc rest

pub value : ℕ → ℕ
unfolding index_of
value c = index_of c base64_table

-- Four characters with the values `p` and `q` and the characters `c` and `d` are one to three bytes.
pub read_four : (p q c d : ℕ) → List ℕ
unfolding value
read_four p q c d =
    if c == base64_end
    then (p * 4 + q / 16) ∷ []
    else if d == base64_end
    then (p * 4 + q / 16) ∷ (q % 16 * 16 + value c / 4) ∷ []
    else (p * 4 + q / 16) ∷ (q % 16 * 16 + value c / 4) ∷ (value c % 4 * 64 + value d) ∷ []

-- A reader of base64 text.
pub read_base64 : List ℕ → List ℕ
unfolding read_four value
read_base64 (a ∷ b ∷ c ∷ d ∷ rest) = read_four (value a) (value b) c d ++ read_base64 rest
read_base64 text = []

-- The table, tried at every place.
passes : ℕ → Bool
unfolding value
passes i = value (char_at i) == i && (not (char_at i == base64_end) && not (char_at i == 0))

unfoldable pub all_below : ℕ → (ℕ → Bool) → Bool
all_below zero f = true
all_below (suc n) f = f n && all_below n f

both_true : (a b : Bool) → (a && b) ≡ true → (a ≡ true) × (b ≡ true)
both_true true b e = (refl, e)
both_true false b e = cc

pub all_below-lem : (n : ℕ) (f : ℕ → Bool) (i : ℕ) → all_below n f ≡ true → i < n → f i ≡ true
unfolding all_below
all_below-lem zero f i e h = absurd (omega arith)
all_below-lem (suc n) f i e h =
    let (now, rest) = both_true (f n) (all_below n f) e in
    elim (le_or_lt n i) [
      | inl last ↦ ap f (omega arith) ∙ now
      | inr below ↦ all_below-lem n f i rest below
    ]

table_passes : all_below 64 passes ≡ true
unfolding all_below passes value index_of
table_passes = refl

false_of : (b : Bool) → not b ≡ true → b ≡ false
false_of true e = cc
false_of false e = refl

table_at :
    (i : ℕ)
    → i < 64
    → (value (char_at i) ≡ i) × ((char_at i == base64_end) ≡ false) × ((char_at i == 0) ≡ false)
unfolding passes
table_at i h =
    let ends = not (char_at i == base64_end) in
    let (same, others) =
      both_true (value (char_at i) == i) (ends && not (char_at i == 0))
        (all_below-lem 64 passes i table_passes h) in
    let (other, text) = both_true ends (not (char_at i == 0)) others in
    (
      (==_iff (value (char_at i)) i).0 same,
      false_of (char_at i == base64_end) other,
      false_of (char_at i == 0) text,
    )

-- A character of the table has its own value and is not the end mark.
char_at-lem : (i : ℕ) → i < 64 → (value (char_at i) ≡ i) × ((char_at i == base64_end) ≡ false)
char_at-lem i h = let (same, other, text) = table_at i h in (same, other)

-- No character ends the text.
pub char_at_text : (s v : ℕ) → s ≡ v → v < 64 → (char_at s == 0) ≡ false
char_at_text s v e h = let (same, other, text) = table_at s (omega (arith, e)) in text

-- A character for a sextet `s` that is `v`.
read_char :
    (s v : ℕ) → s ≡ v → v < 64 → (value (char_at s) ≡ v) × ((char_at s == base64_end) ≡ false)
read_char s v e h = let (same, other) = char_at-lem s (omega (arith, e)) in (same ∙ e, other)

three_read :
    (a b c : ℕ) (rest : List ℕ)
    → a < 256
    → b < 256
    → c < 256
    → read_base64 (
        char_at (first_sextet a)
        ∷ char_at (second_sextet a b)
        ∷ char_at (third_sextet b c)
        ∷ char_at (fourth_sextet c)
        ∷ rest)
      ≡ a ∷ b ∷ c ∷ read_base64 rest
unfolding read_base64 read_four
three_read a b c rest ha hb hc =
    let (v1, n1) = read_char (first_sextet a) (a / 4) (first_sextet_lem a ha) (omega arith) in
    let (v2, n2) =
      read_char (second_sextet a b) (a % 4 * 16 + b / 16) (second_sextet_lem a b ha hb)
        (omega arith) in
    let (v3, n3) =
      read_char (third_sextet b c) (b % 16 * 4 + c / 64) (third_sextet_lem b c hb hc)
        (omega arith) in
    let (v4, n4) = read_char (fourth_sextet c) (c % 64) (fourth_sextet_lem c) (omega arith) in
    rw (n3, n4, v1, v2, v3, v4)
      (ap₂ ◌∷◌ (omega arith) (ap₂ ◌∷◌ (omega arith) (ap (λ x. x ∷ read_base64 rest) (omega arith))))

two_read :
    (a b : ℕ)
    → a < 256
    → b < 256
    → read_base64 (
        char_at (first_sextet a)
        ∷ char_at (second_sextet a b)
        ∷ char_at (third_sextet b 0)
        ∷ base64_end
        ∷ [])
      ≡ a ∷ b ∷ []
unfolding read_base64 read_four
two_read a b ha hb =
    let (v1, n1) = read_char (first_sextet a) (a / 4) (first_sextet_lem a ha) (omega arith) in
    let (v2, n2) =
      read_char (second_sextet a b) (a % 4 * 16 + b / 16) (second_sextet_lem a b ha hb)
        (omega arith) in
    let (v3, n3) =
      read_char (third_sextet b 0) (b % 16 * 4)
        (third_sextet_lem b 0 hb (omega arith) ∙ omega arith) (omega arith) in
    rw (n3, v1, v2, v3) (ap₂ ◌∷◌ (omega arith) (ap (λ x. x ∷ []) (omega arith)))

one_read :
    (a : ℕ)
    → a < 256
    → read_base64
        (char_at (first_sextet a) ∷ char_at (second_sextet a 0) ∷ base64_end ∷ base64_end ∷ [])
      ≡ a ∷ []
unfolding read_base64 read_four
one_read a ha =
    let (v1, n1) = read_char (first_sextet a) (a / 4) (first_sextet_lem a ha) (omega arith) in
    let (v2, n2) =
      read_char (second_sextet a 0) (a % 4 * 16)
        (second_sextet_lem a 0 ha (omega arith) ∙ omega arith) (omega arith) in
    rw (v1, v2) (ap (λ x. x ∷ []) (omega arith))

append_each-HasAppended :
    (cs : List ℕ) (buf : Membuf)
    → IsValid buf
    → buf.size + length cs ≤ 2 ^ 31
    → (out : Membuf) × (append_each buf cs ≡ some out) × HasAppended buf cs out
unfolding append_each
append_each-HasAppended [] buf v small = (
  buf,
  refl,
  record {
    valid = v;
    added = sym (append-nil (contents buf));
    new_size = omega arith;
    same_flag = refl;
  },
)
append_each-HasAppended (c ∷ cs) buf v small =
    let (next, e, a) = append_data-HasAppended buf (c ∷ []) v (omega arith) in
    let (out, e', b) = append_each-HasAppended cs next a.valid (omega (arith, a.new_size)) in
    (
      out,
      rw e e',
      record {
        valid = b.valid;
        added = b.added ∙ ap (λ l. l ++ cs) a.added ∙ append_assoc (contents buf) (c ∷ []) cs;
        new_size = omega (arith, a.new_size, b.new_size);
        same_flag = b.same_flag ∙ a.same_flag;
      },
    )

abbrev pub IsBytes : List ℕ → Type 0
IsBytes [] = Unit {0}
IsBytes (x ∷ xs) = (x < 256) × IsBytes xs

-- Text that reads as these bytes has been added.
pub record HasEncoded (bytes : List ℕ) (buf out : Membuf) : Type 0 where
  pub text : List ℕ
  pub valid : IsValid out
  pub added : contents out ≡ contents buf ++ text
  pub reads : read_base64 text ≡ bytes

last_group :
    (bytes text : List ℕ) (buf : Membuf)
    → IsValid buf
    → buf.size + length text ≤ 2 ^ 31
    → read_base64 text ≡ bytes
    → (out : Membuf) × (append_each buf text ≡ some out) × HasEncoded bytes buf out
last_group bytes text buf v small e =
    let (out, r, a) = append_each-HasAppended text buf v small in
    (out, r, record { text = text; valid = a.valid; added = a.added; reads = e })

pub read_base64-nil : read_base64 [] ≡ []
unfolding read_base64
read_base64-nil = refl

encode_groups-HasEncoded :
    (bytes : List ℕ) (buf : Membuf)
    → IsBytes bytes
    → IsValid buf
    → buf.size + 2 * length bytes + 4 ≤ 2 ^ 31
    → (out : Membuf) × (encode_groups buf bytes ≡ some out) × HasEncoded bytes buf out
unfolding encode_groups
encode_groups-HasEncoded [] buf all v small = (
  buf,
  refl,
  record { text = []; valid = v; added = sym (append-nil (contents buf)); reads = read_base64-nil },
)
encode_groups-HasEncoded (a ∷ []) buf (ha, all) v small =
    last_group (a ∷ [])
      (char_at (first_sextet a) ∷ char_at (second_sextet a 0) ∷ base64_end ∷ base64_end ∷ []) buf v
      (omega arith) (one_read a ha)
encode_groups-HasEncoded (a ∷ b ∷ []) buf (ha, (hb, all)) v small =
    last_group (a ∷ b ∷ [])
      (char_at (first_sextet a)
        ∷ char_at (second_sextet a b)
        ∷ char_at (third_sextet b 0)
        ∷ base64_end
        ∷ [])
      buf v (omega arith) (two_read a b ha hb)
encode_groups-HasEncoded (a ∷ b ∷ c ∷ rest) buf (ha, (hb, (hc, all))) v small =
    let group =
      char_at (first_sextet a)
      ∷ char_at (second_sextet a b)
      ∷ char_at (third_sextet b c)
      ∷ char_at (fourth_sextet c)
      ∷ [] in
    let (next, e, added) = append_each-HasAppended group buf v (omega arith) in
    let (out, e', h) =
      encode_groups-HasEncoded rest next all added.valid (omega (arith, added.new_size)) in
    (
      out,
      rw e e',
      record {
        text = group ++ h.text;
        valid = h.valid;
        added =
            h.added ∙ ap (λ l. l ++ h.text) added.added ∙ append_assoc (contents buf) group h.text;
        reads = three_read a b c h.text ha hb hc ∙ ap (λ l. a ∷ b ∷ c ∷ l) h.reads;
      },
    )

-- What base64_encode writes reads back as the bytes it was given. It returns, and a reader of base64
-- text that looks up each character in the table and takes the bytes out of four of them at a time,
-- with `=` where there are none, finds the bytes in the buffer. The bytes are below 256, and their
-- number and two is at most 2 ^ 30.
pub base64_encode_reads_back :
    (bytes : List ℕ)
    → IsBytes bytes
    → length bytes + 2 ≤ 2 ^ 30
    → (out : Membuf) × (base64_encode bytes ≡ some out) × (read_base64 (contents out) ≡ bytes)
unfolding base64_encode init
base64_encode_reads_back bytes all small =
    let buf = init (u32 (length bytes * 3)) in
    let (out, e, h) =
      encode_groups-HasEncoded bytes buf all (init-IsValid (u32 (length bytes * 3)) (omega arith))
        (omega arith) in
    (out, e, ap read_base64 h.added ∙ h.reads)
