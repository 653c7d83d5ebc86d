-- ===== src/Membuf/Growth.antt =====
-- The doubling loop of `membuf_reserve`: when it ends, and when it never does.
use a_nother_ws.Prelude.{
  ℕ, zero, suc, ◌+◌, ◌*◌, ◌^◌, ◌≤◌, ◌<◌, ◌≡◌, refl, ◌∙◌, ap, sym, none, some, inl, inr, arith,
  lt→ltb, le→ltb, le_or_lt,
}
use a_nother_ws.Prelude.Word.{u32}
use a_nother_ws.Membuf.{Membuf, double_until, doublings, first_size}
use native.Mathlib.Nat.{pow-suc}

double_until-suc :
    (fuel new need : ℕ)
    → new < need
    → double_until (suc fuel) new need ≡ double_until fuel (u32 (new * 2)) need
unfolding double_until
double_until-suc fuel new need short = rw (lt→ltb new need short)

double_until_enough : (fuel new need : ℕ) → need ≤ new → double_until (suc fuel) new need ≡ some new
unfolding double_until
double_until_enough fuel new need enough = rw (le→ltb new need enough)

-- Within `k` doublings of a positive size the loop reaches a need of at most 2 ^ 31.
double_until_reaches :
    (k new need : ℕ)
    → 0 < new
    → new < 2 ^ 32
    → need ≤ 2 ^ 31
    → need ≤ new * 2 ^ k
    → (r : ℕ) × (double_until (suc k) new need ≡ some r) × (need ≤ r) × (r < 2 ^ 32)
double_until_reaches zero new need pos word small reach =
    (new, double_until_enough zero new need (omega arith), omega arith, word)
double_until_reaches (suc k) new need pos word small reach = elim (le_or_lt need new) [
  | inl enough ↦ (new, double_until_enough (suc k) new need enough, enough, word)
  | inr short ↦
      let exact : u32 (new * 2) ≡ new * 2 = omega arith in
      let reach' : need ≤ new * 2 * 2 ^ k = omega (arith, ap (λ (t : ℕ). new * t) (pow-suc 2 k)) in
      let (r, e, big, fits) =
        double_until_reaches k (new * 2) need (omega arith) (omega arith) small reach' in
      (
        r,
        double_until-suc (suc k) new need short ∙ ap (λ n. double_until (suc k) n need) exact ∙ e,
        big,
        fits,
      )
]

-- From 0 the loop never ends.
double_until_stuck : (fuel need : ℕ) → 0 < need → double_until fuel 0 need ≡ none
unfolding double_until
double_until_stuck zero need pos = refl
double_until_stuck (suc fuel) need pos =
    double_until-suc fuel 0 need pos ∙ double_until_stuck fuel need pos

-- `reserve` with the fuel of its loop as a variable: more fuel changes nothing.
pub double_until_more :
    (fuel new need : ℕ) {r : ℕ}
    → double_until fuel new need ≡ some r
    → double_until (suc fuel) new need ≡ some r
unfolding double_until
double_until_more zero new need e = cc
double_until_more (suc fuel) new need e = elim (le_or_lt need new) [
  | inl enough ↦
      double_until_enough (suc fuel) new need enough
      ∙ sym (double_until_enough fuel new need enough)
      ∙ e
  | inr short ↦
      double_until-suc (suc fuel) new need short
      ∙ double_until_more fuel (u32 (new * 2)) need (sym (double_until-suc fuel new need short) ∙ e)
]

pub first_size_reaches :
    (buf : Membuf) (extra : ℕ)
    → buf.size ≤ buf.buffer_size
    → buf.size + extra ≤ 2 ^ 31
    → buf.buffer_size < buf.size + extra
    → (r : ℕ) × (double_until doublings (first_size buf extra) (buf.size + extra) ≡ some r)
      × (buf.size + extra ≤ r)
      × (r < 2 ^ 32)
first_size_reaches buf extra fits small short =
    double_until_reaches 32 (first_size buf extra) (buf.size + extra) (ground arith) (ground arith)
      small (ground arith)

-- A block of 2 ^ 31 bytes cannot grow: doubling it gives 0 as a `uint`, and the loop that doubles
-- 0 up to the size needed runs without end, whatever number of rounds it is given. The block is of
-- 2 ^ 31 bytes, and the size needed is above it and below 2 ^ 32.
pub reserve_hangs :
    (fuel : ℕ) (buf : Membuf) (extra : ℕ)
    → buf.buffer_size ≡ 2 ^ 31
    → 2 ^ 31 < buf.size + extra
    → buf.size + extra < 2 ^ 32
    → double_until fuel (first_size buf extra) (u32 (buf.size + extra)) ≡ none
reserve_hangs fuel buf extra full big word =
    let wrapped : first_size buf extra ≡ 0 = ground arith in
    ap (λ n. double_until fuel n (u32 (buf.size + extra))) wrapped
    ∙ double_until_stuck fuel (u32 (buf.size + extra)) (omega arith)
