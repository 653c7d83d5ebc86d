-- ===== src/Prelude/Bits.antt =====
-- The bit operations at variables: each is a recursion on binary digits, with a count of digits
-- that is dropped here.
use Prim.Native.Nat.{
  ℕ, zero, suc, ◌+◌, ◌-◌, ◌*◌, ◌/◌, ◌%◌, ◌≤◌, ◌<◌, min, max, differ, digits, bitwise, bit_and,
  bit_or, bit_xor, bit_and-bitwise, bit_or-bitwise, bit_xor-bitwise,
}
use Prim.Native.Nat.add
use mathlib.Core.Path.{◌≡◌, refl, sym, ap, ◌∙◌}
use native.Mathlib.Omega.{arith}

module _ (tail : ℕ → ℕ) (digit : ℕ → ℕ → ℕ) where
  digits_spare : (n x y : ℕ) → x ≤ n → digits tail digit (suc n) x y ≡ digits tail digit n x y
  digits_spare zero zero y h = refl
  digits_spare zero (suc x) y h = absurd (omega arith)
  digits_spare (suc n) zero y h = refl
  digits_spare (suc n) (suc x) y h =
      ap (λ t. t * 2 + digit (suc x % 2) (y % 2)) (digits_spare n (suc x / 2) (y / 2) (omega arith))

  digits_enough : (k x y : ℕ) → digits tail digit (k + x) x y ≡ bitwise tail digit x y
  digits_enough zero x y = ap (λ n. digits tail digit n x y) (omega arith)
  digits_enough (suc k) x y =
      ap (λ n. digits tail digit n x y) (add.suc k x)
      ∙ digits_spare (k + x) x y (omega arith)
      ∙ digits_enough k x y

  next_digit :
      (x y : ℕ)
      → bitwise tail digit (suc x) y
        ≡ bitwise tail digit (suc x / 2) (y / 2) * 2 + digit (suc x % 2) (y % 2)
  next_digit x y =
      ap (λ t. t * 2 + digit (suc x % 2) (y % 2))
        (ap (λ n. digits tail digit n (suc x / 2) (y / 2)) (omega arith)
          ∙ digits_enough (x - suc x / 2) (suc x / 2) (y / 2))

-- One equation for the lowest digit.
pub bit_or_step : (x y : ℕ) → bit_or x y ≡ bit_or (x / 2) (y / 2) * 2 + max (x % 2) (y % 2)
bit_or_step zero y = omega (arith, bit_or-bitwise 0 y, bit_or-bitwise 0 (y / 2))
bit_or_step (suc x) y = simp bit_or-bitwise (next_digit (λ r. r) max x y)

pub bit_and_step : (x y : ℕ) → bit_and x y ≡ bit_and (x / 2) (y / 2) * 2 + min (x % 2) (y % 2)
bit_and_step zero y = omega (arith, bit_and-bitwise 0 y, bit_and-bitwise 0 (y / 2))
bit_and_step (suc x) y = simp bit_and-bitwise (next_digit (λ r. 0) min x y)

pub bit_xor_step : (x y : ℕ) → bit_xor x y ≡ bit_xor (x / 2) (y / 2) * 2 + differ (x % 2) (y % 2)
bit_xor_step zero y = omega (arith, bit_xor-bitwise 0 y, bit_xor-bitwise 0 (y / 2))
bit_xor_step (suc x) y = simp bit_xor-bitwise (next_digit (λ r. r) differ x y)

-- A mask of low ones is a remainder.
and_nothing : (n a : ℕ) → a ≤ n → bit_and a 0 ≡ 0
and_nothing n zero h = refl
and_nothing zero (suc a) h = absurd (omega arith)
and_nothing (suc n) (suc a) h =
    omega (arith, bit_and_step (suc a) 0, and_nothing n (suc a / 2) (omega arith))

pub bit_and_low2 : (a : ℕ) → bit_and a 3 ≡ a % 4
bit_and_low2 a = omega (
  arith,
  bit_and_step a 3,
  bit_and_step (a / 2) 1,
  and_nothing (a / 2 / 2) (a / 2 / 2) (omega arith),
)

pub bit_and_low4 : (a : ℕ) → bit_and a 0x0f ≡ a % 16
bit_and_low4 a = omega (arith, bit_and_step a 15, bit_and_step (a / 2) 7, bit_and_low2 (a / 2 / 2))

pub bit_and_low7 : (a : ℕ) → bit_and a 0x7f ≡ a % 128
bit_and_low7 a = omega (
  arith,
  bit_and_step a 127,
  bit_and_step (a / 2) 63,
  bit_and_step (a / 2 / 2) 31,
  bit_and_low4 (a / 2 / 2 / 2),
)

-- The bits 4 to 6 of a number have no share in its lowest three.
pub bit_and_rsv : (a : ℕ) → bit_and a 0x70 % 8 ≡ 0
bit_and_rsv a =
    omega (arith, bit_and_step a 112, bit_and_step (a / 2) 56, bit_and_step (a / 2 / 2) 28)

-- `|` of fields that do not overlap is a sum: from the width `d` to twice that width.
module _ (d : ℕ) (narrow : (q r : ℕ) → r < d → bit_or (q * d) r ≡ q * d + r) where
  or_wider : (q r : ℕ) → r < 2 * d → bit_or (q * (2 * d)) r ≡ q * (2 * d) + r
  or_wider q r h =
      let half : q * (2 * d) / 2 ≡ q * d = omega arith in
      let even : q * (2 * d) % 2 ≡ 0 = omega arith in
      let first : bit_or (q * (2 * d)) r ≡ bit_or (q * d) (r / 2) * 2 + max 0 (r % 2) =
        bit_or_step (q * (2 * d)) r
        ∙ ap (λ t. bit_or t (r / 2) * 2 + max (q * (2 * d) % 2) (r % 2)) half
        ∙ ap (λ t. bit_or (q * d) (r / 2) * 2 + max t (r % 2)) even in
      omega (arith, first, narrow q (r / 2) (omega arith))

or_none : (n q r : ℕ) → q ≤ n → r < 1 → bit_or (q * 1) r ≡ q * 1 + r
or_none n zero r h k = omega (arith, bit_or-bitwise 0 r)
or_none zero (suc q) r h k = absurd (omega arith)
or_none (suc n) (suc q) r h k =
    let zeroed : r ≡ 0 = omega arith in
    let same : suc q * 1 ≡ suc q = omega arith in
    let next : suc q / 2 * 1 ≡ suc q / 2 = omega arith in
    let deeper : bit_or (suc q / 2) 0 ≡ suc q / 2 =
      ap (λ t. bit_or t 0) (sym next)
      ∙ or_none n (suc q / 2) 0 (omega arith) (omega arith)
      ∙ omega arith in
    ap (λ t. bit_or (suc q * 1) t) zeroed
    ∙ ap (λ t. bit_or t 0) same
    ∙ omega (arith, bit_or_step (suc q) 0, deeper, zeroed)

pub bit_or_low7 : (q r : ℕ) → r < 128 → bit_or (q * 128) r ≡ q * 128 + r
bit_or_low7 = or_wider 64 (
    or_wider 32 (
      or_wider 16
        (or_wider 8 (or_wider 4 (or_wider 2 (or_wider 1 (λ q r. or_none q q r (omega arith))))))))

pub bit_or_low3 : (q r : ℕ) → r < 8 → bit_or (q * 8) r ≡ q * 8 + r
bit_or_low3 = or_wider 4 (or_wider 2 (or_wider 1 (λ q r. or_none q q r (omega arith))))

pub zero-bit_or : (b : ℕ) → bit_or 0 b ≡ b
zero-bit_or b = bit_or-bitwise 0 b

-- `^` twice with the same mask gives the number back.
differ_digits : (x y : ℕ) → x < 2 → y < 2 → (differ x y < 2) × (differ (differ x y) y ≡ x)
differ_digits zero zero h k = (omega arith, refl)
differ_digits zero (suc zero) h k = (omega arith, refl)
differ_digits (suc zero) zero h k = (omega arith, refl)
differ_digits (suc zero) (suc zero) h k = (omega arith, refl)
differ_digits (suc (suc x)) y h k = absurd (omega arith)
differ_digits zero (suc (suc y)) h k = absurd (omega arith)
differ_digits (suc zero) (suc (suc y)) h k = absurd (omega arith)

xor_twice : (n a b : ℕ) → a + b ≤ n → bit_xor (bit_xor a b) b ≡ a
xor_twice zero zero zero h = refl
xor_twice zero zero (suc b) h = absurd (omega arith)
xor_twice zero (suc a) b h = absurd (omega arith)
xor_twice (suc n) a b h =
    let x = bit_xor a b in
    let d = differ_digits (a % 2) (b % 2) (omega arith) (omega arith) in
    let high : x / 2 ≡ bit_xor (a / 2) (b / 2) = omega (arith, bit_xor_step a b, d.0) in
    let low : x % 2 ≡ differ (a % 2) (b % 2) = omega (arith, bit_xor_step a b, d.0) in
    let deeper : bit_xor (x / 2) (b / 2) ≡ a / 2 =
      ap (λ t. bit_xor t (b / 2)) high ∙ xor_twice n (a / 2) (b / 2) (omega arith) in
    let digit : differ (x % 2) (b % 2) ≡ a % 2 = ap (λ t. differ t (b % 2)) low ∙ d.1 in
    omega (arith, bit_xor_step x b, deeper, digit)

pub bit_xor_twice : (a b : ℕ) → bit_xor (bit_xor a b) b ≡ a
bit_xor_twice a b = xor_twice (a + b) a b (omega arith)
