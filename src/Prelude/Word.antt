-- ===== src/Prelude/Word.antt =====
-- Machine words as native numbers: casts, shifts and the wrapping operations of `size_t`.
use Prim.Native.Nat.{ℕ, ◌+◌, ◌-◌, ◌*◌, ◌/◌, ◌%◌, ◌^◌, ◌≤◌, ◌<◌}
use mathlib.Core.Path.{◌≡◌}
use native.Mathlib.Omega.{arith}

abbrev pub u8 : ℕ → ℕ
u8 n = n % 2 ^ 8

abbrev pub u16 : ℕ → ℕ
u16 n = n % 2 ^ 16

abbrev pub u32 : ℕ → ℕ
u32 n = n % 2 ^ 32

infixl 75 ◌<<<◌ ◌>>>◌
abbrev pub ◌<<<◌ : ℕ → ℕ → ℕ
x <<< k = x * 2 ^ k

abbrev pub ◌>>>◌ : ℕ → ℕ → ℕ
x >>> k = x / 2 ^ k

-- `a + b` and `a - b` in `size_t`.
unfoldable pub size_add : ℕ → ℕ → ℕ
size_add a b = (a + b) % 2 ^ 64

unfoldable pub size_sub : ℕ → ℕ → ℕ
size_sub a b = (a + 2 ^ 64 - b) % 2 ^ 64

pub size_add_lem : (a b : ℕ) → a + b < 2 ^ 64 → size_add a b ≡ a + b
unfolding size_add
size_add_lem a b h = omega arith

pub size_sub_lem : (a b : ℕ) → b ≤ a → a < 2 ^ 64 → size_sub a b ≡ a - b
unfolding size_sub
size_sub_lem a b h k = omega arith
