-- ===== src/Base64/Sextets.antt =====
-- The bit operations of `base64_encode` in arithmetic.
use Prim.Native.Nat.{bit_and, min}
use a_nother_ws.Prelude.{◌∙◌, ap, ℕ, ◌+◌, ◌*◌, ◌/◌, ◌%◌, ◌<◌, ◌≡◌, arith}
use a_nother_ws.Prelude.Bits.{bit_and_step, bit_and_low4, bit_and_low2}
use a_nother_ws.Base64.{first_sextet, second_sextet, third_sextet, fourth_sextet}

low2 : (a : ℕ) → bit_and a 3 ≡ a % 4
low2 a = bit_and_low2 a

low6 : (a : ℕ) → bit_and a 0x3f ≡ a % 64
low6 a = omega (arith, bit_and_step a 63, bit_and_step (a / 2) 31, bit_and_low4 (a / 2 / 2))

-- A mask that is shifted left picks the same bits of a number that is shifted right.
shift1 : (a m : ℕ) → bit_and a (m * 2) ≡ bit_and (a / 2) m * 2
shift1 a m =
    let half : m * 2 / 2 ≡ m = omega arith in
    let even : m * 2 % 2 ≡ 0 = omega arith in
    bit_and_step a (m * 2)
    ∙ ap (λ k. bit_and (a / 2) k * 2 + min (a % 2) (m * 2 % 2)) half
    ∙ ap (λ k. bit_and (a / 2) m * 2 + min (a % 2) k) even
    ∙ omega arith

shift2 : (a m : ℕ) → bit_and a (m * 4) ≡ bit_and (a / 4) m * 4
shift2 a m =
    let twice : m * 4 ≡ m * 2 * 2 = omega arith in
    let quarter : a / 2 / 2 ≡ a / 4 = omega arith in
    ap (bit_and a) twice
    ∙ shift1 a (m * 2)
    ∙ ap (λ k. k * 2) (shift1 (a / 2) m ∙ ap (λ k. bit_and k m * 2) quarter)
    ∙ omega arith

shift4 : (a m : ℕ) → bit_and a (m * 16) ≡ bit_and (a / 16) m * 16
shift4 a m =
    let twice : m * 16 ≡ m * 4 * 4 = omega arith in
    let sixteenth : a / 4 / 4 ≡ a / 16 = omega arith in
    ap (bit_and a) twice
    ∙ shift2 a (m * 4)
    ∙ ap (λ k. k * 4) (shift2 (a / 4) m ∙ ap (λ k. bit_and k m * 4) sixteenth)
    ∙ omega arith

high2 : (a : ℕ) → bit_and a 0xc0 ≡ a / 64 % 4 * 64
high2 a =
    let all : a / 16 / 4 ≡ a / 64 = omega arith in
    shift4 a 12
    ∙ ap (λ k. k * 16) (shift2 (a / 16) 3 ∙ ap (λ k. k * 4) (bit_and_low2 (a / 16 / 4)))
    ∙ ap (λ k. k % 4 * 4 * 16) all
    ∙ omega arith

high4 : (a : ℕ) → bit_and a 0xf0 ≡ a / 16 % 16 * 16
high4 a = shift4 a 15 ∙ ap (λ k. k * 16) (bit_and_low4 (a / 16))

high6 : (a : ℕ) → bit_and a 0xfc ≡ a / 4 % 64 * 4
high6 a = shift2 a 63 ∙ ap (λ k. k * 4) (low6 (a / 4))

pub first_sextet_lem : (a : ℕ) → a < 256 → first_sextet a ≡ a / 4
unfolding first_sextet
first_sextet_lem a h = omega (arith, high6 a)

pub second_sextet_lem : (a b : ℕ) → a < 256 → b < 256 → second_sextet a b ≡ a % 4 * 16 + b / 16
unfolding second_sextet
second_sextet_lem a b h k = omega (arith, low2 a, high4 b)

pub third_sextet_lem : (b c : ℕ) → b < 256 → c < 256 → third_sextet b c ≡ b % 16 * 4 + c / 64
unfolding third_sextet
third_sextet_lem b c h k = omega (arith, bit_and_low4 b, high2 c)

pub fourth_sextet_lem : (c : ℕ) → fourth_sextet c ≡ c % 64
unfolding fourth_sextet
fourth_sextet_lem c = omega (arith, low6 c)
