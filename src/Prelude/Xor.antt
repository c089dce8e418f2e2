-- ===== src/Prelude/Xor.antt =====
-- Exclusive or, as a cipher: what it does to the second number can be undone.
use Prim.Native.Nat.{ℕ, zero, suc, ◌/◌, ◌%◌, ◌≤◌, digits, differ, bit_xor, bit_xor-bitwise}
use mathlib.Core.Path.{◌≡◌, refl, sym, ◌∙◌}
use native.Mathlib.Omega.{arith}

differ-le : (x y : ℕ) → x ≤ 1 → y ≤ 1 → differ x y ≤ 1
differ-le zero y h k = k
differ-le (suc zero) zero h k = omega arith
differ-le (suc zero) (suc y) h k = omega arith
differ-le (suc (suc x)) y h k = absurd (omega arith)

differ-cancel : (x y z : ℕ) → x ≤ 1 → y ≤ 1 → z ≤ 1 → differ x y ≡ differ x z → y ≡ z
differ-cancel zero y z h k l e = e
differ-cancel (suc zero) zero zero h k l e = refl
differ-cancel (suc zero) zero (suc z) h k l e = absurd (omega arith)
differ-cancel (suc zero) (suc y) zero h k l e = absurd (omega arith)
differ-cancel (suc zero) (suc y) (suc z) h k l e = omega arith
differ-cancel (suc (suc x)) y z h k l e = absurd (omega arith)

digits-cancel : (n a b c : ℕ) → digits (λ x. x) differ n a b ≡ digits (λ x. x) differ n a c → b ≡ c
digits-cancel zero a b c e = e
digits-cancel (suc n) zero b c e = e
digits-cancel (suc n) (suc a) b c e = omega (
  arith,
  digits-cancel n (suc a / 2) (b / 2) (c / 2) (halves e),
  differ-cancel (suc a % 2) (b % 2) (c % 2) (omega arith) (omega arith) (omega arith) (lows e),
)
  where
    digit-le : (x : ℕ) → differ (suc a % 2) (x % 2) ≤ 1
    digit-le x = differ-le (suc a % 2) (x % 2) (omega arith) (omega arith)

    halves :
        digits (λ x. x) differ (suc n) (suc a) b ≡ digits (λ x. x) differ (suc n) (suc a) c
        → digits (λ x. x) differ n (suc a / 2) (b / 2)
          ≡ digits (λ x. x) differ n (suc a / 2) (c / 2)
    halves q = omega (arith, q, digit-le b, digit-le c)

    lows :
        digits (λ x. x) differ (suc n) (suc a) b ≡ digits (λ x. x) differ (suc n) (suc a) c
        → differ (suc a % 2) (b % 2) ≡ differ (suc a % 2) (c % 2)
    lows q = omega (arith, q, digit-le b, digit-le c)

-- Two numbers that differ still differ once the same number is mixed into both.
pub bit_xor_cancel : (a b c : ℕ) → bit_xor a b ≡ bit_xor a c → b ≡ c
bit_xor_cancel a b c e =
    digits-cancel a a b c (sym (λ i. bit_xor-bitwise a b i) ∙ e ∙ (λ i. bit_xor-bitwise a c i))
