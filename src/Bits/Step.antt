-- ===== src/Bits/Step.antt =====
-- One equation for the lowest digit of each operation, in place of the fuelled recursion on digits
-- by which the native operations are defined.
use Prim.Native.Nat.{
  bit_and, bit_or, bit_xor, differ, digits, bitwise, bit_and-bitwise, bit_or-bitwise,
  bit_xor-bitwise,
}
use io_reactor.Prelude.{ℕ, zero, suc, ◌+◌, ◌*◌, ◌/◌, ◌%◌, ◌≤◌, min, max, ◌≡◌, refl, ap, arith}

module _ (rest : ℕ → ℕ) (digit : ℕ → ℕ → ℕ) where
  -- Any two amounts of fuel that suffice give the same number.
  enough : (a b m n : ℕ) → a ≤ m → a ≤ n → digits rest digit m a b ≡ digits rest digit n a b
  enough a b zero zero hm hn = refl
  enough zero b zero (suc n) hm hn = refl
  enough zero b (suc m) zero hm hn = refl
  enough zero b (suc m) (suc n) hm hn = refl
  enough (suc a) b zero (suc n) hm hn = absurd (omega arith)
  enough (suc a) b (suc m) zero hm hn = absurd (omega arith)
  enough (suc a) b (suc m) (suc n) hm hn =
      let half = suc a / 2 in
      let ih = enough half (b / 2) m n (omega arith) (omega arith) in
      ap (λ (high : ℕ). high * 2 + digit (suc a % 2) (b % 2)) ih

  lowest_digit :
      (a b : ℕ)
      → bitwise rest digit (suc a) b
        ≡ bitwise rest digit (suc a / 2) (b / 2) * 2 + digit (suc a % 2) (b % 2)
  lowest_digit a b =
      let half = suc a / 2 in
      let high = enough half (b / 2) a half (omega arith) (omega arith) in
      ap (λ (h : ℕ). h * 2 + digit (suc a % 2) (b % 2)) high

module _ (rest : ℕ → ℕ) (digit : ℕ → ℕ → ℕ)
    (at_zero : (b : ℕ) → rest b ≡ rest (b / 2) * 2 + digit (0 % 2) (b % 2)) where
  halve :
      (a b : ℕ)
      → bitwise rest digit a b ≡ bitwise rest digit (a / 2) (b / 2) * 2 + digit (a % 2) (b % 2)
  halve zero = at_zero
  halve (suc a) = lowest_digit rest digit a

and_at_zero : (b : ℕ) → 0 ≡ 0 * 2 + min (0 % 2) (b % 2)
and_at_zero b = omega arith

or_at_zero : (b : ℕ) → b ≡ b / 2 * 2 + max (0 % 2) (b % 2)
or_at_zero b = omega arith

xor_at_zero : (b : ℕ) → b ≡ b / 2 * 2 + differ (0 % 2) (b % 2)
xor_at_zero b = omega arith

pub xor_halves : (x y : ℕ) → bit_xor x y ≡ bit_xor (x / 2) (y / 2) * 2 + differ (x % 2) (y % 2)
xor_halves x y = simp bit_xor-bitwise (halve (λ n. n) differ xor_at_zero x y)

pub or_halves : (x y : ℕ) → bit_or x y ≡ bit_or (x / 2) (y / 2) * 2 + max (x % 2) (y % 2)
or_halves x y = simp bit_or-bitwise (halve (λ n. n) max or_at_zero x y)

pub and_halves : (x y : ℕ) → bit_and x y ≡ bit_and (x / 2) (y / 2) * 2 + min (x % 2) (y % 2)
and_halves x y = simp bit_and-bitwise (halve (λ n. 0) min and_at_zero x y)
