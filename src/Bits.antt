-- ===== src/Bits.antt =====
-- Laws of the bit operations that the frame code and the event masks use, as arithmetic.
mod Step
use Prim.Native.Nat.{bit_and, bit_or, bit_xor, differ, bit_or-bitwise}
use native.Mathlib.Nat.{pow-suc, div-add-mod}
use Step.{and_halves, or_halves, xor_halves}
use io_reactor.Prelude.{
  ◌-◌, Bool, true, ◌&&◌, ◌==◌, ==_iff, ℕ, zero, suc, ◌+◌, ◌*◌, ◌/◌, ◌%◌, ◌^◌, ◌≤◌, ◌<◌, ◌≡◌, refl,
  ap, ◌∙◌, arith,
}

bit_and-zero_below : (n a : ℕ) → a ≤ n → bit_and a 0 ≡ 0
bit_and-zero_below n zero h = refl
bit_and-zero_below zero (suc a) h = absurd (omega arith)
bit_and-zero_below (suc n) (suc a) h =
    omega (arith, and_halves (suc a) 0, bit_and-zero_below n (suc a / 2) (omega arith))

bit_or-zero_below : (n a : ℕ) → a ≤ n → bit_or a 0 ≡ a
bit_or-zero_below n zero h = refl
bit_or-zero_below zero (suc a) h = absurd (omega arith)
bit_or-zero_below (suc n) (suc a) h =
    omega (arith, or_halves (suc a) 0, bit_or-zero_below n (suc a / 2) (omega arith))

pub bit_and-zero : (a : ℕ) → bit_and a 0 ≡ 0
bit_and-zero a = bit_and-zero_below a a (omega arith)

pub bit_or-zero : (a : ℕ) → bit_or a 0 ≡ a
bit_or-zero a = bit_or-zero_below a a (omega arith)

pub zero-bit_or : (a : ℕ) → bit_or 0 a ≡ a
zero-bit_or a = bit_or-bitwise 0 a

-- `|` of a high field and a low one is their sum.
pub bit_or_parts : (k hi lo : ℕ) → lo < 2 ^ k → bit_or (hi * 2 ^ k) lo ≡ hi * 2 ^ k + lo
bit_or_parts zero hi lo h = ground (arith, bit_or-zero hi)
bit_or_parts (suc k) hi lo h = ground (
  arith,
  or_halves (hi * 2 ^ suc k) lo,
  pow-suc 2 k,
  ap (λ (t : ℕ). hi * t) (pow-suc 2 k),
  bit_or_parts k hi (lo / 2) (omega (arith, pow-suc 2 k)),
)

-- `& (2 ^ k - 1)` is the remainder; here for the masks 1, 15, 127 and 255.
pub bit_and_one : (a : ℕ) → bit_and a 1 ≡ a % 2
bit_and_one a = omega (arith, and_halves a 1, bit_and-zero (a / 2))

bit_and_three : (a : ℕ) → bit_and a 3 ≡ a % 4
bit_and_three a = omega (arith, and_halves a 3, bit_and_one (a / 2))

pub bit_and_fifteen : (a : ℕ) → bit_and a 15 ≡ a % 16
bit_and_fifteen a = omega (arith, and_halves a 15, and_halves (a / 2) 7, bit_and_three (a / 2 / 2))

bit_and_thirty_one : (a : ℕ) → bit_and a 31 ≡ a % 32
bit_and_thirty_one a = omega (arith, and_halves a 31, bit_and_fifteen (a / 2))

pub bit_and_127 : (a : ℕ) → bit_and a 127 ≡ a % 128
bit_and_127 a =
    omega (arith, and_halves a 127, and_halves (a / 2) 63, bit_and_thirty_one (a / 2 / 2))

pub bit_and_255 : (a : ℕ) → bit_and a 255 ≡ a % 256
bit_and_255 a = omega (arith, and_halves a 255, bit_and_127 (a / 2))

-- Two digits differ back to the first.
differ_digits : (x y : ℕ) → x < 2 → y < 2 → (differ (differ x y) y ≡ x) × (differ x y < 2)
differ_digits zero zero p q = (refl, omega arith)
differ_digits zero (suc zero) p q = (refl, omega arith)
differ_digits (suc zero) zero p q = (refl, omega arith)
differ_digits (suc zero) (suc zero) p q = (refl, omega arith)
differ_digits zero (suc (suc y)) p q = absurd (omega arith)
differ_digits (suc zero) (suc (suc y)) p q = absurd (omega arith)
differ_digits (suc (suc x)) y p q = absurd (omega arith)

bit_xor_twice_below : (n a b : ℕ) → a ≤ n → b ≤ n → bit_xor (bit_xor a b) b ≡ a
bit_xor_twice_below zero zero zero p q = refl
bit_xor_twice_below zero (suc a) b p q = absurd (omega arith)
bit_xor_twice_below zero a (suc b) p q = absurd (omega arith)
bit_xor_twice_below (suc n) a b p q =
    let hi = bit_xor (a / 2) (b / 2) in
    let lo = differ (a % 2) (b % 2) in
    let digits = differ_digits (a % 2) (b % 2) (omega arith) (omega arith) in
    let e : bit_xor a b ≡ hi * 2 + lo = xor_halves a b in
    let up : bit_xor a b / 2 ≡ hi = omega (arith, digits.1) in
    let low : bit_xor a b % 2 ≡ lo = omega (arith, digits.1) in
    xor_halves (bit_xor a b) b
    ∙ rw (up, low)
        (omega (arith, digits.0, bit_xor_twice_below n (a / 2) (b / 2) (omega arith) (omega arith)))

-- Masking twice with one byte gives back the byte.
pub bit_xor_twice : (a b : ℕ) → bit_xor (bit_xor a b) b ≡ a
bit_xor_twice a b = bit_xor_twice_below (a + b) a b (omega arith) (omega arith)

-- `|` of a number with `k` low zeros and one of `k` bits.
pub bit_or_disjoint : (k hi lo : ℕ) → hi % 2 ^ k ≡ 0 → lo < 2 ^ k → bit_or hi lo ≡ hi + lo
bit_or_disjoint k hi lo h l =
    let e : hi / 2 ^ k * 2 ^ k ≡ hi = grind (arith, div-add-mod hi (2 ^ k)) in
    rw e at (bit_or_parts k (hi / 2 ^ k) lo l)

-- A property of bytes, checked at every byte.
every_byte : ℕ → (ℕ → Bool) → Bool
every_byte zero p = true
every_byte (suc n) p = p n && every_byte n p

every_byte_sound : (n : ℕ) (p : ℕ → Bool) (b : ℕ) → every_byte n p ≡ true → b < n → p b ≡ true
unfolding every_byte
every_byte_sound zero p b h l = absurd (omega arith)
every_byte_sound (suc n) p b h l = ground (arith, every_byte_sound n p b)

-- `& ~0x80` on a byte, with `~0x80` as a 32-bit int.
low_seven_table : every_byte 256 (λ b. bit_and b (2 ^ 32 - 1 - 0x80) == b % 128) ≡ true
unfolding every_byte
low_seven_table = refl

pub low_seven_bits : (b : ℕ) → b < 256 → bit_and b (2 ^ 32 - 1 - 0x80) ≡ b % 128
low_seven_bits b h = (==_iff _ _).0 (every_byte_sound 256 _ b low_seven_table h)
