-- ===== src/Text/Decimal.antt =====
-- A number that is printed is read back.
use io_reactor.Prelude.{
  ℕ, zero, suc, ◌+◌, ◌-◌, ◌*◌, ◌/◌, ◌%◌, ◌^◌, ◌≤◌, ◌<◌, [], ◌∷◌, ◌≡◌, ◌∙◌, ap, arith, Bool-cases,
  true, false, inl, inr, ◌==◌, All, length, min,
}
use io_reactor.Text.{Bytes, digits, to_string, scan, strtoll, Lacks, is_digit}

-- The digits of `n` before any text.
scan-digits : (fuel n : ℕ) (out : Bytes) → n < fuel → scan (digits fuel n out) 0 ≡ scan out n
unfolding digits scan
scan-digits zero n out h = absurd (omega arith)
scan-digits (suc fuel) n out h = elim (Bool-cases (n / 10 == 0)) [
  | inl e ↦ rw e (ground arith)
  | inr e ↦ rw e (scan-digits fuel (n / 10) ((b'0' + n % 10) ∷ out) (ground arith) ∙ ground arith)
]

abbrev pub IsDigits : Bytes → Type 0
IsDigits = All (λ c. is_digit c ≡ true)

-- A digit and more digits.
abbrev pub IsDecimal : Bytes → Type 0
IsDecimal [] = ¬ Unit
IsDecimal (c ∷ s) = (is_digit c ≡ true) × IsDigits s

digits-IsDecimal : (fuel n : ℕ) (out : Bytes) → IsDigits out → IsDecimal (digits (suc fuel) n out)
unfolding digits
digits-IsDecimal zero n out h = ground (arith, h)
digits-IsDecimal (suc fuel) n out h = elim (Bool-cases (n / 10 == 0)) [
  | inl e ↦ rw e (ground arith, h)
  | inr e ↦ rw e (digits-IsDecimal fuel (n / 10) ((b'0' + n % 10) ∷ out) (ground arith, h))
]

pub to_string-IsDecimal : (n : ℕ) → IsDecimal (to_string n)
unfolding to_string
to_string-IsDecimal n = digits-IsDecimal n n [] tt

strtoll_digits : (s : Bytes) → IsDecimal s → strtoll s ≡ min (scan s 0) (2 ^ 63 - 1)
unfolding strtoll
strtoll_digits [] h = absurd (h tt)
strtoll_digits (c ∷ s) (d, h) = ground (arith, d)

-- A number below 2^63 that is printed is read back.
pub strtoll-to_string : (n : ℕ) → n < 2 ^ 63 → strtoll (to_string n) ≡ n
unfolding to_string scan
strtoll-to_string n h =
    strtoll_digits (to_string n) (to_string-IsDecimal n)
    ∙ ap (λ m. min m (2 ^ 63 - 1)) (scan-digits (suc n) n [] (omega arith))
    ∙ omega (arith, h)

digits-Lacks : (b : ℕ) (s : Bytes) → is_digit b ≡ false → IsDigits s → Lacks b s
digits-Lacks b [] e h = tt
digits-Lacks b (c ∷ s) e (d, h) = (ground (arith, d, e), digits-Lacks b s e h)

decimal-Lacks : (b : ℕ) (s : Bytes) → is_digit b ≡ false → IsDecimal s → Lacks b s
decimal-Lacks b [] e h = tt
decimal-Lacks b (c ∷ s) e (d, h) = (ground (arith, d, e), digits-Lacks b s e h)

-- A printed number has digits only.
pub to_string-Lacks : (b n : ℕ) → is_digit b ≡ false → Lacks b (to_string n)
to_string-Lacks b n e = decimal-Lacks b (to_string n) e (to_string-IsDecimal n)

unfoldable ten_to : ℕ → ℕ
ten_to zero = 1
ten_to (suc k) = 10 * ten_to k

length-digits :
    (fuel k n : ℕ) (out : Bytes)
    → n < ten_to (suc k)
    → length (digits fuel n out) ≤ suc k + length out
unfolding digits ten_to
length-digits zero k n out h = omega arith
length-digits (suc fuel) zero n out h =
    let e : (n / 10 == 0) ≡ true = ground (arith, h) in rw e (omega arith)
length-digits (suc fuel) (suc k) n out h = elim (Bool-cases (n / 10 == 0)) [
  | inl e ↦ rw e (omega arith)
  | inr e ↦
      rw e (omega (arith, length-digits fuel k (n / 10) ((b'0' + n % 10) ∷ out) (omega (arith, h))))
]

-- A number below 2^31 has ten digits at most.
pub length-to_string : (n : ℕ) → n < 2 ^ 31 → length (to_string n) ≤ 10
unfolding to_string ten_to
length-to_string n h = omega (arith, length-digits (suc n) 9 n [] (omega (arith, h)))
