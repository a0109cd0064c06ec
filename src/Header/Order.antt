-- ===== src/Header/Order.antt =====
-- The order of the values of a name.
use io_reactor.Prelude.{ℕ, true, false, none, [], ◌∷◌, ◌≡◌, refl, arith, All, Bool-cases, inl, inr}
use io_reactor.Text.{Bytes, same, same_iff, less}
use io_reactor.Header.{Values, find_value, put_value, erase_value}

less_irrefl : (a : Bytes) → less a a ≡ false
unfolding less
less_irrefl [] = refl
less_irrefl (x ∷ a) = ground (arith, less_irrefl a)

less_trans : (a b c : Bytes) → less a b ≡ true → less b c ≡ true → less a c ≡ true
unfolding less
less_trans [] [] c e f = ground (arith, e)
less_trans [] (y ∷ b) [] e f = ground (arith, f)
less_trans [] (y ∷ b) (z ∷ c) e f = refl
less_trans (x ∷ a) [] c e f = ground (arith, e)
less_trans (x ∷ a) (y ∷ b) [] e f = ground (arith, f)
less_trans (x ∷ a) (y ∷ b) (z ∷ c) e f = ground (arith, e, f, less_trans a b c)

less_total : (a b : Bytes) → same a b ≡ false → less a b ≡ false → less b a ≡ true
unfolding less same
less_total [] [] e f = ground (arith, e)
less_total [] (y ∷ b) e f = ground (arith, f)
less_total (x ∷ a) [] e f = refl
less_total (x ∷ a) (y ∷ b) e f = ground (arith, e, f, less_total a b)

-- The values ascend.
abbrev pub IsSorted : Values → Type 0
IsSorted [] = Unit
IsSorted ((v, i) ∷ vs) = All (λ e. less v e.0 ≡ true) vs × IsSorted vs

pub find_value_below :
    (v : Bytes) (vs : Values) → All (λ e. less v e.0 ≡ true) vs → find_value v vs ≡ none
unfolding find_value
find_value_below v [] a = refl
find_value_below v ((w, i) ∷ vs) (l, a) =
    ground (arith, l, less_irrefl v, same_iff v w, find_value_below v vs a)

All_below :
    (u v : Bytes) (vs : Values)
    → less u v ≡ true
    → All (λ e. less v e.0 ≡ true) vs
    → All (λ e. less u e.0 ≡ true) vs
All_below u v [] l a = tt
All_below u v ((w, i) ∷ vs) l (m, a) = (less_trans u v w l m, All_below u v vs l a)

All-put_value :
    (P : Bytes × ℕ → Type 0) (v : Bytes) (i : ℕ) (vs : Values)
    → ((j : ℕ) (w : Bytes) → P (w, j) → P (w, i))
    → P (v, i)
    → All P vs
    → All P (put_value v i vs)
unfolding put_value
All-put_value P v i [] f p a = (p, tt)
All-put_value P v i ((w, j) ∷ vs) f p (q, a) = elim (Bool-cases (same v w)) [
  | inl here ↦ rw here (f j w q, a)
  | inr e ↦ rw e (elim (Bool-cases (less v w)) [
    | inl before ↦ rw before (p, (q, a))
    | inr after ↦ rw after (q, All-put_value P v i vs f p a)
  ])
]

pub put_value-IsSorted :
    (v : Bytes) (i : ℕ) (vs : Values) → IsSorted vs → IsSorted (put_value v i vs)
unfolding put_value
put_value-IsSorted v i [] s = (tt, tt)
put_value-IsSorted v i ((w, j) ∷ vs) (a, s) = elim (Bool-cases (same v w)) [
  | inl here ↦ rw here (a, s)
  | inr e ↦ rw e (elim (Bool-cases (less v w)) [
    | inl before ↦ rw before ((before, All_below v w vs before a), (a, s))
    | inr after ↦ rw after (
      All-put_value (λ e. less w e.0 ≡ true) v i vs (λ k u l. l) (less_total v w e after) a,
      put_value-IsSorted v i vs s,
    )
  ])
]

All-erase_value :
    (P : Bytes × ℕ → Type 0) (v : Bytes) (vs : Values) → All P vs → All P (erase_value v vs)
unfolding erase_value
All-erase_value P v [] a = a
All-erase_value P v ((w, i) ∷ vs) (p, a) = elim (Bool-cases (same v w)) [
  | inl here ↦ rw here (All-erase_value P v vs a)
  | inr there ↦ rw there (p, All-erase_value P v vs a)
]

pub erase_value-IsSorted : (v : Bytes) (vs : Values) → IsSorted vs → IsSorted (erase_value v vs)
unfolding erase_value
erase_value-IsSorted v [] s = s
erase_value-IsSorted v ((w, i) ∷ vs) (a, s) = elim (Bool-cases (same v w)) [
  | inl here ↦ rw here (erase_value-IsSorted v vs s)
  | inr there ↦
      rw there (All-erase_value (λ e. less w e.0 ≡ true) v vs a, erase_value-IsSorted v vs s)
]
