-- ===== src/Demuxer/Masks.antt =====
-- The masks that the table can hold, and the laws of their bits, by trying all of them.
use Prim.Native.Nat.{bit_or, bit_xor}
use io_reactor.Prelude.{
  ℕ, Bool, true, false, not, ◌&&◌, ◌||◌, List, [], ◌∷◌, ◌≡◌, refl, sym, subst, ==_iff, arith, ◌==◌,
  if◌then◌else◌, Bool-cases, inl, inr,
}
use io_reactor.Demuxer.{epollin, epollout, epollerr, init_epoll_event_value, has_bit}

unfoldable pub is_one_of : ℕ → List ℕ → Bool
is_one_of x [] = false
is_one_of x (y ∷ ys) = x == y || is_one_of x ys

abbrev pub bits : List ℕ
bits = epollin ∷ epollout ∷ epollerr ∷ []

-- At least one of the three bits is set.
abbrev pub masks : List ℕ
masks = 0x2011 ∷ 0x2014 ∷ 0x2015 ∷ 0x2018 ∷ 0x2019 ∷ 0x201C ∷ 0x201D ∷ []

every : (ℕ → Bool) → List ℕ → Bool
every p [] = true
every p (x ∷ xs) = p x && every p xs

every-is_one_of :
    (p : ℕ → Bool) (x : ℕ) (xs : List ℕ) → every p xs ≡ true → is_one_of x xs ≡ true → p x ≡ true
unfolding every is_one_of
every-is_one_of p x [] a m = ground (arith, m)
every-is_one_of p x (y ∷ ys) a m = elim (Bool-cases (x == y)) [
  | inl same ↦ subst (λ z. p z ≡ true) (sym ((==_iff x y).0 same)) (ground (arith, a))
  | inr other ↦ every-is_one_of p x ys (ground (arith, a)) (ground (arith, m, other))
]

abbrev same : Bool → Bool → Bool
same true b = b
same false b = not b

same_sound : (a b : Bool) → same a b ≡ true → a ≡ b
same_sound true b e = sym e
same_sound false b e = ground (arith, e)

-- What the bits of a mask do when a bit is added to it, or taken off it.
pub record BitLaws (m b c : ℕ) : Type 0 where
  pub added : has_bit (bit_or m b) c ≡ (if b == c then true else has_bit m c)
  pub added_mask : is_one_of (bit_or m b) masks ≡ true
  pub restored : has_bit m b ≡ false → bit_xor (bit_or m b) b ≡ m
  pub flipped : has_bit (bit_xor m b) c ≡ (if b == c then not (has_bit m c) else has_bit m c)
  pub flipped_mask :
      bit_xor m b == init_epoll_event_value ≡ false → is_one_of (bit_xor m b) masks ≡ true
  pub last : bit_xor m b == init_epoll_event_value ≡ true → has_bit (bit_xor m b) c ≡ false
  pub first : has_bit (bit_or init_epoll_event_value b) c ≡ (b == c)
  pub first_mask : is_one_of (bit_or init_epoll_event_value b) masks ≡ true

abbrev law_tests : ℕ → ℕ → ℕ → List Bool
law_tests m b c =
    same (has_bit (bit_or m b) c) (if b == c then true else has_bit m c)
    ∷ is_one_of (bit_or m b) masks
    ∷ (has_bit m b || bit_xor (bit_or m b) b == m)
    ∷ same (has_bit (bit_xor m b) c) (if b == c then not (has_bit m c) else has_bit m c)
    ∷ (bit_xor m b == init_epoll_event_value || is_one_of (bit_xor m b) masks)
    ∷ (not (bit_xor m b == init_epoll_event_value) || not (has_bit (bit_xor m b) c))
    ∷ same (has_bit (bit_or init_epoll_event_value b) c) (b == c)
    ∷ is_one_of (bit_or init_epoll_event_value b) masks
    ∷ []

all_true : List Bool → Bool
all_true [] = true
all_true (b ∷ bs) = b && all_true bs

law_table : every (λ m. every (λ b. every (λ c. all_true (law_tests m b c)) bits) bits) masks ≡ true
unfolding every all_true is_one_of
law_table = refl

law_tests-all_true :
    (m b c : ℕ)
    → is_one_of m masks ≡ true
    → is_one_of b bits ≡ true
    → is_one_of c bits ≡ true
    → all_true (law_tests m b c) ≡ true
law_tests-all_true m b c hm hb hc =
    every-is_one_of (λ c. all_true (law_tests m b c)) c bits
      (every-is_one_of (λ b. every (λ c. all_true (law_tests m b c)) bits) b bits
        (every-is_one_of (λ m. every (λ b. every (λ c. all_true (law_tests m b c)) bits) bits) m
          masks law_table hm)
        hb)
      hc

both : (a b : Bool) → a && b ≡ true → (a ≡ true) × (b ≡ true)
both true true e = (refl, refl)
both true false e = ground (arith, e)
both false b e = ground (arith, e)

unless : (a b : Bool) → a || b ≡ true → a ≡ false → b ≡ true
unless true b e f = ground (arith, f)
unless false b e f = e

not_both : (a b : Bool) → not a || not b ≡ true → a ≡ true → b ≡ false
not_both true true e f = ground (arith, e)
not_both true false e f = refl
not_both false b e f = ground (arith, f)

pub bit_laws :
    (m b c : ℕ)
    → is_one_of m masks ≡ true
    → is_one_of b bits ≡ true
    → is_one_of c bits ≡ true
    → BitLaws m b c
unfolding all_true
bit_laws m b c hm hb hc =
    let (t1, r1) = both _ _ (law_tests-all_true m b c hm hb hc) in
    let (t2, r2) = both _ _ r1 in
    let (t3, r3) = both _ _ r2 in
    let (t4, r4) = both _ _ r3 in
    let (t5, r5) = both _ _ r4 in
    let (t6, r6) = both _ _ r5 in
    let (t7, r7) = both _ _ r6 in
    let (t8, r8) = both _ _ r7 in
    record {
      added = same_sound _ _ t1;
      added_mask = t2;
      restored = λ e. (==_iff _ _).0 (unless _ _ t3 e);
      flipped = same_sound _ _ t4;
      flipped_mask = λ e. unless _ _ t5 e;
      last = λ e. not_both _ _ t6 e;
      first = same_sound _ _ t7;
      first_mask = t8;
    }
