-- ===== src/Timer/Maps.antt =====
-- The laws of the buckets and of the two maps of the timer.
use io_reactor.Prelude.{
  ℕ, ◌≤◌, ◌<◌, true, false, none, List, [], ◌∷◌, ◌≡◌, refl, arith, ltb, ◌==◌, if◌then◌else◌,
  Bool-cases, inl, inr, All, All-map, length,
}
use io_reactor.Timer.{
  is_in, add, erase, Buckets, find, put, erase_time, Times, time_of, erase_object, erase_objects,
}

pub is_in-erase :
    (o p : ℕ) (xs : List ℕ) → is_in p (erase o xs) ≡ (if o == p then false else is_in p xs)
unfolding is_in erase
is_in-erase o p [] = ground arith
is_in-erase o p (x ∷ xs) = ground (arith, is_in-erase o p xs)

pub is_in-add : (o p : ℕ) (xs : List ℕ) → is_in p (add o xs) ≡ (if o == p then true else is_in p xs)
unfolding is_in add
is_in-add o p xs = ground arith

pub find-put :
    (t u : ℕ) (b : List ℕ) (m : Buckets) → find u (put t b m) ≡ (if t == u then b else find u m)
unfolding find put
find-put t u b [] = ground arith
find-put t u b ((v, c) ∷ m) = ground (arith, find-put t u b m)

pub find-erase_time :
    (t u : ℕ) (m : Buckets) → find u (erase_time t m) ≡ (if t == u then [] else find u m)
unfolding find erase_time
find-erase_time t u [] = ground arith
find-erase_time t u ((v, c) ∷ m) = ground (arith, find-erase_time t u m)

pub time_of-erase_object :
    (o p : ℕ) (m : Times) → time_of p (erase_object o m) ≡ (if o == p then none else time_of p m)
unfolding time_of erase_object
time_of-erase_object o p [] = ground arith
time_of-erase_object o p ((q, t) ∷ m) = ground (arith, time_of-erase_object o p m)

pub time_of-erase_objects :
    (os : List ℕ) (p : ℕ) (m : Times)
    → time_of p (erase_objects os m) ≡ (if is_in p os then none else time_of p m)
unfolding is_in
time_of-erase_objects [] p m = refl
time_of-erase_objects (o ∷ os) p m =
    ground (arith, time_of-erase_objects os p (erase_object o m), time_of-erase_object o p m)

-- The times ascend.
abbrev pub IsSorted : Buckets → Type 0
IsSorted [] = Unit
IsSorted ((t, b) ∷ m) = All (λ e. t < e.0) m × IsSorted m

-- No bucket is empty.
abbrev pub IsFilled : Buckets → Type 0
IsFilled m = All (λ e. 0 < length e.1) m

All-put :
    (P : ℕ × List ℕ → Type 0) (t : ℕ) (b : List ℕ) (m : Buckets)
    → P (t, b)
    → All P m
    → All P (put t b m)
unfolding put
All-put P t b [] p a = (p, tt)
All-put P t b ((u, c) ∷ m) p (q, a) = elim (Bool-cases (ltb t u)) [
  | inl below ↦ rw below (p, (q, a))
  | inr e ↦ rw e (elim (Bool-cases (t == u)) [
    | inl same ↦ rw same (p, a)
    | inr above ↦ rw above (q, All-put P t b m p a)
  ])
]

pub put-IsSorted : (t : ℕ) (b : List ℕ) (m : Buckets) → IsSorted m → IsSorted (put t b m)
unfolding put
put-IsSorted t b [] s = (tt, tt)
put-IsSorted t b ((u, c) ∷ m) (a, s) = elim (Bool-cases (ltb t u)) [
  | inl below ↦ rw below (
    (
      ground (arith, below),
      All-map (λ e. u < e.0) (λ e. t < e.0) m (λ e q. ground (arith, below, q)) a,
    ),
    (a, s),
  )
  | inr e ↦ rw e (elim (Bool-cases (t == u)) [
    | inl same ↦
        rw same (All-map (λ e. u < e.0) (λ e. t < e.0) m (λ e q. ground (arith, same, q)) a, s)
    | inr above ↦
        rw above (All-put (λ e. u < e.0) t b m (ground (arith, e, above)) a, put-IsSorted t b m s)
  ])
]

All-erase_time : (P : ℕ × List ℕ → Type 0) (t : ℕ) (m : Buckets) → All P m → All P (erase_time t m)
unfolding erase_time
All-erase_time P t [] a = a
All-erase_time P t ((u, c) ∷ m) (q, a) = elim (Bool-cases (t == u)) [
  | inl same ↦ rw same (All-erase_time P t m a)
  | inr other ↦ rw other (q, All-erase_time P t m a)
]

pub erase_time-IsSorted : (t : ℕ) (m : Buckets) → IsSorted m → IsSorted (erase_time t m)
unfolding erase_time
erase_time-IsSorted t [] s = s
erase_time-IsSorted t ((u, c) ∷ m) (a, s) = elim (Bool-cases (t == u)) [
  | inl same ↦ rw same (erase_time-IsSorted t m s)
  | inr other ↦ rw other (All-erase_time (λ e. u < e.0) t m a, erase_time-IsSorted t m s)
]

pub put-IsFilled :
    (t : ℕ) (b : List ℕ) (m : Buckets) → 0 < length b → IsFilled m → IsFilled (put t b m)
put-IsFilled t b m p a = All-put (λ e. 0 < length e.1) t b m p a

pub erase_time-IsFilled : (t : ℕ) (m : Buckets) → IsFilled m → IsFilled (erase_time t m)
erase_time-IsFilled t m a = All-erase_time (λ e. 0 < length e.1) t m a

pub erase_time-put : (t : ℕ) (b : List ℕ) (m : Buckets) → erase_time t (put t b m) ≡ erase_time t m
unfolding put erase_time
erase_time-put t b [] = ground arith
erase_time-put t b ((u, c) ∷ m) = ground (arith, erase_time-put t b m)

pub find-above : (u t : ℕ) (m : Buckets) → u ≤ t → All (λ e. t < e.0) m → find u m ≡ []
unfolding find
find-above u t [] h a = refl
find-above u t ((v, c) ∷ m) h (q, a) = ground (arith, find-above u t m h a, q, h)
