-- ===== src/Timer/Expiry.antt =====
-- `extract_timeout_objects` takes out what is due, and the poll of the reactor that calls it.
use io_reactor.Prelude.{
  ℕ, suc, ◌≤◌, Bool, true, false, Option, none, some, List, [], ◌∷◌, ◌≡◌, refl, ◌∙◌, arith, ltb,
  if◌then◌else◌, Bool-cases, inl, inr,
}
use io_reactor.Timer.{
  is_in, Buckets, find, Times, time_of, erase_objects, ObjectsTimer, is_due, extract_loop,
  extract_timeout_objects,
}
use io_reactor.Timer.Maps.{time_of-erase_objects, find-above}
use io_reactor.Timer.Agreement.{IsConsistent, is_time, deadline}

abbrev pub any_in : ℕ → List (List ℕ) → Bool
any_in o [] = false
any_in o (b ∷ bs) = if is_in o b then true else any_in o bs

-- What came out of the timer, if every reading of the clock was between `early` and `late`.
pub record Extracted (early late : ℕ) (s : ObjectsTimer) (r : ObjectsTimer × List (List ℕ))
    : Type 0 where
  pub consistent : IsConsistent r.0
  pub kept : (o : ℕ) → any_in o r.1 ≡ false → deadline r.0 o ≡ deadline s o
  pub gone : (o : ℕ) → any_in o r.1 ≡ true → deadline r.0 o ≡ none
  pub due_gone : (o t : ℕ) → deadline s o ≡ some t → is_due early t ≡ true → any_in o r.1 ≡ true
  pub gone_due : (o t : ℕ) → deadline s o ≡ some t → any_in o r.1 ≡ true → is_due late t ≡ true

is_time_self : (t : ℕ) (time : Option ℕ) → time ≡ some t → is_time time t ≡ true
is_time_self t time e = ground (arith, e)

is_time_unique : (t u : ℕ) (time : Option ℕ) → is_time time t ≡ true → time ≡ some u → u ≡ t
is_time_unique t u time e f = ground (arith, e, f)

abbrev timer : Buckets → Times → ObjectsTimer
timer m times = record { time_object = m; object_time = times }

module _ (t : ℕ) (b : List ℕ) (m : Buckets) (times : Times)
    (c : IsConsistent (timer ((t, b) ∷ m) times)) where
  -- The time of an object in the first bucket.
  first_deadline : (o u : ℕ) → is_in o b ≡ true → time_of o times ≡ some u → u ≡ t
  unfolding find
  first_deadline o u e f = is_time_unique t u (time_of o times) (ground (arith, e, c.agree o t)) f

  -- No object has a time before the first bucket's.
  first_is_least : (o u : ℕ) → time_of o times ≡ some u → t ≤ u
  unfolding find is_in
  first_is_least o u e = elim (Bool-cases (ltb u t)) [
    | inl below ↦ ground (
      arith,
      below,
      c.agree o u,
      find-above u t m (ground (arith, below)) c.sorted.0,
      is_time_self u (time_of o times) e,
    )
    | inr e ↦ ground (arith, e)
  ]

  pop-IsConsistent : IsConsistent (timer m (erase_objects b times))
  unfolding find is_in
  pop-IsConsistent = record {
    sorted = c.sorted.1;
    filled = c.filled.1;
    agree = λ o u. ground (
      arith,
      c.agree o u,
      c.agree o t,
      time_of-erase_objects b o times,
      find-above t t m (omega arith) c.sorted.0,
    );
  }

module _ (clock : ℕ → ℕ) (early late : ℕ)
    (bounds : (i : ℕ) → (early ≤ clock i) × (clock i ≤ late)) where
  extract_loop-Extracted :
      (i : ℕ) (m : Buckets) (times : Times)
      → IsConsistent (timer m times)
      → Extracted early late (timer m times) (extract_loop clock i m times)
  unfolding extract_loop find is_in
  extract_loop-Extracted i [] times c = record {
    consistent = c;
    kept = λ o _. refl;
    gone = λ o e. ground (arith, e);
    due_gone = λ o t e _. ground (arith, c.agree o t, is_time_self t (time_of o times) e);
    gone_due = λ o t _ e. ground (arith, e);
  }
  extract_loop-Extracted i ((t, b) ∷ m) times c =
      let ih =
        extract_loop-Extracted (suc i) m (erase_objects b times) (pop-IsConsistent t b m times c) in
      let out = (extract_loop clock (suc i) m (erase_objects b times)).1 in
      elim (Bool-cases (is_due (clock i) t)) [
        | inl due ↦
            rw (due, extract_loop)
              (record {
                consistent = ih.consistent;
                kept = λ o e. ground (arith, e, ih.kept o, time_of-erase_objects b o times);
                gone = λ o e. elim (Bool-cases (is_in o b)) [
                  | inl inside ↦ elim (Bool-cases (any_in o out)) [
                    | inl again ↦ ih.gone o again
                    | inr once ↦
                        ih.kept o once ∙ ground (arith, inside, time_of-erase_objects b o times)
                  ]
                  | inr outside ↦ ih.gone o (ground (arith, outside, e))
                ];
                due_gone = λ o u e f. elim (Bool-cases (is_in o b)) [
                  | inl inside ↦ ground (arith, inside)
                  | inr outside ↦
                      let same : deadline (timer m (erase_objects b times)) o ≡ some u =
                        ground (arith, outside, e, time_of-erase_objects b o times) in
                      ground (arith, outside, ih.due_gone o u same f)
                ];
                gone_due = λ o u e f. elim (Bool-cases (is_in o b)) [
                  | inl inside ↦
                      ground (arith, due, (bounds i).1, first_deadline t b m times c o u inside e)
                  | inr outside ↦
                      ih.gone_due o u (ground (arith, outside, e, time_of-erase_objects b o times))
                        (ground (arith, outside, f))
                ];
              })
        | inr early_yet ↦
            rw (early_yet, extract_loop)
              (record {
                consistent = c;
                kept = λ o _. refl;
                gone = λ o e. ground (arith, e);
                due_gone = λ o u e f.
                    ground (arith, f, early_yet, (bounds i).0, first_is_least t b m times c o u e);
                gone_due = λ o u _ e. ground (arith, e);
              })
      ]

-- On a consistent timer, with readings of the clock between `early` and `late`: extraction leaves a
-- consistent timer, in which the objects that came out have no deadline and the others keep theirs;
-- every object that is due at `early` comes out, and what comes out is due at `late`.
pub extract_timeout_objects-Extracted :
    (clock : ℕ → ℕ) (early late : ℕ) (s : ObjectsTimer)
    → ((i : ℕ) → (early ≤ clock i) × (clock i ≤ late))
    → IsConsistent s
    → Extracted early late s (extract_timeout_objects clock s)
unfolding extract_timeout_objects
extract_timeout_objects-Extracted clock early late s bounds c =
    extract_loop-Extracted clock early late bounds 0 s.time_object s.object_time c
