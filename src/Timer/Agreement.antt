-- ===== src/Timer/Agreement.antt =====
-- The two maps of the timer say the same: an object is in the bucket of its time, and in no other.
use io_reactor.Prelude.{
  ℕ, ◌+◌, ◌*◌, ◌<◌, Bool, true, false, ◌&&◌, Option, none, some, List, [], ◌∷◌, ◌≡◌, refl, sym, ◌∙◌,
  subst, arith, ◌==◌, if◌then◌else◌, Bool-cases, Option-cases, inl, inr, length,
}
use io_reactor.Timer.{
  is_in, add, erase, Buckets, find, put, time_of, ObjectsTimer, is_empty, remove_found, remove_at,
  remove_timeout, register_timeout, millisecond,
}
use io_reactor.Timer.Maps.{
  is_in-erase, is_in-add, find-put, find-erase_time, time_of-erase_object, IsSorted, IsFilled,
  put-IsSorted, erase_time-IsSorted, put-IsFilled, erase_time-IsFilled, erase_time-put,
}

abbrev pub is_time : Option ℕ → ℕ → Bool
is_time none t = false
is_time (some u) t = t == u

pub record IsConsistent (s : ObjectsTimer) : Type 0 where
  pub sorted : IsSorted s.time_object
  pub filled : IsFilled s.time_object
  pub agree : (o t : ℕ) → is_in o (find t s.time_object) ≡ is_time (time_of o s.object_time) t

abbrev pub empty : ObjectsTimer
empty = record { time_object = []; object_time = [] }

pub empty-IsConsistent : IsConsistent empty
unfolding find is_in time_of
empty-IsConsistent = record { sorted = tt; filled = tt; agree = λ o t. refl }

is_empty-false : (xs : List ℕ) → is_empty xs ≡ false → 0 < length xs
is_empty-false [] e = ground (arith, e)
is_empty-false (x ∷ xs) e = omega arith

is_empty-true : (xs : List ℕ) → is_empty xs ≡ true → xs ≡ []
is_empty-true [] e = refl
is_empty-true (x ∷ xs) e = ground (arith, e)

-- The timer after an object has left its bucket.
record Left (o t : ℕ) (s r : ObjectsTimer) : Type 0 where
  sorted : IsSorted s.time_object → IsSorted r.time_object
  filled : IsFilled s.time_object → IsFilled r.time_object
  found :
      (p u : ℕ)
      → is_in p (find u r.time_object)
        ≡ (if t == u && o == p then false else is_in p (find u s.time_object))
  times : (p : ℕ) → time_of p r.object_time ≡ (if o == p then none else time_of p s.object_time)

is_in-find :
    (o t p u : ℕ) (b : List ℕ) (m : Buckets)
    → b ≡ (if t == u then erase o (find t m) else find u m)
    → is_in p b ≡ (if t == u && o == p then false else is_in p (find u m))
is_in-find o t p u b m e = ground (arith, e, is_in-erase o p (find t m))

remove_at-Left : (o t : ℕ) (s : ObjectsTimer) → Left o t s (remove_at o t s)
unfolding remove_at
remove_at-Left o t s =
    let b = erase o (find t s.time_object) in
    let m = put t b s.time_object in
    let found : find t m ≡ b = ground (arith, find-put t t b s.time_object) in
    let times = λ (p : ℕ). time_of-erase_object o p s.object_time in
    elim (Bool-cases (is_empty (find t m))) [
      | inl gone ↦
          rw (gone, erase_time-put t b s.time_object)
            (record {
              sorted = erase_time-IsSorted t s.time_object;
              filled = erase_time-IsFilled t s.time_object;
              found = λ p u. is_in-find o t p u _ s.time_object (
                  ground (
                    arith,
                    find-erase_time t u s.time_object,
                    sym found ∙ is_empty-true (find t m) gone,
                  ));
              times = times;
            })
      | inr more ↦ rw more (record {
        sorted = put-IsSorted t b s.time_object;
        filled =
            put-IsFilled t b s.time_object
              (subst (λ l. 0 < length l) found (is_empty-false (find t m) more));
        found = λ p u. is_in-find o t p u _ s.time_object (find-put t u b s.time_object);
        times = times;
      })
    ]

remove_at-IsConsistent :
    (o t : ℕ) (s : ObjectsTimer)
    → time_of o s.object_time ≡ some t
    → IsConsistent s
    → IsConsistent (remove_at o t s)
remove_at-IsConsistent o t s e c =
    let left = remove_at-Left o t s in
    record {
      sorted = left.sorted c.sorted;
      filled = left.filled c.filled;
      agree = λ p u. ground (arith, left.found p u, left.times p, c.agree p u, e);
    }

pub remove_timeout-IsConsistent :
    (o : ℕ) (s : ObjectsTimer) → IsConsistent s → IsConsistent (remove_timeout o s).0
unfolding remove_timeout
remove_timeout-IsConsistent o s c = elim (Option-cases (time_of o s.object_time)) [
  | inl e ↦ rw e c
  | inr (t, e) ↦ rw e (remove_at-IsConsistent o t s e c)
]

-- What the timer keeps, as a function: the deadline of each object.
abbrev pub deadline : ObjectsTimer → ℕ → Option ℕ
deadline s o = time_of o s.object_time

pub remove_timeout-deadline :
    (o p : ℕ) (s : ObjectsTimer)
    → deadline (remove_timeout o s).0 p ≡ (if o == p then none else deadline s p)
unfolding remove_timeout
remove_timeout-deadline o p s = elim (Option-cases (time_of o s.object_time)) [
  | inl e ↦ rw (e, remove_found) (ground (arith, e))
  | inr (t, e) ↦ rw (e, remove_found) ((remove_at-Left o t s).times p)
]

add-filled : (o : ℕ) (xs : List ℕ) → 0 < length (add o xs)
unfolding add is_in
add-filled o [] = ground arith
add-filled o (x ∷ xs) = ground arith

pub register_timeout-deadline :
    (now later msec o p : ℕ) (s : ObjectsTimer)
    → deadline (register_timeout now later msec o s).0 p
      ≡ (if o == p then some (now + msec * millisecond) else deadline s p)
unfolding register_timeout time_of
register_timeout-deadline now later msec o p s = ground (arith, remove_timeout-deadline o p s)

insert-IsConsistent :
    (o t : ℕ) (s : ObjectsTimer)
    → deadline s o ≡ none
    → IsConsistent s
    → IsConsistent (record {
      time_object = put t (add o (find t s.time_object)) s.time_object;
      object_time = (o, t) ∷ s.object_time;
    })
unfolding time_of
insert-IsConsistent o t s free c =
    let b = add o (find t s.time_object) in
    record {
      sorted = put-IsSorted t b s.time_object c.sorted;
      filled = put-IsFilled t b s.time_object (add-filled o (find t s.time_object)) c.filled;
      agree = λ p u. ground (
        arith,
        find-put t u b s.time_object,
        is_in-add o p (find t s.time_object),
        c.agree p u,
        free,
      );
    }

pub register_timeout-IsConsistent :
    (now later msec o : ℕ) (s : ObjectsTimer)
    → IsConsistent s
    → IsConsistent (register_timeout now later msec o s).0
unfolding register_timeout
register_timeout-IsConsistent now later msec o s c =
    insert-IsConsistent o (now + msec * millisecond) (remove_timeout o s).0
      (ground (arith, remove_timeout-deadline o o s)) (remove_timeout-IsConsistent o s c)

-- A registration on consistent maps takes the object out of the bucket it was in, puts it into the
-- bucket of the new deadline, and changes neither the bucket nor the deadline of any other object.
pub register_timeout-buckets :
    (now later msec o p u : ℕ) (s : ObjectsTimer)
    → IsConsistent s
    → (deadline (register_timeout now later msec o s).0 p
        ≡ (if o == p then some (now + msec * millisecond) else deadline s p))
      × (is_in p (find u (register_timeout now later msec o s).0.time_object)
          ≡ (if o == p then u == now + msec * millisecond else is_in p (find u s.time_object)))
register_timeout-buckets now later msec o p u s c =
    let moved = register_timeout-deadline now later msec o p s in
    (
      moved,
      (register_timeout-IsConsistent now later msec o s c).agree p u
          ∙ ground (arith, moved, c.agree p u),
    )
