-- ===== src/Text/Search.antt =====
-- Where `find` finds a pattern, and tests on texts that do not have it.
use io_reactor.Prelude.{
  ℕ, zero, suc, ◌+◌, true, false, Option, none, some, [], ◌∷◌, ◌++◌, ◌≡◌, refl, ap, ◌∙◌, arith,
  length, take, leb, ◌&&◌, if◌then◌else◌, false, ◌≤◌, ◌<◌, Bool-cases, Option-cases, length-take,
  inl, inr,
}
use io_reactor.Text.{Bytes, starts_with, raise, find, Lacks, crlf}

abbrev pub later : ℕ → Option ℕ → Option ℕ
later zero o = o
later (suc n) o = raise (later n o)

pub later-some : (n k : ℕ) → later n (some k) ≡ some (n + k)
later-some zero k = ap some (omega arith)
later-some (suc n) k = ap raise (later-some n k) ∙ ap some (omega arith)

pub later-none : (n : ℕ) → later n none ≡ none
later-none zero = refl
later-none (suc n) = ap raise (later-none n)

-- A pattern is not found at bytes that differ from its first one.
pub find-skip :
    (p : ℕ) (ps a b : Bytes)
    → Lacks p a
    → find (p ∷ ps) (a ++ b) ≡ later (length a) (find (p ∷ ps) b)
unfolding find starts_with
find-skip p ps [] b h = refl
find-skip p ps (c ∷ a) b (d, h) = ground (arith, d, find-skip p ps a b h)

find_here : (p b : Bytes) → starts_with p b ≡ true → find p b ≡ some 0
unfolding find
find_here p [] h = rw h refl
find_here p (c ∷ b) h = rw h refl

pub find-append :
    (p : ℕ) (ps a b : Bytes)
    → Lacks p a
    → starts_with (p ∷ ps) b ≡ true
    → find (p ∷ ps) (a ++ b) ≡ some (length a)
find-append p ps a b h s =
    find-skip p ps a b h
    ∙ ap (later (length a)) (find_here (p ∷ ps) b s)
    ∙ later-some (length a) 0
    ∙ ap some (omega arith)

pub find_absent : (p : ℕ) (ps a : Bytes) → Lacks p a → find (p ∷ ps) a ≡ none
unfolding find starts_with
find_absent p ps [] h = refl
find_absent p ps (c ∷ a) (d, h) = ground (arith, d, find_absent p ps a h)

later-later : (a b : ℕ) (o : Option ℕ) → later a (later b o) ≡ later (a + b) o
later-later zero b o = let none_before : b ≡ 0 + b = omega arith in ap (λ n. later n o) none_before
later-later (suc a) b o =
    let sum : suc (a + b) ≡ suc a + b = omega arith in
    ap raise (later-later a b o) ∙ ap (λ n. later n o) sum

find_line_end :
    (s : Bytes)
    → starts_with crlf s ≡ false
    → find (13 ∷ 10 ∷ 13 ∷ 10 ∷ []) (13 ∷ 10 ∷ s) ≡ raise (raise (find (13 ∷ 10 ∷ 13 ∷ 10 ∷ []) s))
unfolding find starts_with
find_line_end [] e = ground (arith, e)
find_line_end (c ∷ s) e = ground (arith, e)

-- A line and the lines behind it, when they do not begin with an empty one.
pub find_blank_line :
    (l s : Bytes)
    → Lacks 13 l
    → starts_with crlf s ≡ false
    → find (13 ∷ 10 ∷ 13 ∷ 10 ∷ []) (l ++ 13 ∷ 10 ∷ s)
      ≡ later (length l + 2) (find (13 ∷ 10 ∷ 13 ∷ 10 ∷ []) s)
find_blank_line l s h e =
    find-skip 13 (10 ∷ 13 ∷ 10 ∷ []) l (13 ∷ 10 ∷ s) h
    ∙ ap (later (length l)) (find_line_end s e)
    ∙ later-later (length l) 2 (find (13 ∷ 10 ∷ 13 ∷ 10 ∷ []) s)

starts_with-take :
    (p : Bytes) (k : ℕ) (s : Bytes)
    → starts_with p (take k s) ≡ (leb (length p) k && starts_with p s)
unfolding starts_with
starts_with-take [] k s = ground arith
starts_with-take (x ∷ p) zero s = ground arith
starts_with-take (x ∷ p) (suc k) [] = ground arith
starts_with-take (x ∷ p) (suc k) (c ∷ s) = ground (arith, starts_with-take p k s)

starts_short : (p s : Bytes) → length s < length p → starts_with p s ≡ false
unfolding starts_with
starts_short [] s h = absurd (omega arith)
starts_short (x ∷ p) [] h = refl
starts_short (x ∷ p) (c ∷ s) h = ground (arith, starts_short p s (omega arith))

find_short : (x : ℕ) (p s : Bytes) → length s ≤ length p → find (x ∷ p) s ≡ none
unfolding find starts_with
find_short x p [] h = refl
find_short x p (c ∷ s) h =
    let here = starts_short p s (omega (arith, h)) in
    let later = find_short x p s (omega (arith, h)) in rw (here, later) (ground arith)

-- A part of a text has the pattern where the text has it, if all of the pattern is in the part.
pub find-take :
    (x : ℕ) (p : Bytes) (k : ℕ) (s : Bytes) (n : ℕ)
    → find (x ∷ p) s ≡ some n
    → find (x ∷ p) (take k s) ≡ (if leb (n + suc (length p)) k then some n else none)
unfolding find starts_with
find-take x p k [] n e = absurd (ground (arith, e))
find-take x p zero (c ∷ s) n e = ground arith
find-take x p (suc k) (c ∷ s) n e =
    let first = starts_with-take (x ∷ p) (suc k) (c ∷ s) in
    elim (Bool-cases (starts_with (x ∷ p) (c ∷ s))) [
      | inl here ↦ elim (Bool-cases (leb (length p) k)) [
        | inl fits ↦ ground (arith, e, here, fits, first)
        | inr cut ↦
            let short = find_short x p (take k s) (ground (arith, cut, length-take k s)) in
            ground (arith, e, here, cut, first, short)
      ]
      | inr there ↦ elim (Option-cases (find (x ∷ p) s)) [
        | inl absent ↦ absurd (ground (arith, e, there, absent))
        | inr (m, found) ↦ ground (arith, e, there, found, first, find-take x p k s m found)
      ]
    ]
