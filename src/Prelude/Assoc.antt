-- ===== src/Prelude/Assoc.antt =====
-- Maps whose keys are native numbers, as association lists.
use mathlib.Core.Path.{◌≡◌}
use mathlib.Core.Option.{Option, none, some}
use mathlib.Core.List.{List, [], ◌∷◌}
use Prim.Native.Nat.{ℕ}
use native.Mathlib.Omega.{arith}
use io_reactor.Prelude.Tests.{◌==◌, if◌then◌else◌}

module _ {ℓ} {A : Type ℓ} where
  unfoldable pub lookup : ℕ → List (ℕ × A) → Option A
  lookup k [] = none
  lookup k ((l, a) ∷ m) = if k == l then some a else lookup k m

  unfoldable pub remove : ℕ → List (ℕ × A) → List (ℕ × A)
  remove k [] = []
  remove k ((l, a) ∷ m) = let rest = remove k m in if k == l then rest else (l, a) ∷ rest

  unfoldable pub insert : ℕ → A → List (ℕ × A) → List (ℕ × A)
  insert k a m = (k, a) ∷ remove k m

  pub lookup-remove :
      (k l : ℕ) (m : List (ℕ × A)) → lookup l (remove k m) ≡ (if k == l then none else lookup l m)
  unfolding lookup remove
  lookup-remove k l [] = ground arith
  lookup-remove k l ((n, a) ∷ m) = ground (arith, lookup-remove k l m)

  pub lookup-insert :
      (k l : ℕ) (a : A) (m : List (ℕ × A))
      → lookup l (insert k a m) ≡ (if k == l then some a else lookup l m)
  unfolding lookup insert
  lookup-insert k l a m = ground (arith, lookup-remove k l m)
