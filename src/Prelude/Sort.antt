-- ===== src/Prelude/Sort.antt =====
-- Python's `sorted`: a stable sort by a total test, as insertion from the right.
use Prim.Native.Nat.{ℕ, ◌+◌}
use mathlib.Core.Path.{◌≡◌, refl}
use mathlib.Core.Bool.{Bool, ◌&&◌, ◌||◌}
use mathlib.Core.List.{List, [], ◌∷◌}
use native.Mathlib.Omega.{arith}
use package.ctx_ttl_oss.Prelude.Tests.{if◌then◌else◌}
use package.ctx_ttl_oss.Prelude.Lists.{sum_by, all, any, count_by}

module _ {A : Type 0} (before : A → A → Bool) where
  abbrev pub insert : A → List A → List A
  insert x [] = x ∷ []
  insert x (y ∷ ys) = if before x y then x ∷ y ∷ ys else y ∷ insert x ys

  -- `before x y`: x may stand before y; of two that may stand either way the earlier comes first
  unfoldable pub sorted : List A → List A
  sorted [] = []
  sorted (x ∷ xs) = insert x (sorted xs)

  sum_by-insert : (f : A → ℕ) (x : A) (xs : List A) → sum_by f (insert x xs) ≡ f x + sum_by f xs
  sum_by-insert f x [] = refl
  sum_by-insert f x (y ∷ ys) = ground (arith, sum_by-insert f x ys)

  pub sum_by-sorted : (f : A → ℕ) (xs : List A) → sum_by f (sorted xs) ≡ sum_by f xs
  unfolding sorted
  sum_by-sorted f [] = refl
  sum_by-sorted f (x ∷ xs) = omega (arith, sum_by-insert f x (sorted xs), sum_by-sorted f xs)

  all-insert : (p : A → Bool) (x : A) (xs : List A) → all p (insert x xs) ≡ (p x && all p xs)
  all-insert p x [] = refl
  all-insert p x (y ∷ ys) = ground (arith, all-insert p x ys)

  pub all-sorted : (p : A → Bool) (xs : List A) → all p (sorted xs) ≡ all p xs
  unfolding sorted
  all-sorted p [] = refl
  all-sorted p (x ∷ xs) = ground (arith, all-insert p x (sorted xs), all-sorted p xs)

  count_by-insert :
      (p : A → Bool) (x : A) (xs : List A) → count_by p (insert x xs) ≡ count_by p (x ∷ xs)
  count_by-insert p x [] = refl
  count_by-insert p x (y ∷ ys) = ground (arith, count_by-insert p x ys)

  pub count_by-sorted : (p : A → Bool) (xs : List A) → count_by p (sorted xs) ≡ count_by p xs
  unfolding sorted
  count_by-sorted p [] = refl
  count_by-sorted p (x ∷ xs) = ground (arith, count_by-insert p x (sorted xs), count_by-sorted p xs)

  any-insert : (p : A → Bool) (x : A) (xs : List A) → any p (insert x xs) ≡ (p x || any p xs)
  any-insert p x [] = refl
  any-insert p x (y ∷ ys) = ground (arith, any-insert p x ys)

  pub any-sorted : (p : A → Bool) (xs : List A) → any p (sorted xs) ≡ any p xs
  unfolding sorted
  any-sorted p [] = refl
  any-sorted p (x ∷ xs) = ground (arith, any-insert p x (sorted xs), any-sorted p xs)
