-- ===== src/Prelude/Sums.antt =====
-- Sums over lists, summand by summand.
use ctx_ttl_oss.Prelude.{
  ℕ, ◌+◌, ◌≡◌, refl, sym, List, [], ◌∷◌, map, arith, nat_eq, string_eq, option_eq, list_eq, sum_by,
  All,
}

module _ {A : Type 0} where
  pub sum_by-plus :
      (f g : A → ℕ) (xs : List A) → sum_by (λ x. f x + g x) xs ≡ sum_by f xs + sum_by g xs
  sum_by-plus f g [] = refl
  sum_by-plus f g (x ∷ xs) = omega (arith, sum_by-plus f g xs)

  pub sum_by-zero : (xs : List A) → sum_by (λ x. 0) xs ≡ 0
  sum_by-zero [] = refl
  sum_by-zero (x ∷ xs) = omega (arith, sum_by-zero xs)

  pub sum_by-All : (f g : A → ℕ) (xs : List A) → All (λ x. f x ≡ g x) xs → sum_by f xs ≡ sum_by g xs
  sum_by-All f g [] h = refl
  sum_by-All f g (x ∷ xs) h = omega (arith, h.0, sum_by-All f g xs h.1)

  pub All-both {κ μ ν} :
      (P : A → Type κ) (Q : A → Type μ) (R : A → Type ν) (xs : List A)
      → ((x : A) → P x → Q x → R x)
      → All P xs
      → All Q xs
      → All R xs
  All-both P Q R [] f h k = tt
  All-both P Q R (x ∷ xs) f h k = (f x h.0 k.0, All-both P Q R xs f h.1 k.1)

module _ {A B : Type 0} where
  -- the order of two summations does not matter
  pub sum_swap :
      (f : A → B → ℕ) (xs : List A) (ys : List B)
      → sum_by (λ x. sum_by (f x) ys) xs ≡ sum_by (λ y. sum_by (λ x. f x y) xs) ys
  sum_swap f [] ys = sym (sum_by-zero ys)
  sum_swap f (x ∷ xs) ys =
      omega (arith, sum_swap f xs ys, sum_by-plus (f x) (λ y. sum_by (λ z. f z y) xs) ys)

  pub sum_by-map :
      (f : B → ℕ) (g : A → B) (xs : List A) → sum_by f (map g xs) ≡ sum_by (λ x. f (g x)) xs
  sum_by-map f g [] = refl
  sum_by-map f g (x ∷ xs) = omega (arith, sum_by-map f g xs)
