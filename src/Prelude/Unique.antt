-- ===== src/Prelude/Unique.antt =====
-- Rows that differ pairwise by a test, as primary keys and UNIQUE constraints make them, and how
-- `any`, `find`, `keep` and `map` treat such lists.
use ctx_ttl_oss.Prelude.Sort.{insert, sorted}
use ctx_ttl_oss.Prelude.{
  ◌≡◌, refl, inl, inr, Bool, true, false, none, some, List, [], ◌∷◌, ◌++◌, ◌||◌, not, map, subst,
  arith, Bool-cases, keep, any, find, All,
}

module _ {ℓ} {A : Type ℓ} where
  -- no row is the same as one that stands behind it
  abbrev pub UniqueBy : (A → A → Bool) → List A → Type 0
  UniqueBy same [] = Unit
  UniqueBy same (x ∷ xs) = (any (same x) xs ≡ false) × UniqueBy same xs

  pub any-keep :
      (p q : A → Bool) (xs : List A)
      → ((x : A) → p x ≡ true → q x ≡ true)
      → any p xs ≡ true
      → any p (keep q xs) ≡ true
  any-keep p q [] h e = e
  any-keep p q (x ∷ xs) h e = ground (arith, h x, any-keep p q xs h)

  pub any-keep-false : (p q : A → Bool) (xs : List A) → any p xs ≡ false → any p (keep q xs) ≡ false
  any-keep-false p q [] e = e
  any-keep-false p q (x ∷ xs) e = ground (arith, any-keep-false p q xs)

  pub UniqueBy-keep :
      (same : A → A → Bool) (q : A → Bool) (xs : List A)
      → UniqueBy same xs
      → UniqueBy same (keep q xs)
  UniqueBy-keep same q [] u = tt
  UniqueBy-keep same q (x ∷ xs) u = elim (Bool-cases (q x)) [
    | inl kept ↦ rw kept (any-keep-false (same x) q xs u.0, UniqueBy-keep same q xs u.1)
    | inr dropped ↦ rw dropped (UniqueBy-keep same q xs u.1)
  ]

  pub any_mono :
      (p q : A → Bool) (xs : List A)
      → ((x : A) → p x ≡ true → q x ≡ true)
      → any p xs ≡ true
      → any q xs ≡ true
  any_mono p q [] h e = e
  any_mono p q (x ∷ xs) h e = ground (arith, h x, any_mono p q xs h)

  pub any-map :
      (p : A → Bool) (f : A → A) (xs : List A)
      → ((x : A) → p (f x) ≡ p x)
      → any p (map f xs) ≡ any p xs
  any-map p f [] h = refl
  any-map p f (x ∷ xs) h = ground (arith, h x, any-map p f xs h)

  -- a row that two tests accept, one of each, where accepted rows are the same row
  pub any_both :
      (same : A → A → Bool) (p q : A → Bool) (xs : List A)
      → ((x y : A) → p x ≡ true → q y ≡ true → (same x y ≡ true) × (same y x ≡ true))
      → UniqueBy same xs
      → any p xs ≡ true
      → any q xs ≡ true
      → (x : A) × (p x ≡ true) × (q x ≡ true)
  any_both same p q [] h u e f = absurd (cc)
  any_both same p q (x ∷ xs) h u e f = elim (Bool-cases (p x)) [
    | inl px ↦ elim (Bool-cases (q x)) [
      | inl qx ↦ (x, px, qx)
      | inr nqx ↦ absurd (rest_differs px (ground arith))
    ]
    | inr npx ↦ elim (Bool-cases (q x)) [
      | inl qx ↦ absurd (rest_differs' qx (ground arith))
      | inr nqx ↦ any_both same p q xs h u.1 (ground arith) (ground arith)
    ]
  ]
    where
      rest_differs : p x ≡ true → any q xs ≡ true → ⊥
      rest_differs px fq = cc (u.0, any_mono q (same x) xs (λ y qy. (h x y px qy).0) fq)

      rest_differs' : q x ≡ true → any p xs ≡ true → ⊥
      rest_differs' qx fp = cc (u.0, any_mono p (same x) xs (λ y py. (h y x py qx).1) fp)

  pub find-any : (p : A → Bool) (xs : List A) {x : A} → find p xs ≡ some x → p x ≡ true
  find-any p [] {x} e = absurd (cc)
  find-any p (y ∷ ys) {x} e = ground (arith, find-any p ys {x = x})

  pub find-none : (p : A → Bool) (xs : List A) → find p xs ≡ none → any p xs ≡ false
  find-none p [] e = refl
  find-none p (y ∷ ys) e = ground (arith, find-none p ys)

  pub find-append_new :
      (p : A → Bool) (xs : List A) (x : A)
      → any p xs ≡ false
      → p x ≡ true
      → find p (xs ++ x ∷ []) ≡ some x
  find-append_new p [] x n e = ground arith
  find-append_new p (y ∷ ys) x n e = ground (arith, find-append_new p ys x)

  pub All-mem {κ} :
      (P : A → Type κ) (p : A → Bool) (xs : List A) {x : A} → All P xs → find p xs ≡ some x → P x
  All-mem P p [] h e = absurd (cc)
  All-mem P p (y ∷ ys) {x} h e = elim (Bool-cases (p y)) [
    | inl py ↦ subst P (ground arith) h.0
    | inr npy ↦ All-mem P p ys h.1 (ground arith)
  ]

  pub All-weaken {κ μ} :
      (P : A → Type κ) (Q : A → Type μ) (xs : List A) → ((x : A) → P x → Q x) → All P xs → All Q xs
  All-weaken P Q [] f h = tt
  All-weaken P Q (x ∷ xs) f h = (f x h.0, All-weaken P Q xs f h.1)

  pub All-map {κ μ} :
      (P : A → Type κ) (Q : A → Type μ) (g : A → A) (xs : List A)
      → ((x : A) → P x → Q (g x))
      → All P xs
      → All Q (map g xs)
  All-map P Q g [] f h = tt
  All-map P Q g (x ∷ xs) f h = (f x h.0, All-map P Q g xs f h.1)

  pub any-append : (p : A → Bool) (xs ys : List A) → any p (xs ++ ys) ≡ (any p xs || any p ys)
  any-append p [] ys = refl
  any-append p (x ∷ xs) ys = ground (arith, any-append p xs ys)

  -- what passes one test and a second one is found among those that pass the second
  pub any-keep_of : (p q : A → Bool) (xs : List A) → any p (keep q xs) ≡ true → any p xs ≡ true
  any-keep_of p q [] h = h
  any-keep_of p q (x ∷ xs) h = ground (arith, any-keep_of p q xs)

  pub any-split :
      (p q : A → Bool) (xs : List A)
      → (any p (keep q xs) || any p (keep (λ x. not (q x)) xs)) ≡ any p xs
  any-split p q [] = refl
  any-split p q (x ∷ xs) = ground (arith, any-split p q xs)

  pub All-keep {κ} : (P : A → Type κ) (p : A → Bool) (xs : List A) → All P xs → All P (keep p xs)
  All-keep P p [] h = tt
  All-keep P p (x ∷ xs) h = elim (Bool-cases (p x)) [
    | inl taken ↦ rw taken (h.0, All-keep P p xs h.1)
    | inr left ↦ rw left (All-keep P p xs h.1)
  ]

module _ {A : Type 0} where
  All-insert {κ} :
      (P : A → Type κ) (before : A → A → Bool) (x : A) (xs : List A)
      → P x
      → All P xs
      → All P (insert before x xs)
  All-insert P before x [] h k = (h, tt)
  All-insert P before x (y ∷ ys) h k = elim (Bool-cases (before x y)) [
    | inl taken ↦ rw taken (h, k)
    | inr left ↦ rw left (k.0, All-insert P before x ys h k.1)
  ]

  pub All-sorted {κ} :
      (P : A → Type κ) (before : A → A → Bool) (xs : List A) → All P xs → All P (sorted before xs)
  unfolding sorted
  All-sorted P before [] h = tt
  All-sorted P before (x ∷ xs) h =
      All-insert P before x (sorted before xs) h.0 (All-sorted P before xs h.1)
