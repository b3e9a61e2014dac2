-- ===== src/Application/Service/Ensures.antt =====
-- What a service that returns has made sure of, on a store with a property.
use ctx_ttl_oss.Application.Service.Keeps.{Keeps}
use ctx_ttl_oss.Storage.Tables.{Db}
use ctx_ttl_oss.Application.Service.{
  ◌>>=◌, raise_if, lift, World, Act, resume, reads, is_conflict, recover, catch_conflict,
}
use ctx_ttl_oss.Prelude.{
  ◌≡◌, refl, inl, inr, Bool, true, false, nat_eq, string_eq, option_eq, list_eq, Bool-cases, Error,
  Result, ok, err, ok_inj,
}
use ctx_ttl_oss.Models.Dimensions.{
  kind_eq, scope_eq, retention_eq, applicability_eq, authority_eq, status_eq, event_type_eq,
}

-- from `P`, where `m` returns, its result and the store are in `R`
pub record Ensures (P : Db → Type 0) {A : Type 0} (R : A → Db → Type 0) (m : Act A) : Type 0 where
  pub at : (w : World) (a : A) → P w.db → (m w).0 ≡ ok a → R a (m w).1.db

module _ (P : Db → Type 0) {A : Type 0} where
  pub Ensures-Keeps : (m : Act A) → Keeps P m → Ensures P (λ _ db. P db) m
  Ensures-Keeps m k = record { at = λ w a h e. k.at w h }

  pub Ensures-lift : (r : Result A) → Ensures P (λ a db. P db × (r ≡ ok a)) (lift r)
  Ensures-lift r = record { at = λ w a h e. (h, e) }

  pub Ensures-reads : (f : Db → A) → Ensures P (λ a db. P db × (f db ≡ a)) (reads f)
  Ensures-reads f = record { at = λ w a h e. (h, ok_inj e) }

  resumed_at :
      {B : Type 0} (Q : A → Db → Type 0) (R : B → Db → Type 0) (p : Result A × World)
      (f : A → Act B) (b : B)
      → ((a : A) → p.0 ≡ ok a → Q a p.1.db)
      → ((a : A) → Ensures (Q a) R (f a))
      → (resume p f).0 ≡ ok b
      → R b (resume p f).1.db
  resumed_at Q R (ok a, w) f b q k e = (k a).at w b (q a refl) e
  resumed_at Q R (err x, w) f b q k e = absurd (cc)

  pub Ensures-bind :
      {B : Type 0} (Q : A → Db → Type 0) (R : B → Db → Type 0) (m : Act A) (f : A → Act B)
      → Ensures P Q m
      → ((a : A) → Ensures (Q a) R (f a))
      → Ensures P R (m >>= f)
  Ensures-bind Q R m f k l = record {
    at = λ w b h e. resumed_at Q R (m w) f b (λ a. k.at w a h) l e;
  }

  pub Ensures-skip :
      {B : Type 0} (R : B → Db → Type 0) (m : Act A) (f : A → Act B)
      → Keeps P m
      → ((a : A) → Ensures P R (f a))
      → Ensures P R (m >>= f)
  Ensures-skip R m f k l = Ensures-bind (λ _ db. P db) R m f (Ensures-Keeps m k) l

  pub Ensures-and :
      (S : Db → Type 0) (R : A → Db → Type 0) (m : Act A)
      → Ensures P R m
      → Keeps S m
      → Ensures (λ db. P db × S db) (λ a db. R a db × S db) m
  Ensures-and S R m k l = record { at = λ w a h e. (k.at w a h.0 e, l.at w h.1) }

  recovered_at :
      (R : A → Db → Type 0) (p : Result A × World) (n : Act A) (a : A)
      → ((b : A) → p.0 ≡ ok b → R b p.1.db)
      → P p.1.db
      → Ensures P R n
      → (recover p n).0 ≡ ok a
      → R a (recover p n).1.db
  recovered_at R (ok b, w) n a q h k e = q a e
  recovered_at R (err x, w) n a q h k e = elim (Bool-cases (is_conflict x)) [
    | inl conflict ↦ let e' = rw (conflict, recover) at e in rw conflict (k.at w a h e')
    | inr unrelated ↦ absurd (let e' = rw (unrelated, recover) at e in cc)
  ]

  pub Ensures-catch :
      (R : A → Db → Type 0) (m n : Act A)
      → Keeps P m
      → Ensures P R m
      → Ensures P R n
      → Ensures P R (catch_conflict m n)
  Ensures-catch R m n k q l = record {
    at = λ w a h e. recovered_at R (m w) n a (λ b. q.at w b h) (k.at w h) l e;
  }

pub Ensures-raise_if :
    (P : Db → Type 0) (b : Bool) (e : Error) → Ensures P (λ _ db. P db × (b ≡ false)) (raise_if b e)
Ensures-raise_if P true e = record { at = λ w a h k. absurd (cc) }
Ensures-raise_if P false e = record { at = λ w a h k. (h, refl) }
