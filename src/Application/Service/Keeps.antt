-- ===== src/Application/Service/Keeps.antt =====
-- What a service keeps of the store, whether it returns or raises: one rule for each way to build it.
use ctx_ttl_oss.Models.Dimensions.{
  EventType, kind_eq, scope_eq, retention_eq, applicability_eq, authority_eq, status_eq,
  event_type_eq,
}
use ctx_ttl_oss.Prelude.{
  String, ◌≡◌, refl, inl, inr, Bool, true, false, Option, List, nat_eq, string_eq, option_eq,
  list_eq, if◌then◌else◌, Bool-cases, Error, Result, ok, err, none,
}
use ctx_ttl_oss.Models.Context.{ContextOwner, ContextItem, OwnerKey}
use ctx_ttl_oss.Models.Event.{ContextEvent}
use ctx_ttl_oss.Storage.Store.{IdempotencyRequest, apply, apply_idempotent}
use ctx_ttl_oss.Storage.Tables.{Db}
use ctx_ttl_oss.Storage.Queries.{observe_turn}
use ctx_ttl_oss.Application.Service.{
  World, Act, ◌>>=◌, is_conflict, recover, pure, raise, raise_if, lift, reads, commits, draw,
  catch_conflict,
}
use ctx_ttl_oss.Application.Service.{resume, recover, is_conflict}

-- `m` keeps `P`
pub record Keeps (P : Db → Type 0) {A : Type 0} (m : Act A) : Type 0 where
  pub at : (w : World) → P w.db → P (m w).1.db

-- what `m` returns has `Q`
pub record Gives {A : Type 0} (Q : A → Type 0) (m : Act A) : Type 0 where
  pub at : (w : World) (a : A) → (m w).0 ≡ ok a → Q a

-- The calls of the store that write, for events of one owner.
pub record Keeper (P : Db → Type 0) (o : ContextOwner) : Type 0 where
  pub applies :
      (e : ContextEvent) (item : Option ContextItem) (db : Db)
      → e.owner ≡ o
      → P db
      → P (apply e item db).1
  pub repeats :
      (e : ContextEvent) (item : Option ContextItem) (q : IdempotencyRequest) (db : Db)
      → e.owner ≡ o
      → P db
      → P (apply_idempotent e item q db).1
  pub observes :
      (keys : List OwnerKey) (session_id turn_id : String) (db : Db)
      → P db
      → P (observe_turn keys session_id turn_id db).1

-- The expiries of one owner, which come without an item.
pub record Expirer (P : Db → Type 0) (o : ContextOwner) : Type 0 where
  pub expires :
      (e : ContextEvent) (db : Db)
      → e.owner ≡ o
      → e.event_type ≡ EventType.expire
      → P db
      → P (apply e none db).1

pub Keeper-Expirer : (P : Db → Type 0) (o : ContextOwner) → Keeper P o → Expirer P o
Keeper-Expirer P o k = record { expires = λ e db own _ h. k.applies e none db own h }

module _ (P : Db → Type 0) {A : Type 0} where
  pub Keeps-pure : (a : A) → Keeps P (pure a)
  Keeps-pure a = record { at = λ w h. h }

  pub Keeps-raise : (e : Error) → Keeps P (raise {A = A} e)
  Keeps-raise e = record { at = λ w h. h }

  pub Keeps-lift : (r : Result A) → Keeps P (lift r)
  Keeps-lift r = record { at = λ w h. h }

  pub Keeps-reads : (f : Db → A) → Keeps P (reads f)
  Keeps-reads f = record { at = λ w h. h }

  pub Keeps-commits :
      (f : Db → Result A × Db) → ((db : Db) → P db → P (f db).1) → Keeps P (commits f)
  Keeps-commits f k = record { at = λ w h. k w.db h }

  resumed :
      {B : Type 0} (f : A → Act B) (p : Result A × World)
      → ((a : A) → Keeps P (f a))
      → P p.1.db
      → P (resume p f).1.db
  resumed f (ok a, w) k h = (k a).at w h
  resumed f (err e, w) k h = h

  pub Keeps-bind :
      {B : Type 0} (m : Act A) (f : A → Act B)
      → Keeps P m
      → ((a : A) → Keeps P (f a))
      → Keeps P (m >>= f)
  Keeps-bind m f k l = record { at = λ w h. resumed f (m w) l (k.at w h) }

  pub Keeps-if : (b : Bool) (m n : Act A) → Keeps P m → Keeps P n → Keeps P (if b then m else n)
  Keeps-if true m n k l = k
  Keeps-if false m n k l = l

pub resumed_inv :
    {A B : Type 0} (p : Result A × World) (f : A → Act B) (b : B)
    → (resume p f).0 ≡ ok b
    → (a : A) × (p.0 ≡ ok a) × ((f a p.1).0 ≡ ok b)
resumed_inv (ok a, w) f b h = (a, refl, h)
resumed_inv (err e, w) f b h = absurd (cc)

module _ {A : Type 0} (Q : A → Type 0) where
  pub Gives-lift : (r : Result A) → ((a : A) → r ≡ ok a → Q a) → Gives Q (lift r)
  Gives-lift r h = record { at = λ w a e. h a e }

  pub Gives-bind :
      {B : Type 0} (m : Act B) (f : B → Act A) → ((b : B) → Gives Q (f b)) → Gives Q (m >>= f)
  Gives-bind m f h = record {
    at = λ w a e. let (b, _, last) = resumed_inv (m w) f a e in (h b).at (m w).1 a last;
  }

  pub Keeps-then :
      (P : Db → Type 0) {B : Type 0} (m : Act A) (f : A → Act B)
      → Keeps P m
      → Gives Q m
      → ((a : A) → Q a → Keeps P (f a))
      → Keeps P (m >>= f)
  Keeps-then P m f k g l = record { at = λ w h. go (m w) (k.at w h) (g.at w) }
    where
      go : (p : Result A × World) → P p.1.db → ((a : A) → p.0 ≡ ok a → Q a) → P (resume p f).1.db
      go (ok a, w) h q = (l a (q a refl)).at w h
      go (err e, w) h q = h

module _ (P : Db → Type 0) where
  pub Keeps-raise_if : (b : Bool) (e : Error) → Keeps P (raise_if b e)
  Keeps-raise_if true e = record { at = λ w h. h }
  Keeps-raise_if false e = record { at = λ w h. h }

  pub Keeps-draw : Keeps P draw
  Keeps-draw = record { at = λ w h. h }

  recovered :
      {A : Type 0} (p : Result A × World) (n : Act A) → P p.1.db → Keeps P n → P (recover p n).1.db
  recovered (ok a, w) n h l = h
  recovered (err e, w) n h l = elim (Bool-cases (is_conflict e)) [
    | inl conflict ↦ rw conflict (l.at w h)
    | inr other ↦ rw other h
  ]

  pub Keeps-catch :
      {A : Type 0} (m n : Act A) → Keeps P m → Keeps P n → Keeps P (catch_conflict m n)
  Keeps-catch m n k l = record { at = λ w h. recovered (m w) n (k.at w h) l }

pub ruleset keeps_rules = (
  Keeps-pure, Keeps-raise, Keeps-lift, Keeps-reads, Keeps-bind, Keeps-if, Keeps-raise_if,
  Keeps-draw, Keeps-catch,
)
