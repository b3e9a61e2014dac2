-- ===== src/Application/Service.antt =====
-- How the services of application/ run: calls of the store, of `uuid4` and of `utc_now`, one after
-- the other. An exception ends the rest of a method and leaves what was committed before it.
pub mod Keeps
pub mod Ensures
use ctx_ttl_oss.Prelude.{
  if◌then◌else◌, ℕ, suc, String, Bool, true, false, Error, context_conflict, Result, ok, err,
}
use ctx_ttl_oss.Storage.Tables.{Db}

-- what uuid4 and utc_now give, by the number of calls before
pub record Stamps : Type 0 where
  pub uuid : ℕ → String
  pub time : ℕ → ℕ

-- the store, and the number of stamps drawn
pub record World : Type 0 where
  pub db : Db
  pub drawn : ℕ

abbrev pub Act : Type 0 → Type 0
Act A = World → Result A × World

abbrev pub resume : {A B : Type 0} → Result A × World → (A → Act B) → Result B × World
resume (ok a, w) f = f a w
resume (err e, w) f = (err e, w)

infixl 5 ◌>>=◌ ◌>>◌
abbrev pub ◌>>=◌ : {A B : Type 0} → Act A → (A → Act B) → Act B
◌>>=◌ m f w = resume (m w) f

abbrev pub ◌>>◌ : {A B : Type 0} → Act A → Act B → Act B
m >> k = m >>= λ _. k

abbrev pub pure : {A : Type 0} → A → Act A
pure a w = (ok a, w)

abbrev pub raise : {A : Type 0} → Error → Act A
raise e w = (err e, w)

abbrev pub raise_if : Bool → Error → Act (Unit {0})
raise_if true e w = (err e, w)
raise_if false e w = (ok tt, w)

abbrev pub lift : {A : Type 0} → Result A → Act A
lift r w = (r, w)

-- a read of the store
abbrev pub reads : {A : Type 0} → (Db → A) → Act A
reads f w = (ok (f w.db), w)

abbrev stored : {A : Type 0} → ℕ → Result A × Db → Result A × World
stored n (r, db) = (r, record { db = db; drawn = n })

-- a call of the store that may write
abbrev pub commits : {A : Type 0} → (Db → Result A × Db) → Act A
commits f w = stored w.drawn (f w.db)

abbrev pub draw : Act ℕ
draw w = (ok w.drawn, record w { drawn = suc w.drawn })

abbrev pub new_id : Stamps → Act String
new_id s = do n ← draw; pure (s.uuid n)

abbrev pub utc_now : Stamps → Act ℕ
utc_now s = do n ← draw; pure (s.time n)

abbrev pub is_conflict : Error → Bool
is_conflict context_conflict = true
is_conflict _ = false

abbrev pub recover : {A : Type 0} → Result A × World → Act A → Result A × World
recover (ok a, w) h = (ok a, w)
recover (err e, w) h = if is_conflict e then h w else (err e, w)

-- `except ContextConflict`
abbrev pub catch_conflict : {A : Type 0} → Act A → Act A → Act A
catch_conflict m h w = recover (m w) h
