-- ===== src/Storage/Transaction.antt =====
-- A statement inside a transaction, and `BEGIN IMMEDIATE` ... `commit` or `rollback` around it.
pub mod ReadOnly
pub mod Preserves
use ctx_ttl_oss.Prelude.{
  ◌≡◌, refl, Bool, true, false, not, arith, nat_eq, string_eq, option_eq, list_eq, Error,
  integrity_error, context_conflict, Result, ok, err,
}
use ctx_ttl_oss.Storage.Tables.{Db}

-- an exception drops the changes, so a failed statement has no database
abbrev pub Tx : Type 0 → Type 0
Tx A = Db → Result (A × Db)

abbrev continue : {A B : Type 0} → Result (A × Db) → (A → Tx B) → Result (B × Db)
continue (ok (a, db)) f = f a db
continue (err e) f = err e

infixl 5 ◌>>=◌ ◌>>◌
abbrev pub ◌>>=◌ : {A B : Type 0} → Tx A → (A → Tx B) → Tx B
◌>>=◌ m f db = continue (m db) f

abbrev pub ◌>>◌ : {A B : Type 0} → Tx A → Tx B → Tx B
m >> k = m >>= λ _. k

abbrev pub pure : {A : Type 0} → A → Tx A
pure a db = ok (a, db)

abbrev pub lift : {A : Type 0} → Result A → Tx A
lift (ok a) db = ok (a, db)
lift (err e) db = err e

abbrev pub gets : {A : Type 0} → (Db → A) → Tx A
gets f db = ok (f db, db)

abbrev pub modify : (Db → Db) → Tx (Unit {0})
modify f db = ok (tt, f db)

abbrev pub raise_if : Bool → Error → Tx (Unit {0})
raise_if true e db = err e
raise_if false e db = ok (tt, db)

abbrev pub raise : {A : Type 0} → Error → Tx A
raise e db = err e

-- a statement that SQLite refuses with `IntegrityError` where the test fails
abbrev pub constraint : Bool → Tx (Unit {0})
constraint test = raise_if (not test) integrity_error

-- `except aiosqlite.IntegrityError: raise ContextConflict`
abbrev pub reported : Error → Error
reported integrity_error = context_conflict
reported e = e

abbrev settle : {A : Type 0} → Db → Result (A × Db) → Result A × Db
settle db (ok (a, db')) = (ok a, db')
settle db (err e) = (err (reported e), db)

unfoldable pub transaction : {A : Type 0} → Tx A → Db → Result A × Db
transaction m db = settle db (m db)

-- What a completed sequence has done: its parts, with the database between them.
pub bind_inv :
    {A B : Type 0} (m : Tx A) (f : A → Tx B) (db : Db) {b : B} {db'' : Db}
    → (m >>= f) db ≡ ok (b, db'')
    → (a : A) × (db' : Db) × (m db ≡ ok (a, db')) × (f a db' ≡ ok (b, db''))
bind_inv {A} m f db {b} {db''} h = go (m db) refl h
  where
    go :
        (r : Result (A × Db))
        → m db ≡ r
        → continue r f ≡ ok (b, db'')
        → (a : A) × (db' : Db) × (m db ≡ ok (a, db')) × (f a db' ≡ ok (b, db''))
    go (ok (a, db')) e k = (a, db', e, k)
    go (err x) e k = cc

pub transaction-ok :
    {A : Type 0} (m : Tx A) (db : Db) {a : A} {db' : Db}
    → transaction m db ≡ (ok a, db')
    → m db ≡ ok (a, db')
unfolding transaction
transaction-ok m db h = ground arith

pub transaction-err :
    {A : Type 0} (m : Tx A) (db : Db) {e : Error} {db' : Db}
    → transaction m db ≡ (err e, db')
    → db' ≡ db
unfolding transaction
transaction-err m db h = ground arith
