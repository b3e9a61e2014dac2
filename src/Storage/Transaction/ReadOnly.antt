-- ===== src/Storage/Transaction/ReadOnly.antt =====
-- Statements that read and check but change no table, one rule for each way to build one.
use ctx_ttl_oss.Prelude.{
  ◌≡◌, ◌∙◌, Bool, true, false, arith, nat_eq, string_eq, option_eq, list_eq, Error, Result, ok, err,
}
use ctx_ttl_oss.Storage.Tables.{Db}
use ctx_ttl_oss.Storage.Transaction.{Tx, ◌>>=◌, pure, lift, gets, raise_if, raise, bind_inv}

pub record IsReadOnly {A : Type 0} (m : Tx A) : Type 0 where
  pub at : (db : Db) (a : A) (db' : Db) → m db ≡ ok (a, db') → db' ≡ db

module _ {A : Type 0} where
  pub IsReadOnly-pure : (a : A) → IsReadOnly (pure a)
  IsReadOnly-pure a = record { at = λ db b db' h. ground arith }

  pub IsReadOnly-raise : (e : Error) → IsReadOnly (raise {A = A} e)
  IsReadOnly-raise e = record { at = λ db b db' h. absurd (cc) }

  lift_same : (r : Result A) (db : Db) (a : A) (db' : Db) → lift r db ≡ ok (a, db') → db' ≡ db
  lift_same (ok b) db a db' h = ground arith
  lift_same (err e) db a db' h = absurd (cc)

  pub IsReadOnly-lift : (r : Result A) → IsReadOnly (lift r)
  IsReadOnly-lift r = record { at = lift_same r }

  pub IsReadOnly-gets : (f : Db → A) → IsReadOnly (gets f)
  IsReadOnly-gets f = record { at = λ db b db' h. ground arith }

raise_if_same :
    (b : Bool) (e : Error) (db : Db) (u : Unit {0}) (db' : Db)
    → raise_if b e db ≡ ok (u, db')
    → db' ≡ db
raise_if_same true e db u db' h = absurd (cc)
raise_if_same false e db u db' h = ground arith

pub IsReadOnly-raise_if : (b : Bool) (e : Error) → IsReadOnly (raise_if b e)
IsReadOnly-raise_if b e = record { at = raise_if_same b e }

pub IsReadOnly-bind :
    {A B : Type 0} (m : Tx A) (f : A → Tx B)
    → IsReadOnly m
    → ((a : A) → IsReadOnly (f a))
    → IsReadOnly (m >>= f)
IsReadOnly-bind m f r s = record {
  at = λ db b db'' h.
      let (a, db', first, second) = bind_inv m f db h in
      (s a).at db' b db'' second ∙ r.at db a db' first;
}

pub ruleset read_only_rules = (
  IsReadOnly-pure, IsReadOnly-raise, IsReadOnly-lift, IsReadOnly-gets, IsReadOnly-raise_if,
  IsReadOnly-bind,
)
