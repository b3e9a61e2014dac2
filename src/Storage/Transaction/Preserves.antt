-- ===== src/Storage/Transaction/Preserves.antt =====
-- What a sequence of statements preserves of the database where it completes, with what is known of
-- its result.
use ctx_ttl_oss.Storage.Transaction.ReadOnly.{IsReadOnly}
use ctx_ttl_oss.Storage.Tables.{Db}
use ctx_ttl_oss.Prelude.{
  ◌≡◌, refl, sym, subst, nat_eq, string_eq, option_eq, list_eq, Result, ok, err,
}
use ctx_ttl_oss.Models.Dimensions.{
  kind_eq, scope_eq, retention_eq, applicability_eq, authority_eq, status_eq, event_type_eq,
}
use ctx_ttl_oss.Storage.Transaction.{
  Tx, ◌>>=◌, bind_inv, transaction, transaction-ok, transaction-err,
}

pub record Preserves (P : Db → Type 0) {A : Type 0} (Q : A → Type 0) (m : Tx A) : Type 0 where
  pub at : (db : Db) (a : A) (db' : Db) → m db ≡ ok (a, db') → P db → P db' × Q a

abbrev pub Any : {A : Type 0} → A → Type 0
Any a = Unit

module _ (P : Db → Type 0) {A : Type 0} where
  pub Preserves-read_only : (m : Tx A) → IsReadOnly m → Preserves P Any m
  Preserves-read_only m r = record { at = λ db a db' e h. (subst P (sym (r.at db a db' e)) h, tt) }

  pub Preserves-bind :
      {B : Type 0} (Q : A → Type 0) (R : B → Type 0) (m : Tx A) (f : A → Tx B)
      → Preserves P Q m
      → ((a : A) → Q a → Preserves P R (f a))
      → Preserves P R (m >>= f)
  Preserves-bind Q R m f k l = record {
    at = λ db b db' e h.
        let (a, db₁, first, rest) = bind_inv m f db e in
        let (h₁, q) = k.at db a db₁ first h in (l a q).at db₁ b db' rest h₁;
  }

  pub Preserves-transaction :
      (Q : A → Type 0) (m : Tx A) (db : Db) → Preserves P Q m → P db → P (transaction m db).1
  Preserves-transaction Q m db k h = go (transaction m db) refl
    where
      go : (p : Result A × Db) → transaction m db ≡ p → P p.1
      go (ok a, db') e = (k.at db a db' (transaction-ok m db e) h).0
      go (err x, db') e = subst P (sym (transaction-err m db e)) h
