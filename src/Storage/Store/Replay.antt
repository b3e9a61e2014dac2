-- ===== src/Storage/Store/Replay.antt =====
-- An idempotent mutation that is asked for again.
use ctx_ttl_oss.Prelude.{
  ok_inj, String, ◌≡◌, refl, sym, ap, subst, ◌∙◌, inl, inr, true, false, Option, none, some, ◌∷◌,
  ◌==◌, ==-refl, nat_eq, string_eq, option_eq, list_eq, Bool-cases, request_conflict, ok, err, any,
  find,
}
use ctx_ttl_oss.Models.Context.{ContextItem}
use ctx_ttl_oss.Models.Event.{ContextEvent}
use ctx_ttl_oss.Storage.Store.{
  ApplyResult, IdempotencyRequest, apply_in_transaction, request_is, stored_request, insert_request,
  apply_and_record, idempotent_in_transaction, apply_idempotent,
}
use ctx_ttl_oss.Storage.Tables.{MutationRequest, Db}
use ctx_ttl_oss.Storage.Transaction.{◌>>=◌, pure, gets, transaction, bind_inv, transaction-ok}

-- the request is recorded with this result
pub record IsRecorded (q : IdempotencyRequest) (r : ApplyResult) (db : Db) : Type 0 where
  pub row : MutationRequest
  pub found : find (request_is q) db.mutation_requests ≡ some row
  pub same_fingerprint : row.request_fingerprint ≡ q.request_fingerprint
  pub event : row.event ≡ r.event
  pub item : row.item ≡ r.item

-- the row that `insert_request` inserts
abbrev new_request : IdempotencyRequest → ApplyResult → MutationRequest
new_request q r = record {
  session_id = q.session_id;
  request_id = q.request_id;
  operation = q.operation;
  request_fingerprint = q.request_fingerprint;
  event = r.event;
  item = r.item;
}

request_is_new : (q : IdempotencyRequest) (r : ApplyResult) → request_is q (new_request q r) ≡ true
request_is_new q r = rw (==-refl q.session_id, ==-refl q.request_id, ==-refl q.operation) refl

insert_request-IsRecorded :
    (q : IdempotencyRequest) (r : ApplyResult) (db : Db) {u : Unit {0}} {db' : Db}
    → insert_request q r db ≡ ok (u, db')
    → IsRecorded q r db'
unfolding insert_request
insert_request-IsRecorded q r db {u} {db'} h =
    elim (Bool-cases (any (request_is q) db.mutation_requests)) [
      | inl known ↦ absurd (let h' = rw known at h in cc)
      | inr new ↦
          let h' = rw new at h in
          let e : record db { mutation_requests = new_request q r ∷ db.mutation_requests } ≡ db' =
            ap (λ p. p.1) (ok_inj h') in
          record {
            row = new_request q r;
            found =
                subst (λ d. find (request_is q) d.mutation_requests ≡ some (new_request q r)) e
                  (rw (request_is_new q r) refl);
            same_fingerprint = refl;
            event = refl;
            item = refl;
          }
    ]

stored_request_inv :
    (q : IdempotencyRequest) (x : MutationRequest) (db : Db) {existing : Option ApplyResult}
    {db' : Db}
    → stored_request q (some x) db ≡ ok (existing, db')
    → (x.request_fingerprint ≡ q.request_fingerprint)
      × (existing ≡ some (record { event = x.event; item = x.item; applied = false }))
      × (db' ≡ db)
unfolding stored_request
stored_request_inv q x db h = elim (Bool-cases (x.request_fingerprint == q.request_fingerprint)) [
  | inl same ↦
      let h' = rw same at h in
      let e = ok_inj h' in
      (
        (string_eq.beq_iff x.request_fingerprint q.request_fingerprint).0 same,
        ap (λ p. p.0) (sym e),
        ap (λ p. p.1) (sym e),
      )
  | inr other ↦ absurd (let h' = rw other at h in cc)
]

recorded :
    (e : ContextEvent) (item : Option ContextItem) (q : IdempotencyRequest) (db : Db)
    {r : ApplyResult} {db' : Db}
    → apply_idempotent e item q db ≡ (ok r, db')
    → IsRecorded q r db'
unfolding apply_idempotent idempotent_in_transaction apply_and_record stored_request
recorded e item q db {r} {db'} h =
    let done = transaction-ok (idempotent_in_transaction e item q) db h in
    let (row, db₁, read, h₁) =
      bind_inv (gets (λ d. find (request_is q) d.mutation_requests))
        (λ found. stored_request q found >>= apply_and_record e item q) db done in
    let (existing, db₂, stored, h₂) =
      bind_inv (stored_request q row) (apply_and_record e item q) db₁ h₁ in
    from_row row existing db₁ db₂ (ap (λ p. p.0) (ok_inj read)) (ap (λ p. p.1) (ok_inj read)) stored
      h₂
  where
    from_row :
        (row : Option MutationRequest) (existing : Option ApplyResult) (db₁ db₂ : Db)
        → find (request_is q) db.mutation_requests ≡ row
        → db ≡ db₁
        → stored_request q row db₁ ≡ ok (existing, db₂)
        → apply_and_record e item q existing db₂ ≡ ok (r, db')
        → IsRecorded q r db'
    from_row none existing db₁ db₂ found same stored last =
        let nothing = ap (λ p. p.0) (ok_inj stored) in
        let (a, db₃, applied, rest) =
          bind_inv (apply_in_transaction e item) (λ a. insert_request q a >>= λ _. pure a) db₂
            (subst (λ x. apply_and_record e item q x db₂ ≡ ok (r, db')) (sym nothing) last) in
        let (u, db₄, inserted, end) = bind_inv (insert_request q a) (λ _. pure a) db₃ rest in
        subst (λ p. IsRecorded q p.0 p.1) (ok_inj end) (insert_request-IsRecorded q a db₃ inserted)
    from_row (some x) existing db₁ db₂ found same stored last =
        let (fingerprint, known, unchanged) = stored_request_inv q x db₁ stored in
        let end = ok_inj (subst (λ o. apply_and_record e item q o db₂ ≡ ok (r, db')) known last) in
        subst (λ p. IsRecorded q p.0 p.1) end
          (record {
            row = x;
            found =
                subst (λ d. find (request_is q) d.mutation_requests ≡ some x) (same ∙ sym unchanged)
                  found;
            same_fingerprint = fingerprint;
            event = refl;
            item = refl;
          })

-- An idempotent mutation that succeeded, asked for again, whatever event and item it then brings,
-- returns the recorded event and item with `applied` false and changes no table.
pub apply_idempotent_repeated :
    (e e' : ContextEvent) (item item' : Option ContextItem) (q : IdempotencyRequest) (db : Db)
    {r : ApplyResult} {db' : Db}
    → apply_idempotent e item q db ≡ (ok r, db')
    → apply_idempotent e' item' q db' ≡ (ok (record r { applied = false }), db')
unfolding apply_idempotent idempotent_in_transaction stored_request apply_and_record transaction
apply_idempotent_repeated e e' item item' q db {r} {db'} h =
    let known = recorded e item q db h in
    rw (known.found, known.same_fingerprint, ==-refl q.request_fingerprint, known.event, known.item)
      refl

-- With another fingerprint the same request is refused with `RequestConflict`, and no table changes.
pub apply_idempotent_conflict :
    (e e' : ContextEvent) (item item' : Option ContextItem) (q : IdempotencyRequest)
    (other_fingerprint : String) (db : Db) {r : ApplyResult} {db' : Db}
    → apply_idempotent e item q db ≡ (ok r, db')
    → (q.request_fingerprint == other_fingerprint) ≡ false
    → apply_idempotent e' item' (record q { request_fingerprint = other_fingerprint }) db'
      ≡ (err request_conflict, db')
unfolding apply_idempotent idempotent_in_transaction stored_request apply_and_record transaction
apply_idempotent_conflict e e' item item' q other_fingerprint db {r} {db'} h differs =
    let known = recorded e item q db h in rw (known.found, known.same_fingerprint, differs) refl
