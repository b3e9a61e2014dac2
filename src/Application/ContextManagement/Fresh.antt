-- ===== src/Application/ContextManagement/Fresh.antt =====
-- After the due items of a request are expired, no item that it reads as active is due.
use ctx_ttl_oss.Application.ContextManagement.Expiry.{IsLogged-Expirer, expire_item-Ensures}
use ctx_ttl_oss.Application.ContextManagement.Keeps.{expire_item-Keeps, expire_all-Keeps}
use ctx_ttl_oss.Application.Service.Keeps.{Expirer}
use ctx_ttl_oss.Application.Service.Ensures.{Ensures, Ensures-bind}
use ctx_ttl_oss.Application.ContextManagement.{is_due, expire_item, expire_all}
use ctx_ttl_oss.Storage.Store.Frame.{apply-frame}
use ctx_ttl_oss.Storage.Store.Targets.{item_in}
use ctx_ttl_oss.Storage.Store.Ended.{IsEnded, IsLogged}
use ctx_ttl_oss.Storage.Queries.{items_of}
use ctx_ttl_oss.Application.Service.{pure, Stamps}
use ctx_ttl_oss.Prelude.Unique.{UniqueBy}
use ctx_ttl_oss.Storage.Store.Consistent.{same_item}
use ctx_ttl_oss.Storage.Tables.{ItemRow, Db}
use ctx_ttl_oss.Identity.{RequestIdentity, owner_of}
use ctx_ttl_oss.Models.Context.{ContextOwner, ContextItem}
use ctx_ttl_oss.Prelude.{
  ℕ, String, ◌≡◌, refl, ap, subst, inl, inr, Bool, true, ◌&&◌, ◌||◌, Option, none, some, List, [],
  ◌∷◌, arith, ◌==◌, ==-refl, nat_eq, string_eq, option_eq, list_eq, if◌then◌else◌, Bool-cases, any,
}
use ctx_ttl_oss.Models.Dimensions.{
  kind_eq, scope_eq, retention_eq, applicability_eq, authority_eq, status_eq, event_type_eq,
}

-- every due item of the list is ended
abbrev pub DueEnded : ℕ → List ContextItem → Db → Type 0
DueEnded now items db =
    (id : String) → any (λ x. is_due x now && x.id == id) items ≡ true → IsEnded id db

if_due-Expirer :
    (due : Bool) (id : String) (o : ContextOwner) → Expirer (λ db. due ≡ true → IsEnded id db) o
if_due-Expirer due id o = record {
  expires = λ e db own type h is_due'.
      let (x, found, over) = h is_due' in (x, apply-frame e none id x db (inl over) found, over);
}

module _ (s : Stamps) (i : RequestIdentity) (now : ℕ) (turn_id : Option String) where
  step-Ensures :
      (item : ContextItem)
      → Ensures IsLogged
          (λ _ db. IsLogged db × (is_due item now ≡ true → IsEnded item.id db))
          (if is_due item now then expire_item s item i turn_id "expires_at elapsed" else pure tt)
  step-Ensures item = elim (Bool-cases (is_due item now)) [
    | inl due ↦ rw due (record {
      at = λ w u h e. (
        (expire_item-Keeps IsLogged s i (IsLogged-Expirer (owner_of i)) item turn_id
              "expires_at elapsed").at
            w h,
        λ _. (expire_item-Ensures s i item turn_id "expires_at elapsed").at w u h e,
      );
    })
    | inr later ↦ rw later (record { at = λ w u h e. (h, λ due. absurd (cc)) })
  ]

  pub expire_all-Ensures :
      (items : List ContextItem)
      → Ensures IsLogged (λ _ db. DueEnded now items db) (expire_all s now i turn_id items)
  unfolding expire_all
  expire_all-Ensures [] = record { at = λ w u h e id k. absurd (cc) }
  expire_all-Ensures (item ∷ items) =
      Ensures-bind IsLogged (λ _ db. IsLogged db × (is_due item now ≡ true → IsEnded item.id db))
        (λ _ db. DueEnded now (item ∷ items) db)
        (if is_due item now then expire_item s item i turn_id "expires_at elapsed" else pure tt)
        (λ _. expire_all s now i turn_id items) (step-Ensures item)
        (λ _. record {
          at = λ w u h e id k.
              let rest = (expire_all-Ensures items).at w u h.0 e in
              let kept =
                (expire_all-Keeps (λ db. is_due item now ≡ true → IsEnded item.id db) s i
                    (if_due-Expirer (is_due item now) item.id (owner_of i)) now turn_id items).at
                  w h.1 in
              elim (Bool-cases (is_due item now && item.id == id)) [
                | inl this ↦
                    let due : is_due item now ≡ true = ground arith in
                    let same : (item.id == id) ≡ true = ground arith in
                    subst (λ j. IsEnded j (expire_all s now i turn_id items w).1.db)
                      ((string_eq.beq_iff item.id id).0 same) (kept due)
                | inr another ↦ rest id (let k' = rw another at k in k')
              ];
        })

-- a row that passes a test
pub witness :
    (p : ItemRow → Bool) (rows : List ItemRow)
    → any p rows ≡ true
    → (r : ItemRow) × (p r ≡ true) × ((q : ItemRow → Bool) → q r ≡ true → any q rows ≡ true)
witness p [] h = absurd (cc)
witness p (r ∷ rows) h = elim (Bool-cases (p r)) [
  | inl here ↦ (r, here, λ q k. rw k refl)
  | inr there ↦
      let (x, px, known) = witness p rows (let h' = rw there at h in h') in
      (x, px, λ q k. ground (arith, known q k))
]

-- rows with unique ids are found under them
pub found_unique :
    (p : ItemRow → Bool) (rows : List ItemRow)
    → UniqueBy same_item rows
    → any p rows ≡ true
    → (r : ItemRow) × (p r ≡ true)
      × (item_in r.item.id rows ≡ some r.item)
      × ((q : ItemRow → Bool) → q r ≡ true → any q rows ≡ true)
found_unique p [] u h = absurd (cc)
found_unique p (r ∷ rows) u h = elim (Bool-cases (p r)) [
  | inl here ↦ (r, here, rw (item_in, ==-refl r.item.id) refl, λ q k. rw k refl)
  | inr there ↦
      let (x, px, found, known) = found_unique p rows u.1 (let h' = rw there at h in h') in
      elim (Bool-cases (r.item.id == x.item.id)) [
        | inl same ↦ absurd (let twice = known (same_item r) same in let alone = u.0 in cc)
        | inr different ↦ (x, px, rw (item_in, different) found, λ q k. ground (arith, known q k))
      ]
]

pub any-items :
    (f : ContextItem → Bool) (rows : List ItemRow)
    → any f (items_of rows) ≡ any (λ r. f r.item) rows
any-items f [] = refl
any-items f (r ∷ rows) = ap (λ b. f r.item || b) (any-items f rows)
