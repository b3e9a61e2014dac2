-- ===== src/Application/StructuredIngestion/Checks.antt =====
-- The checks that the construction of an ingested item runs.
use ctx_ttl_oss.Application.ContextCompilation.{has_key}
use ctx_ttl_oss.Application.StructuredIngestion.{
  lacks_coordinate, is_current_turn, StructuredContextInput, construct_structured, leased_input,
  validate_supported_dimensions, fields_fit, ingested_item, default_applicability,
}
use ctx_ttl_oss.Models.Context.{
  key_for, with_project, ContextOwner, ContextItem, OwnerKey, SourceRef, owner_key, expires_early,
  validate_lifecycle, validate_fields, construct_item, has_lease, is_untrusted, positive,
}
use ctx_ttl_oss.Models.Dimensions.{
  ContextScope, kind_eq, scope_eq, retention_eq, applicability_eq, authority_eq, status_eq,
  event_type_eq, Retention, ContextApplicability,
}
use ctx_ttl_oss.Prelude.{
  ◌>>◌, raise_if, String, ◌≡◌, refl, inl, inr, Bool, true, false, ◌||◌, Option, none, some, [], ◌∷◌,
  nat_eq, string_eq, option_eq, list_eq, if◌then◌else◌, Option-cases, is_none, or_text, Error, ok,
  err, not, ◌&&◌, arith, ◌==◌, is_some, ℕ, leb, value_error, ap, ◌∙◌, Result, subst, ==-refl,
}

-- the checks of `construct_item` in a row
checks_in_row :
    (b₁ b₂ b₃ c₁ c₂ c₃ c₄ c₅ c₆ c₇ c₈ : Bool) (e : Error) (i : ContextItem)
    → ((raise_if b₁ e >> (raise_if b₂ e >> raise_if b₃ e))
        >> ((raise_if c₁ e
              >> (raise_if c₂ e
                  >> (raise_if c₃ e
                      >> (raise_if c₄ e
                          >> (raise_if c₅ e
                              >> (raise_if c₆ e >> (raise_if c₇ e >> raise_if c₈ e)))))))
            >> ok i))
      ≡ (if b₁ || b₂ || b₃ || c₁ || c₂ || c₃ || c₄ || c₅ || c₆ || c₇ || c₈ then err e else ok i)
checks_in_row true b₂ b₃ c₁ c₂ c₃ c₄ c₅ c₆ c₇ c₈ e i = refl
checks_in_row false true b₃ c₁ c₂ c₃ c₄ c₅ c₆ c₇ c₈ e i = refl
checks_in_row false false true c₁ c₂ c₃ c₄ c₅ c₆ c₇ c₈ e i = refl
checks_in_row false false false true c₂ c₃ c₄ c₅ c₆ c₇ c₈ e i = refl
checks_in_row false false false false true c₃ c₄ c₅ c₆ c₇ c₈ e i = refl
checks_in_row false false false false false true c₄ c₅ c₆ c₇ c₈ e i = refl
checks_in_row false false false false false false true c₅ c₆ c₇ c₈ e i = refl
checks_in_row false false false false false false false true c₆ c₇ c₈ e i = refl
checks_in_row false false false false false false false false true c₇ c₈ e i = refl
checks_in_row false false false false false false false false false true c₈ e i = refl
checks_in_row false false false false false false false false false false c₈ e i = last c₈
  where
    last : (b : Bool) → ((raise_if b e) >> ok i) ≡ (if b then err e else ok i)
    last true = refl
    last false = refl

-- a scope with its coordinates has an owner key
keyed :
    (scope : ContextScope) (owner : ContextOwner) (turn_id : Option String)
    → lacks_coordinate scope owner turn_id ≡ false
    → (key : OwnerKey) × (key_for owner scope turn_id ≡ ok key)
unfolding key_for
keyed ContextScope.turn owner turn_id h = present turn_id h
  where
    present :
        (t : Option String)
        → is_none t ≡ false
        → (key : OwnerKey) × (key_for owner ContextScope.turn t ≡ ok key)
    present none h = absurd (cc)
    present (some t) h = (_, refl)
keyed ContextScope.session owner turn_id h = (_, refl)
keyed ContextScope.task owner turn_id h = elim (Option-cases owner.task_id) [
  | inl missing ↦ absurd (let h' = rw missing at h in cc)
  | inr (t, named) ↦ (
    with_project "task" (or_text owner.user_id owner.session_id) owner.project_id t,
    rw named refl,
  )
]
keyed ContextScope.agent owner turn_id h = elim (Option-cases owner.agent_id) [
  | inl missing ↦ absurd (let h' = rw missing at h in cc)
  | inr (t, named) ↦ (
    with_project "agent" (or_text owner.user_id owner.session_id) owner.project_id t,
    rw named refl,
  )
]
keyed ContextScope.project owner turn_id h = elim (Option-cases owner.project_id) [
  | inl missing ↦ absurd (let h' = rw missing at h in cc)
  | inr (t, named) ↦ ("project" ∷ or_text owner.user_id owner.session_id ∷ t ∷ [], rw named refl)
]
keyed ContextScope.user owner turn_id h = elim (Option-cases owner.user_id) [
  | inl missing ↦ absurd (let h' = rw missing at h in cc)
  | inr (t, named) ↦ ("user" ∷ t ∷ [], rw named refl)
]

abbrev is_unfit : Bool → Bool → ContextApplicability → Retention → Bool → Bool
is_unfit dated counted a retention t =
    (retention == Retention.leased && not (counted || dated))
    || not (retention == Retention.leased) && (counted || dated)
    || a == ContextApplicability.current_turn && not t
    || a == ContextApplicability.current_turn && not (retention == Retention.ephemeral)

abbrev retention_of : ContextApplicability → Bool → Retention
retention_of a leased =
    if a == ContextApplicability.current_turn
    then Retention.ephemeral
    else if leased
    then Retention.leased
    else Retention.persistent

abbrev choice : Bool → Option ContextApplicability → ContextApplicability
choice t (some a) = a
choice t none = if t then ContextApplicability.current_turn else ContextApplicability.selective

-- among the accepted bodies, only one of a turn with a lease chooses a retention that is unfit
unfit_choice :
    (t dated counted : Bool) (a : Option ContextApplicability)
    → (is_current_turn a && not t) ≡ false
    → (is_current_turn a && (dated || counted)) ≡ false
    → (t && is_some a && not (is_current_turn a)) ≡ false
    → is_unfit dated counted (choice t a) (retention_of (choice t a) (dated || counted)) t
      ≡ (t && (dated || counted))
unfit_choice true true counted none h k l = ground arith
unfit_choice true false counted none h k l = ground arith
unfit_choice false true counted none h k l = ground arith
unfit_choice false false counted none h k l = ground arith
unfit_choice t dated counted (some ContextApplicability.current_turn) h k l = ground arith
unfit_choice t dated counted (some ContextApplicability.selective) h k l = ground arith
unfit_choice t dated counted (some ContextApplicability.required) h k l = ground arith

fields_parts :
    (r : StructuredContextInput)
    → fields_fit r ≡ true
    → (leb r.priority 1000000 ≡ true)
      × (leb r.confidence 1000000 ≡ true)
      × (positive r.ttl_turns ≡ true)
unfolding fields_fit
fields_parts r h = ground arith

pub dimension_parts :
    (r : StructuredContextInput)
    → validate_supported_dimensions r ≡ ok tt
    → ((is_current_turn r.applicability && not (r.scope == ContextScope.turn)) ≡ false)
      × ((is_current_turn r.applicability && leased_input r) ≡ false)
      × ((r.scope == ContextScope.turn
            && is_some r.applicability
            && not (is_current_turn r.applicability))
          ≡ false)
unfolding validate_supported_dimensions
dimension_parts r h = ground arith

pub accepted :
    (r : StructuredContextInput)
    → construct_structured r ≡ ok r
    → (fields_fit r ≡ true) × (validate_supported_dimensions r ≡ ok tt)
unfolding construct_structured
accepted r h = parts (fields_fit r) (validate_supported_dimensions r) h
  where
    parts :
        (b : Bool) (v : Result (Unit {0}))
        → (if b then elim v [ ok _ ↦ ok r | err e ↦ err e ] else err value_error) ≡ ok r
        → (b ≡ true) × (v ≡ ok tt)
    parts false v h = absurd (cc)
    parts true (ok u) h = (refl, refl)
    parts true (err e) h = absurd (cc)

joined :
    (fit₁ fit₂ fit₃ strange unleased leased dated self_target misplaced kept untrusted : Bool)
    (bad : Bool)
    → fit₁ ≡ true
    → fit₂ ≡ true
    → fit₃ ≡ true
    → strange ≡ false
    → self_target ≡ false
    → untrusted ≡ false
    → (unleased || leased || misplaced || kept) ≡ bad
    → (not fit₁
        || not fit₂
        || not fit₃
        || strange
        || unleased
        || leased
        || dated
        || self_target
        || misplaced
        || kept
        || untrusted)
      ≡ (bad || dated)
joined a b c d u l dated e m k f bad h₁ h₂ h₃ h₄ h₅ h₆ h₇ = ground arith

default_applicability-choice :
    (a : Option ContextApplicability) (scope : ContextScope)
    → choice (scope == ContextScope.turn) a ≡ default_applicability a scope
default_applicability-choice none scope = refl
default_applicability-choice (some a) scope = refl

-- the item that a body makes, checked
pub constructed :
    (r : StructuredContextInput) (o : ContextOwner) (source : SourceRef) (id : String) (now : ℕ)
    → construct_structured r ≡ ok r
    → source.session_id ≡ o.session_id
    → lacks_coordinate r.scope o source.turn_id ≡ false
    → construct_item (ingested_item r o source id now) ≡ (
        if r.scope == ContextScope.turn && leased_input r || expires_early r.expires_at now
        then err value_error
        else ok (ingested_item r o source id now))
unfolding construct_item validate_fields validate_lifecycle owner_key
constructed r o source id now valid session coordinate =
    let i = ingested_item r o source id now in
    let (fit, dims) = accepted r valid in
    let (p, q, u) = fields_parts r fit in
    let (h, k, l) = dimension_parts r dims in
    let (key, has_key) = keyed r.scope o source.turn_id coordinate in
    let t = r.scope == ContextScope.turn in
    let dated = is_some r.expires_at in
    let counted = is_some r.ttl_turns in
    let decided =
      subst
        (λ a.
          is_unfit dated counted a (retention_of a (dated || counted)) t
          ≡ (t && (dated || counted)))
        (default_applicability-choice r.applicability r.scope)
        (unfit_choice t dated counted r.applicability h k l) in
    let at_home : not (o.session_id == source.session_id) ≡ false =
      rw (session, ==-refl o.session_id) refl in
    rw has_key (
      checks_in_row (not (leb i.priority 1000000)) (not (leb i.confidence 1000000))
        (not (positive i.ttl_turns)) (not (i.owner.session_id == i.source.session_id))
        (i.retention == Retention.leased && not (has_lease i))
        (not (i.retention == Retention.leased) && has_lease i)
        (expires_early i.expires_at i.created_at) (i.supersedes == some i.id)
        (i.applicability == ContextApplicability.current_turn && not (i.scope == ContextScope.turn))
        (i.applicability == ContextApplicability.current_turn
          && not (i.retention == Retention.ephemeral))
        (i.applicability == ContextApplicability.required && is_untrusted i.authority) value_error i
      ∙ ap (λ b. if b then err value_error else ok i)
          (joined (leb i.priority 1000000) (leb i.confidence 1000000) (positive i.ttl_turns)
            (not (i.owner.session_id == i.source.session_id))
            (i.retention == Retention.leased && not (has_lease i))
            (not (i.retention == Retention.leased) && has_lease i)
            (expires_early i.expires_at i.created_at) (i.supersedes == some i.id)
            (i.applicability == ContextApplicability.current_turn
              && not (i.scope == ContextScope.turn))
            (i.applicability == ContextApplicability.current_turn
              && not (i.retention == Retention.ephemeral))
            (i.applicability == ContextApplicability.required && is_untrusted i.authority)
            (t && leased_input r) p q u at_home refl (ground arith) decided))
