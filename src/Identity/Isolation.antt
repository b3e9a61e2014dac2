-- ===== src/Identity/Isolation.antt =====
-- What a request can reach, and what it cannot.
use ctx_ttl_oss.Identity.Reach.{
  IsWithin, namespace_of, turn_keys, named_keys, project_keys, user_keys, all_keys, reachable_total,
  keys-IsWithin,
}
use ctx_ttl_oss.Prelude.{
  String, ◌≡◌, refl, sym, subst, ◌∙◌, ◌⊎◌, inl, inr, true, false, Option, none, some, List, [], ◌∷◌,
  ◌++◌, arith, ◌==◌, ==-refl, texts_iff, nat_eq, string_eq, option_eq, list_eq, Bool-cases, ok,
  ok_inj, All, contains,
}
use ctx_ttl_oss.Models.Dimensions.{
  kind_eq, scope_eq, retention_eq, applicability_eq, authority_eq, status_eq, event_type_eq,
}
use ctx_ttl_oss.Models.Context.{OwnerKey}
use ctx_ttl_oss.Identity.{RequestIdentity, effective_turn_id, reachable_owner_keys}

within_both :
    (s t n m : String) (k : OwnerKey) → IsWithin s n k → IsWithin t m k → (s ≡ t) ⊎ (n ≡ m)
within_both s t n m [] x y = elim x [ ]
within_both s t n m (scope ∷ []) x y = elim x [ ]
within_both s t n m (scope ∷ second ∷ rest) (inl (_, a)) (inl (_, b)) = inl (sym a ∙ b)
within_both s t n m (scope ∷ second ∷ rest) (inr (_, a)) (inr (_, b)) = inr (sym a ∙ b)
within_both s t n m (scope ∷ second ∷ rest) (inl (a, _)) (inr (b, _)) = absurd (cc)
within_both s t n m (scope ∷ second ∷ rest) (inr (a, _)) (inl (b, _)) = absurd (cc)

All-contains :
    (P : OwnerKey → Type 0) (keys : List OwnerKey) (k : OwnerKey)
    → All P keys
    → contains k keys ≡ true
    → P k
All-contains P [] k h e = absurd (cc)
All-contains P (x ∷ xs) k h e = elim (Bool-cases (k == x)) [
  | inl same ↦ subst P (sym ((texts_iff k x).0 same)) h.0
  | inr other ↦ All-contains P xs k h.1 (ground arith)
]

-- Two requests that both name a user reach a common owner key only if they have the session or the
-- user in common: neither can see or change context of the other.
pub reachable_isolated :
    (a b : RequestIdentity) (user_a user_b : String) (turn_a turn_b : Option String)
    (keys_a keys_b : List OwnerKey) (k : OwnerKey)
    → a.user_id ≡ some user_a
    → b.user_id ≡ some user_b
    → (user_a == "") ≡ false
    → (user_b == "") ≡ false
    → reachable_owner_keys a turn_a ≡ ok keys_a
    → reachable_owner_keys b turn_b ≡ ok keys_b
    → contains k keys_a ≡ true
    → contains k keys_b ≡ true
    → (a.session_id ≡ b.session_id) ⊎ (user_a ≡ user_b)
reachable_isolated a b u v turn_a turn_b keys_a keys_b k is_u is_v named_u named_v reach_a reach_b
      in_a in_b =
    elim (within_both a.session_id b.session_id u v k
      (within a u turn_a keys_a is_u named_u reach_a in_a)
      (within b v turn_b keys_b is_v named_v reach_b in_b)) [ inl e ↦ inl e | inr e ↦ inr e ]
  where
    within :
        (i : RequestIdentity) (u : String) (turn_id : Option String) (keys : List OwnerKey)
        → i.user_id ≡ some u
        → (u == "") ≡ false
        → reachable_owner_keys i turn_id ≡ ok keys
        → contains k keys ≡ true
        → IsWithin i.session_id u k
    within i u turn_id keys e named reach inside =
        let same_keys : keys ≡ all_keys i turn_id =
          ok_inj (sym reach ∙ reachable_total i turn_id) in
        let namespace : namespace_of i ≡ u = rw (e, named) refl in
        subst (λ n. IsWithin i.session_id n k) namespace
          (All-contains _ (all_keys i turn_id) k (keys-IsWithin i turn_id (λ w is_w. ground arith))
            (subst (λ ks. contains k ks ≡ true) same_keys inside))

contains-behind :
    (k : OwnerKey) (xs ys : List OwnerKey) → contains k ys ≡ true → contains k (xs ++ ys) ≡ true
contains-behind k [] ys h = h
contains-behind k (x ∷ xs) ys h = ground (arith, contains-behind k xs ys)

has_project :
    (i : RequestIdentity) (turn_id : Option String) (p : String)
    → i.project_id ≡ some p
    → contains ("project" ∷ namespace_of i ∷ p ∷ []) (all_keys i turn_id) ≡ true
has_project i turn_id p e =
    let k = "project" ∷ namespace_of i ∷ p ∷ [] in
    let of_project = project_keys i i.project_id ++ user_keys i.user_id in
    let of_agent = named_keys "agent" i i.agent_id ++ of_project in
    let of_task = named_keys "task" i i.task_id ++ of_agent in
    let of_session = ("session" ∷ i.session_id ∷ []) ∷ of_task in
    let found : contains k of_project ≡ true =
      subst (λ o. contains k (project_keys i o ++ user_keys i.user_id) ≡ true) (sym e)
        (rw (==-refl k) refl) in
    contains-behind k (turn_keys i (effective_turn_id turn_id i.turn_id)) of_session (
      contains-behind k (("session" ∷ i.session_id ∷ []) ∷ []) of_task (
        contains-behind k (named_keys "task" i i.task_id) of_agent
          (contains-behind k (named_keys "agent" i i.agent_id) of_project found)))

-- A request without a user, in session `s`, and a request of the user named `s`, in any session,
-- reach the same owner key of a project: the namespaces of sessions and users are not kept apart.
pub anonymous_shares_namespace :
    (a b : RequestIdentity) (s p : String) (turn_a turn_b : Option String)
    → a.session_id ≡ s
    → a.user_id ≡ none
    → b.user_id ≡ some s
    → (s == "") ≡ false
    → a.project_id ≡ some p
    → b.project_id ≡ some p
    → (keys_a keys_b : List OwnerKey) × (k : OwnerKey) × (reachable_owner_keys a turn_a ≡ ok keys_a)
      × (reachable_owner_keys b turn_b ≡ ok keys_b)
      × (contains k keys_a ≡ true)
      × (contains k keys_b ≡ true)
anonymous_shares_namespace a b s p turn_a turn_b in_s anonymous named some_name in_a in_b = (
  all_keys a turn_a,
  all_keys b turn_b,
  "project" ∷ s ∷ p ∷ [],
  reachable_total a turn_a,
  reachable_total b turn_b,
  subst (λ n. contains ("project" ∷ n ∷ p ∷ []) (all_keys a turn_a) ≡ true)
      (rw (anonymous, in_s) refl) (has_project a turn_a p in_a),
  subst (λ n. contains ("project" ∷ n ∷ p ∷ []) (all_keys b turn_b) ≡ true)
      (rw (named, some_name) refl) (has_project b turn_b p in_b),
)
