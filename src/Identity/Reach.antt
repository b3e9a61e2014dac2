-- ===== src/Identity/Reach.antt =====
-- The owner keys that a request reaches, written out, and what they name.
use ctx_ttl_oss.Prelude.{
  String, ◌≡◌, refl, ◌⊎◌, inl, inr, true, false, ◌||◌, Option, none, some, List, [], ◌∷◌, ◌++◌,
  ◌==◌, nat_eq, string_eq, option_eq, list_eq, Option-cases, or_text, ok, All-append, All,
}
use ctx_ttl_oss.Models.Dimensions.{
  ContextScope, kind_eq, scope_eq, retention_eq, applicability_eq, authority_eq, status_eq,
  event_type_eq,
}
use ctx_ttl_oss.Models.Context.{key_for, with_project, OwnerKey}
use ctx_ttl_oss.Identity.{
  RequestIdentity, owner_of, effective_turn_id, append_key, reachable_owner_keys,
}

-- the key names the session where its scope is bound to one, and the namespace otherwise
abbrev pub IsWithin : String → String → OwnerKey → Type 0
IsWithin session namespace (scope ∷ second ∷ rest) =
    ((scope == "turn" || scope == "session") ≡ true) × (second ≡ session)
    ⊎ ((scope == "turn" || scope == "session") ≡ false) × (second ≡ namespace)
IsWithin session namespace _ = ⊥

abbrev pub namespace_of : RequestIdentity → String
namespace_of i = or_text i.user_id i.session_id

-- the keys, written out
abbrev pub turn_keys : RequestIdentity → Option String → List OwnerKey
turn_keys i none = []
turn_keys i (some t) = ("turn" ∷ i.session_id ∷ t ∷ []) ∷ []

abbrev pub named_keys : String → RequestIdentity → Option String → List OwnerKey
named_keys scope i none = []
named_keys scope i (some id) = with_project scope (namespace_of i) i.project_id id ∷ []

abbrev pub project_keys : RequestIdentity → Option String → List OwnerKey
project_keys i none = []
project_keys i (some p) = ("project" ∷ namespace_of i ∷ p ∷ []) ∷ []

abbrev pub user_keys : Option String → List OwnerKey
user_keys none = []
user_keys (some u) = ("user" ∷ u ∷ []) ∷ []

abbrev pub all_keys : RequestIdentity → Option String → List OwnerKey
all_keys i turn_id =
    turn_keys i (effective_turn_id turn_id i.turn_id)
    ++ (("session" ∷ i.session_id ∷ [])
        ∷ (named_keys "task" i i.task_id
            ++ (named_keys "agent" i i.agent_id
                ++ (project_keys i i.project_id ++ user_keys i.user_id))))

module _ (i : RequestIdentity) where
  turn_key :
      (t : Option String)
      → append_key t (key_for (owner_of i) ContextScope.turn t) ≡ ok (turn_keys i t)
  unfolding key_for
  turn_key none = refl
  turn_key (some t) = refl

  task_key :
      (o : Option String)
      → i.task_id ≡ o
      → append_key o (key_for (owner_of i) ContextScope.task none) ≡ ok (named_keys "task" i o)
  unfolding key_for
  task_key none e = refl
  task_key (some t) e = rw e refl

  agent_key :
      (o : Option String)
      → i.agent_id ≡ o
      → append_key o (key_for (owner_of i) ContextScope.agent none) ≡ ok (named_keys "agent" i o)
  unfolding key_for
  agent_key none e = refl
  agent_key (some t) e = rw e refl

  project_key :
      (o : Option String)
      → i.project_id ≡ o
      → append_key o (key_for (owner_of i) ContextScope.project none) ≡ ok (project_keys i o)
  unfolding key_for
  project_key none e = refl
  project_key (some t) e = rw e refl

  user_key :
      (o : Option String)
      → i.user_id ≡ o
      → append_key o (key_for (owner_of i) ContextScope.user none) ≡ ok (user_keys o)
  unfolding key_for
  user_key none e = refl
  user_key (some t) e = rw e refl

  session_key : key_for (owner_of i) ContextScope.session none ≡ ok ("session" ∷ i.session_id ∷ [])
  unfolding key_for
  session_key = refl

-- No request identity makes `reachable_owner_keys` raise, whatever coordinates it has: the guards
-- keep `key_for` from a missing coordinate, and the keys are those written out.
pub reachable_total :
    (i : RequestIdentity) (turn_id : Option String)
    → reachable_owner_keys i turn_id ≡ ok (all_keys i turn_id)
unfolding reachable_owner_keys
reachable_total i turn_id =
    rw
      (
        turn_key i,
        session_key i,
        task_key i i.task_id refl,
        agent_key i i.agent_id refl,
        project_key i i.project_id refl,
        user_key i i.user_id refl,
      )
      refl

module _ (i : RequestIdentity) where
  turn-IsWithin : (t : Option String) → All (IsWithin i.session_id (namespace_of i)) (turn_keys i t)
  turn-IsWithin none = tt
  turn-IsWithin (some t) = (inl (refl, refl), tt)

  task-IsWithin :
      (o : Option String) → All (IsWithin i.session_id (namespace_of i)) (named_keys "task" i o)
  task-IsWithin none = tt
  task-IsWithin (some t) = elim (Option-cases i.project_id) [
    | inl e ↦ rw e (inr (refl, refl), tt)
    | inr (p, e) ↦ rw e (inr (refl, refl), tt)
  ]

  agent-IsWithin :
      (o : Option String) → All (IsWithin i.session_id (namespace_of i)) (named_keys "agent" i o)
  agent-IsWithin none = tt
  agent-IsWithin (some t) = elim (Option-cases i.project_id) [
    | inl e ↦ rw e (inr (refl, refl), tt)
    | inr (p, e) ↦ rw e (inr (refl, refl), tt)
  ]

  project-IsWithin :
      (o : Option String) → All (IsWithin i.session_id (namespace_of i)) (project_keys i o)
  project-IsWithin none = tt
  project-IsWithin (some p) = (inr (refl, refl), tt)

  user-IsWithin :
      (o : Option String)
      → i.user_id ≡ o
      → ((u : String) → o ≡ some u → (u == "") ≡ false)
      → All (IsWithin i.session_id (namespace_of i)) (user_keys o)
  user-IsWithin none e named = tt
  user-IsWithin (some u) e named = (inr (refl, rw (e, named u refl) refl), tt)

  -- every key names the session, or the namespace
  pub keys-IsWithin :
      (turn_id : Option String)
      → ((u : String) → i.user_id ≡ some u → (u == "") ≡ false)
      → All (IsWithin i.session_id (namespace_of i)) (all_keys i turn_id)
  keys-IsWithin turn_id named =
      All-append _ (turn_keys i (effective_turn_id turn_id i.turn_id)) _ (turn-IsWithin _) (
        inl (refl, refl),
        All-append _ (named_keys "task" i i.task_id) _ (task-IsWithin _) (
            All-append _ (named_keys "agent" i i.agent_id) _ (agent-IsWithin _) (
              All-append _ (project_keys i i.project_id) _ (project-IsWithin _)
                (user-IsWithin _ refl named))),
      )
