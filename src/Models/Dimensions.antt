-- ===== src/Models/Dimensions.antt =====
-- models/context.py, models/events.py: the enumerations. A `StrEnum` member is compared by its rank.
use ctx_ttl_oss.Prelude.{
  ℕ, ◌≡◌, ◌↔◌, true, arith, Eq, nat_eq, string_eq, option_eq, list_eq, nat_beq,
}

pub data ContextKind : Type 0 where
  message fact decision constraint task_state tool_result rag_evidence summary : ContextKind

pub data ContextScope : Type 0 where
  turn session task agent project user : ContextScope

pub data Retention : Type 0 where
  ephemeral leased persistent archived : Retention

pub data ContextApplicability : Type 0 where
  current_turn selective required : ContextApplicability

pub data Authority : Type 0 where
  system developer explicit_user verified_tool retrieved_source assistant_inference : Authority
  summary : Authority

pub data ContextStatus : Type 0 where
  active superseded expired retracted : ContextStatus

abbrev pub kind_rank : ContextKind → ℕ
kind_rank ContextKind.message = 0
kind_rank ContextKind.fact = 1
kind_rank ContextKind.decision = 2
kind_rank ContextKind.constraint = 3
kind_rank ContextKind.task_state = 4
kind_rank ContextKind.tool_result = 5
kind_rank ContextKind.rag_evidence = 6
kind_rank ContextKind.summary = 7

abbrev pub scope_rank : ContextScope → ℕ
scope_rank ContextScope.turn = 0
scope_rank ContextScope.session = 1
scope_rank ContextScope.task = 2
scope_rank ContextScope.agent = 3
scope_rank ContextScope.project = 4
scope_rank ContextScope.user = 5

abbrev pub retention_rank : Retention → ℕ
retention_rank Retention.ephemeral = 0
retention_rank Retention.leased = 1
retention_rank Retention.persistent = 2
retention_rank Retention.archived = 3

abbrev pub applicability_rank : ContextApplicability → ℕ
applicability_rank ContextApplicability.current_turn = 0
applicability_rank ContextApplicability.selective = 1
applicability_rank ContextApplicability.required = 2

abbrev pub authority_rank : Authority → ℕ
authority_rank Authority.system = 0
authority_rank Authority.developer = 1
authority_rank Authority.explicit_user = 2
authority_rank Authority.verified_tool = 3
authority_rank Authority.retrieved_source = 4
authority_rank Authority.assistant_inference = 5
authority_rank Authority.summary = 6

abbrev pub status_rank : ContextStatus → ℕ
status_rank ContextStatus.active = 0
status_rank ContextStatus.superseded = 1
status_rank ContextStatus.expired = 2
status_rank ContextStatus.retracted = 3

pub kind_beq_iff : (a b : ContextKind) → (nat_beq (kind_rank a) (kind_rank b) ≡ true) ↔ (a ≡ b)
kind_beq_iff a b = (λ h. ground arith, λ h. ground arith)

pub scope_beq_iff : (a b : ContextScope) → (nat_beq (scope_rank a) (scope_rank b) ≡ true) ↔ (a ≡ b)
scope_beq_iff a b = (λ h. ground arith, λ h. ground arith)

pub authority_beq_iff :
    (a b : Authority) → (nat_beq (authority_rank a) (authority_rank b) ≡ true) ↔ (a ≡ b)
authority_beq_iff a b = (λ h. ground arith, λ h. ground arith)

pub status_beq_iff :
    (a b : ContextStatus) → (nat_beq (status_rank a) (status_rank b) ≡ true) ↔ (a ≡ b)
status_beq_iff a b = (λ h. ground arith, λ h. ground arith)

instance abbrev pub kind_eq : Eq ContextKind
kind_eq = record { beq = λ a b. nat_beq (kind_rank a) (kind_rank b); beq_iff = kind_beq_iff }

instance abbrev pub scope_eq : Eq ContextScope
scope_eq = record { beq = λ a b. nat_beq (scope_rank a) (scope_rank b); beq_iff = scope_beq_iff }

instance abbrev pub authority_eq : Eq Authority
authority_eq = record {
  beq = λ a b. nat_beq (authority_rank a) (authority_rank b);
  beq_iff = authority_beq_iff;
}

instance abbrev pub status_eq : Eq ContextStatus
status_eq = record {
  beq = λ a b. nat_beq (status_rank a) (status_rank b);
  beq_iff = status_beq_iff;
}

pub retention_beq_iff :
    (a b : Retention) → (nat_beq (retention_rank a) (retention_rank b) ≡ true) ↔ (a ≡ b)
retention_beq_iff a b = (λ h. ground arith, λ h. ground arith)

instance abbrev pub retention_eq : Eq Retention
retention_eq = record {
  beq = λ a b. nat_beq (retention_rank a) (retention_rank b);
  beq_iff = retention_beq_iff;
}

pub applicability_beq_iff :
    (a b : ContextApplicability)
    → (nat_beq (applicability_rank a) (applicability_rank b) ≡ true) ↔ (a ≡ b)
applicability_beq_iff a b = (λ h. ground arith, λ h. ground arith)

instance abbrev pub applicability_eq : Eq ContextApplicability
applicability_eq = record {
  beq = λ a b. nat_beq (applicability_rank a) (applicability_rank b);
  beq_iff = applicability_beq_iff;
}

-- models/events.py
pub data EventType : Type 0 where
  assert supersede retract expire : EventType

abbrev pub event_type_rank : EventType → ℕ
event_type_rank EventType.assert = 0
event_type_rank EventType.supersede = 1
event_type_rank EventType.retract = 2
event_type_rank EventType.expire = 3

pub event_type_beq_iff :
    (a b : EventType) → (nat_beq (event_type_rank a) (event_type_rank b) ≡ true) ↔ (a ≡ b)
event_type_beq_iff a b = (λ h. ground arith, λ h. ground arith)

instance abbrev pub event_type_eq : Eq EventType
event_type_eq = record {
  beq = λ a b. nat_beq (event_type_rank a) (event_type_rank b);
  beq_iff = event_type_beq_iff;
}
