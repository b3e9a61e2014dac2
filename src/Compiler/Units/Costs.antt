-- ===== src/Compiler/Units/Costs.antt =====
-- The cost of a unit is the sum of the estimates of its messages.
use Prim.Native.Nat.{max}
use ctx_ttl_oss.Prelude.{
  ℕ, suc, ◌+◌, ◌-◌, ◌≡◌, refl, sym, ap, subst, none, List, [], ◌∷◌, arith, nat_eq, string_eq,
  option_eq, list_eq, ok, >>=_inv, ok_inj, length, sum_by, All,
}
use ctx_ttl_oss.Compiler.Units.{
  Message, RawUnit, raw_units, grouped_units, MessageUnit, cutoff, estimate_message, estimate_all,
  build_units, message_units,
}

pub estimate_message_inv :
    (estimate : Message → ℕ) (m : Message) {n : ℕ}
    → estimate_message estimate m ≡ ok n
    → n ≡ estimate m
unfolding estimate_message
estimate_message_inv estimate m h = ground arith

-- An estimate of a list is the sum of the estimates of its messages.
pub estimate_all_sum :
    (estimate : Message → ℕ) (ms : List Message) {n : ℕ}
    → estimate_all estimate ms ≡ ok n
    → n ≡ sum_by estimate ms
unfolding estimate_all
estimate_all_sum estimate [] h = sym (ok_inj h)
estimate_all_sum estimate (m ∷ ms) {n} h =
    let (a, first, h₁) = >>=_inv (estimate_message estimate m) _ h in
    let (b, rest, h₂) = >>=_inv (estimate_all estimate ms) (λ b. ok (a + b)) h₁ in
    let e = ok_inj h₂ in
    rw (sym e, estimate_message_inv estimate m first, estimate_all_sum estimate ms rest) refl

abbrev pub IsCosted : (Message → ℕ) → MessageUnit → Type 0
IsCosted estimate u = u.token_cost ≡ sum_by estimate u.messages

abbrev pub raw_indices : List RawUnit → List ℕ
raw_indices [] = []
raw_indices (u ∷ us) = u.index ∷ raw_indices us

abbrev pub unit_indices : List MessageUnit → List ℕ
unit_indices [] = []
unit_indices (u ∷ us) = u.index ∷ unit_indices us

pub build_inv :
    (estimate : Message → ℕ) (cut denominator position : ℕ) (us : List RawUnit)
    {vs : List MessageUnit}
    → build_units estimate cut denominator position us ≡ ok vs
    → (unit_indices vs ≡ raw_indices us) × All (IsCosted estimate) vs
unfolding build_units
build_inv estimate cut denominator position [] {vs} h = rw (sym (ok_inj h)) (refl, tt)
build_inv estimate cut denominator position (u ∷ us) {vs} h =
    let (cost, a, h₁) = >>=_inv (estimate_all estimate u.messages) _ h in
    let (rest, b, h₂) = >>=_inv (build_units estimate cut denominator (suc position) us) _ h₁ in
    let (same, costed) = build_inv estimate cut denominator (suc position) us b in
    subst (λ ws. (unit_indices ws ≡ u.index ∷ raw_indices us) × All (IsCosted estimate) ws)
      (ok_inj h₂) (ap (λ is. u.index ∷ is) same, (estimate_all_sum estimate u.messages a, costed))

pub units-IsCosted :
    (estimate : Message → ℕ) (messages : List Message) (reserve : ℕ) {us : List MessageUnit}
    → message_units estimate messages reserve ≡ ok us
    → All (IsCosted estimate) us
unfolding message_units
units-IsCosted estimate messages reserve h =
    let (raw, a, h₁) = >>=_inv (raw_units 0 none messages) _ h in
    let grouped = grouped_units none raw in
    (build_inv estimate (cutoff reserve grouped) (max 1 (length grouped - 1)) 0 grouped h₁).1
