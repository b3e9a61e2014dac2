-- ===== src/Compiler/Units/Instructions.antt =====
-- Every system or developer message stands in a mandatory unit.
use Prim.Native.Nat.{max}
use ctx_ttl_oss.Prelude.{
  ℕ, suc, ◌-◌, String, ◌≡◌, refl, subst, inl, inr, Bool, true, false, not, ◌||◌, Option, none, some,
  List, [], ◌∷◌, ◌++◌, arith, ◌==◌, nat_eq, string_eq, option_eq, list_eq, Bool-cases,
  protocol_violation, ok, ◌>>=◌, raise_if, >>=_inv, raise_if-eq-ok, ok_inj, length, any, All-append,
  All,
}
use ctx_ttl_oss.Json.{Json, null, bool, int, negative, str, arr, obj, nil, cons}
use ctx_ttl_oss.Compiler.Units.{
  Message, calls_of, ids_of_calls, tool_call_ids, RawUnit, OpenGroup, is_tool, answer, close,
  Opening, open_at, opening, after_opening, read_message, finish, raw_units, is_instruction,
  role_of, flush_pending, extend, grouped_units, MessageUnit, cutoff, estimate_all, build_units,
  message_units,
}
use ctx_ttl_oss.Prelude.Unique.{any-append}

abbrev pub gives_instruction : Message → Bool
gives_instruction m = is_instruction m.role

-- an instruction stands first, or there is none
abbrev IsOrdered : RawUnit → Type 0
IsOrdered u = (is_instruction (role_of u) || not (any gives_instruction u.messages)) ≡ true

abbrev HasNone : Option OpenGroup → Type 0
HasNone none = Unit
HasNone (some g) = any gives_instruction g.grouped ≡ false

calls_of_assistant :
    (m : Message) (calls : Option Json) (id : String) (ids : List String)
    → ids_of_calls m calls ≡ ok (id ∷ ids)
    → gives_instruction m ≡ false
unfolding ids_of_calls
calls_of_assistant m none id ids h = absurd (cc)
calls_of_assistant m (some null) id ids h = absurd (cc)
calls_of_assistant m (some (arr nil)) id ids h = absurd (cc)
calls_of_assistant m (some (bool b)) id ids h = absurd (cc)
calls_of_assistant m (some (int n)) id ids h = absurd (cc)
calls_of_assistant m (some (negative n)) id ids h = absurd (cc)
calls_of_assistant m (some (str s)) id ids h = absurd (cc)
calls_of_assistant m (some (obj fs)) id ids h = absurd (cc)
calls_of_assistant m (some (arr (cons call calls))) id ids h =
    let (_, checked, _) = >>=_inv (raise_if (not (m.role == "assistant")) protocol_violation) _ h in
    let unlike = raise_if-eq-ok (not (m.role == "assistant")) protocol_violation checked in
    let role = (string_eq.beq_iff m.role "assistant").0 (ground arith) in rw role refl

-- units done, and the group behind them
abbrev AllOrdered : List RawUnit × Option OpenGroup → Type 0
AllOrdered (us, group) = All IsOrdered us × HasNone group

opened-AllOrdered :
    (index : ℕ) (m : Message) {o : Opening}
    → open_at index m ≡ ok o
    → (us : List RawUnit) → All IsOrdered us
    → AllOrdered (after_opening us o)
unfolding open_at tool_call_ids
opened-AllOrdered index m {o} h us done =
    let (_, _, rest) = >>=_inv (raise_if (is_tool m) protocol_violation) _ h in
    let (ids, called, last) =
      >>=_inv (ids_of_calls m (calls_of m)) (λ ids. ok (opening index m ids)) rest in
    subst (λ o. AllOrdered (after_opening us o)) (ok_inj last) (go ids called)
  where
    go :
        (ids : List String)
        → ids_of_calls m (calls_of m) ≡ ok ids
        → AllOrdered (after_opening us (opening index m ids))
    go [] called = (All-append IsOrdered us _ done (ground arith, tt), tt)
    go (id ∷ ids) called = (done, rw (calls_of_assistant m (calls_of m) id ids called) refl)

close-IsOrdered :
    (g : OpenGroup) {u : RawUnit}
    → close g ≡ ok u
    → any gives_instruction g.grouped ≡ false
    → IsOrdered u
unfolding close
close-IsOrdered g {u} h clean =
    let same : u.messages ≡ g.grouped = ground arith in rw (same, clean) (ground arith)

answer_grouped :
    (g : OpenGroup) (m : Message) {g' : OpenGroup}
    → answer g m ≡ ok g'
    → g'.grouped ≡ g.grouped ++ m ∷ []
unfolding answer
answer_grouped g m h = ground arith

tool_none : (m : Message) → is_tool m ≡ true → gives_instruction m ≡ false
tool_none m h = rw ((string_eq.beq_iff m.role "tool").0 h) refl

read-AllOrdered :
    (index : ℕ) (group : Option OpenGroup) (m : Message) {out : List RawUnit × Option OpenGroup}
    → HasNone group
    → read_message index group m ≡ ok out
    → AllOrdered out
unfolding read_message
read-AllOrdered index none m {out} clean h =
    let (o, found, last) = >>=_inv (open_at index m) (λ o. ok (after_opening [] o)) h in
    subst AllOrdered (ok_inj last) (opened-AllOrdered index m found [] tt)
read-AllOrdered index (some g) m {out} clean h = elim (Bool-cases (is_tool m)) [
  | inl tool ↦
      let (g', found, last) = >>=_inv (answer g m) (λ g'. ok ([], some g')) (rw tool at h) in
      subst AllOrdered (ok_inj last)
        (tt, rw (answer_grouped g m found, any-append, clean, tool_none m tool) refl)
  | inr other ↦
      let (u, closed, rest) =
        >>=_inv (close g) (λ u. open_at index m >>= λ o. ok (after_opening (u ∷ []) o))
          (rw other at h) in
      let (o, found, last) = >>=_inv (open_at index m) (λ o. ok (after_opening (u ∷ []) o)) rest in
      subst AllOrdered (ok_inj last)
        (opened-AllOrdered index m found (u ∷ []) (close-IsOrdered g closed clean, tt))
]

raw-IsOrdered :
    (index : ℕ) (group : Option OpenGroup) (ms : List Message) {us : List RawUnit}
    → HasNone group
    → raw_units index group ms ≡ ok us
    → All IsOrdered us
unfolding raw_units finish
raw-IsOrdered index none [] clean h = subst (All IsOrdered) (ok_inj h) tt
raw-IsOrdered index (some g) [] clean h =
    let (u, closed, last) = >>=_inv (close g) (λ u. ok (u ∷ [])) h in
    subst (All IsOrdered) (ok_inj last) (close-IsOrdered g closed clean, tt)
raw-IsOrdered index group (m ∷ ms) {us} clean h =
    let ((done, group'), read, rest) =
      >>=_inv (read_message index group m)
        (λ (d, g'). raw_units (suc index) g' ms >>= λ vs. ok (d ++ vs)) h in
    let (vs, more, last) = >>=_inv (raw_units (suc index) group' ms) (λ vs. ok (done ++ vs)) rest in
    let (sorted_done, clean') = read-AllOrdered index group m clean read in
    subst (All IsOrdered) (ok_inj last)
      (All-append IsOrdered done vs sorted_done (raw-IsOrdered (suc index) group' ms clean' more))

abbrev PendingNone : Option RawUnit → Type 0
PendingNone none = Unit
PendingNone (some p) = any gives_instruction p.messages ≡ false

flush-IsOrdered :
    (pending : Option RawUnit) → PendingNone pending → All IsOrdered (flush_pending pending)
flush-IsOrdered none h = tt
flush-IsOrdered (some p) h = (rw h (ground arith), tt)

extend-PendingNone :
    (pending : Option RawUnit) (u : RawUnit)
    → PendingNone pending
    → any gives_instruction u.messages ≡ false
    → any gives_instruction (extend pending u).messages ≡ false
extend-PendingNone none u h k = k
extend-PendingNone (some p) u h k = rw (any-append, h, k) refl

grouped-IsOrdered :
    (pending : Option RawUnit) (us : List RawUnit)
    → PendingNone pending
    → All IsOrdered us
    → All IsOrdered (grouped_units pending us)
unfolding grouped_units
grouped-IsOrdered pending [] h k = flush-IsOrdered pending h
grouped-IsOrdered pending (u ∷ us) h k = elim (Bool-cases (is_instruction (role_of u))) [
  | inl instruction ↦ rw instruction (
      All-append IsOrdered (flush_pending pending) _ (flush-IsOrdered pending h)
        (k.0, grouped-IsOrdered none us tt k.1))
  | inr other ↦
      let none_here : any gives_instruction u.messages ≡ false =
        (let ordered = k.0 in ground arith) in
      elim (Bool-cases (role_of u == "user")) [
        | inl user ↦
            rw (other, user)
              (All-append IsOrdered (flush_pending pending) _ (flush-IsOrdered pending h)
                (grouped-IsOrdered (some u) us none_here k.1))
        | inr part ↦
            rw (other, part)
              (grouped-IsOrdered (some (extend pending u)) us
                (extend-PendingNone pending u h none_here) k.1)
      ]
]

-- a unit with an instruction is mandatory
abbrev pub IsGuarded : MessageUnit → Type 0
IsGuarded u = (u.hard || not (any gives_instruction u.messages)) ≡ true

build-IsGuarded :
    (estimate : Message → ℕ) (cut denominator position : ℕ) (us : List RawUnit)
    {vs : List MessageUnit}
    → All IsOrdered us
    → build_units estimate cut denominator position us ≡ ok vs
    → All IsGuarded vs
unfolding build_units
build-IsGuarded estimate cut denominator position [] k h = subst (All IsGuarded) (ok_inj h) tt
build-IsGuarded estimate cut denominator position (u ∷ us) k h =
    let (cost, a, h₁) = >>=_inv (estimate_all estimate u.messages) _ h in
    let (rest, b, h₂) = >>=_inv (build_units estimate cut denominator (suc position) us) _ h₁ in
    let ordered = k.0 in
    subst (All IsGuarded) (ok_inj h₂)
      (ground arith, build-IsGuarded estimate cut denominator (suc position) us k.1 b)

pub units-IsGuarded :
    (estimate : Message → ℕ) (messages : List Message) (reserve : ℕ) {us : List MessageUnit}
    → message_units estimate messages reserve ≡ ok us
    → All IsGuarded us
unfolding message_units
units-IsGuarded estimate messages reserve h =
    let (raw, a, h₁) = >>=_inv (raw_units 0 none messages) _ h in
    let grouped = grouped_units none raw in
    build-IsGuarded estimate (cutoff reserve grouped) (max 1 (length grouped - 1)) 0 grouped
      (grouped-IsOrdered none raw tt (raw-IsOrdered 0 none messages tt a)) h₁
