-- ===== src/Compiler/Units/Partition.antt =====
-- The units partition the messages: nothing is lost, repeated or moved.
use Prim.Native.Nat.{max}
use ctx_ttl_oss.Prelude.{
  ℕ, suc, ◌-◌, String, ◌≡◌, refl, sym, ap, subst, ◌∙◌, inl, inr, Option, none, some, List, [], ◌∷◌,
  ◌++◌, arith, ◌==◌, nat_eq, string_eq, option_eq, list_eq, Bool-cases, protocol_violation, ok,
  ◌>>=◌, raise_if, >>=_inv, ok_inj, length,
}
use ctx_ttl_oss.Compiler.Units.{
  Message, tool_call_ids, RawUnit, OpenGroup, is_tool, answer, close, Opening, open_at, opening,
  after_opening, read_message, finish, raw_units, is_instruction, role_of, flush_pending, extend,
  grouped_units, MessageUnit, cutoff, is_hard_unit, unit_utility, estimate_all, build_units,
  message_units,
}
use mathlib.Core.List.{append-nil, append_assoc}

abbrev pub raw_messages : List RawUnit → List Message
raw_messages [] = []
raw_messages (u ∷ us) = u.messages ++ raw_messages us

abbrev pub unit_messages : List MessageUnit → List Message
unit_messages [] = []
unit_messages (u ∷ us) = u.messages ++ unit_messages us

abbrev open_messages : Option OpenGroup → List Message
open_messages none = []
open_messages (some g) = g.grouped

raw_messages-append :
    (us vs : List RawUnit) → raw_messages (us ++ vs) ≡ raw_messages us ++ raw_messages vs
raw_messages-append [] vs = refl
raw_messages-append (u ∷ us) vs =
    rw (raw_messages-append us vs)
      (sym (append_assoc u.messages (raw_messages us) (raw_messages vs)))

opening_messages :
    (done : List RawUnit) (index : ℕ) (m : Message) (ids : List String)
    → raw_messages (after_opening done (opening index m ids)).0
        ++ open_messages (after_opening done (opening index m ids)).1
      ≡ raw_messages done ++ m ∷ []
opening_messages done index m [] = simp (raw_messages-append, append-nil)
opening_messages done index m (id ∷ ids) = refl

pub open_at_inv :
    (index : ℕ) (m : Message) {o : Opening}
    → open_at index m ≡ ok o
    → (ids : List String) × (o ≡ opening index m ids)
unfolding open_at
open_at_inv index m {o} h =
    let (_, _, rest) = >>=_inv (raise_if (is_tool m) protocol_violation) _ h in
    let (ids, _, last) = >>=_inv (tool_call_ids m) (λ ids. ok (opening index m ids)) rest in
    (ids, cc)

open_at_messages :
    (index : ℕ) (m : Message) (done : List RawUnit) {o : Opening}
    → open_at index m ≡ ok o
    → raw_messages (after_opening done o).0 ++ open_messages (after_opening done o).1
      ≡ raw_messages done ++ m ∷ []
open_at_messages index m done h =
    let (ids, e) = open_at_inv index m h in rw e (opening_messages done index m ids)

close_inv : (g : OpenGroup) {u : RawUnit} → close g ≡ ok u → u.messages ≡ g.grouped
unfolding close
close_inv g h = ground arith

answer_inv :
    (g : OpenGroup) (m : Message) {g' : OpenGroup}
    → answer g m ≡ ok g'
    → g'.grouped ≡ g.grouped ++ m ∷ []
unfolding answer
answer_inv g m h = ground arith

read_message_messages :
    (index : ℕ) (group : Option OpenGroup) (m : Message) {done : List RawUnit}
    {group' : Option OpenGroup}
    → read_message index group m ≡ ok (done, group')
    → raw_messages done ++ open_messages group' ≡ open_messages group ++ m ∷ []
unfolding read_message
read_message_messages index none m {done} {group'} h =
    let (o, found, last) = >>=_inv (open_at index m) (λ o. ok (after_opening [] o)) h in
    let e : after_opening [] o ≡ (done, group') = cc in
    subst (λ (p : List RawUnit × Option OpenGroup). raw_messages p.0 ++ open_messages p.1 ≡ m ∷ [])
      e (open_at_messages index m [] found)
read_message_messages index (some g) m {done} {group'} h = elim (Bool-cases (is_tool m)) [
  | inl tool ↦
      let (g', found, last) = >>=_inv (answer g m) (λ g'. ok ([], some g')) (rw tool at h) in
      let e : ◌≡◌ {A = List RawUnit × Option OpenGroup} ([], some g') (done, group') = cc in
      subst
        (λ (p : List RawUnit × Option OpenGroup).
          raw_messages p.0 ++ open_messages p.1 ≡ g.grouped ++ m ∷ [])
        e (answer_inv g m found)
  | inr other ↦
      let (u, closed, rest) =
        >>=_inv (close g) (λ u. open_at index m >>= λ o. ok (after_opening (u ∷ []) o))
          (rw other at h) in
      let (o, found, last) = >>=_inv (open_at index m) (λ o. ok (after_opening (u ∷ []) o)) rest in
      let e : after_opening (u ∷ []) o ≡ (done, group') = cc in
      subst
        (λ (p : List RawUnit × Option OpenGroup).
          raw_messages p.0 ++ open_messages p.1 ≡ g.grouped ++ m ∷ [])
        e
        (open_at_messages index m (u ∷ []) found
          ∙ ap (λ (ms : List Message). ms ++ m ∷ []) (append-nil u.messages ∙ close_inv g closed))
]

finish_messages :
    (group : Option OpenGroup) {us : List RawUnit}
    → finish group ≡ ok us
    → raw_messages us ≡ open_messages group
unfolding finish
finish_messages none h = rw (← ok_inj h) refl
finish_messages (some g) h =
    let (u, closed, last) = >>=_inv (close g) (λ u. ok (u ∷ [])) h in
    rw (← ok_inj last) (append-nil u.messages ∙ close_inv g closed)

raw_units_messages :
    (index : ℕ) (group : Option OpenGroup) (ms : List Message) {us : List RawUnit}
    → raw_units index group ms ≡ ok us
    → raw_messages us ≡ open_messages group ++ ms
unfolding raw_units
raw_units_messages index group [] h =
    finish_messages group h ∙ sym (append-nil (open_messages group))
raw_units_messages index group (m ∷ ms) {us} h =
    let ((done, group'), read, rest) =
      >>=_inv (read_message index group m)
        (λ (d, g'). raw_units (suc index) g' ms >>= λ vs. ok (d ++ vs)) h in
    let (vs, more, last) = >>=_inv (raw_units (suc index) group' ms) (λ vs. ok (done ++ vs)) rest in
    ap raw_messages (sym (ok_inj last))
    ∙ raw_messages-append done vs
    ∙ ap (λ (ns : List Message). raw_messages done ++ ns)
        (raw_units_messages (suc index) group' ms more)
    ∙ sym (append_assoc (raw_messages done) (open_messages group') ms)
    ∙ ap (λ (ns : List Message). ns ++ ms) (read_message_messages index group m read)
    ∙ append_assoc (open_messages group) (m ∷ []) ms

abbrev pending_messages : Option RawUnit → List Message
pending_messages none = []
pending_messages (some p) = p.messages

flush_messages :
    (pending : Option RawUnit) (us : List RawUnit)
    → raw_messages (flush_pending pending ++ us) ≡ pending_messages pending ++ raw_messages us
flush_messages none us = refl
flush_messages (some p) us = refl

extend_messages :
    (pending : Option RawUnit) (u : RawUnit)
    → (extend pending u).messages ≡ pending_messages pending ++ u.messages
extend_messages none u = refl
extend_messages (some p) u = refl

grouped_units_messages :
    (pending : Option RawUnit) (us : List RawUnit)
    → raw_messages (grouped_units pending us) ≡ pending_messages pending ++ raw_messages us
unfolding grouped_units
grouped_units_messages none [] = refl
grouped_units_messages (some p) [] = refl
grouped_units_messages pending (u ∷ us) = elim (Bool-cases (is_instruction (role_of u))) [
  | inl instruction ↦ rw instruction (
      flush_messages pending (u ∷ grouped_units none us)
      ∙ ap (λ (ms : List Message). pending_messages pending ++ (u.messages ++ ms))
          (grouped_units_messages none us))
  | inr other ↦ elim (Bool-cases (role_of u == "user")) [
    | inl user ↦
        rw (other, user)
          (flush_messages pending (grouped_units (some u) us)
            ∙ ap (λ (ms : List Message). pending_messages pending ++ ms)
                (grouped_units_messages (some u) us))
    | inr part ↦
        rw (other, part)
          (grouped_units_messages (some (extend pending u)) us
            ∙ ap (λ (ms : List Message). ms ++ raw_messages us) (extend_messages pending u)
            ∙ append_assoc (pending_messages pending) u.messages (raw_messages us))
  ]
]

module _ (estimate : Message → ℕ) where
  build_units_messages :
      (cut denominator position : ℕ) (us : List RawUnit) {vs : List MessageUnit}
      → build_units estimate cut denominator position us ≡ ok vs
      → unit_messages vs ≡ raw_messages us
  unfolding build_units
  build_units_messages cut d position [] h = ap unit_messages (sym (ok_inj h))
  build_units_messages cut d position (u ∷ us) {vs} h =
      let (cost, _, rest) = >>=_inv (estimate_all estimate u.messages) _ h in
      let (ws, more, last) =
        >>=_inv (build_units estimate cut d (suc position) us)
          (λ ws. ok (
            record {
              index = u.index;
              messages = u.messages;
              token_cost = cost;
              hard = is_hard_unit cut position u;
              utility = unit_utility d position;
            }
            ∷ ws))
          rest in
      ap unit_messages (sym (ok_inj last))
      ∙ ap (λ (ms : List Message). u.messages ++ ms)
          (build_units_messages cut d (suc position) us more)

  pub message_units_inv :
      (messages : List Message) (reserve : ℕ) {us : List MessageUnit}
      → message_units estimate messages reserve ≡ ok us
      → (raw : List RawUnit) × (raw_units 0 none messages ≡ ok raw)
        × (build_units estimate
              (cutoff reserve (grouped_units none raw))
              (max 1 (length (grouped_units none raw) - 1))
              0
              (grouped_units none raw)
            ≡ ok us)
  unfolding message_units
  message_units_inv messages reserve h =
      >>=_inv (raw_units 0 none messages)
        (λ raw.
          build_units estimate (cutoff reserve (grouped_units none raw))
            (max 1 (length (grouped_units none raw) - 1)) 0 (grouped_units none raw))
        h

  -- Where the messages of a request are accepted, the messages of the units, one unit after the
  -- other, are exactly the messages of the request: none is lost, repeated or moved.
  pub units-partition_messages :
      (messages : List Message) (reserve : ℕ) {us : List MessageUnit}
      → message_units estimate messages reserve ≡ ok us
      → unit_messages us ≡ messages
  units-partition_messages messages reserve {us} h =
      let (raw, read, built) = message_units_inv messages reserve h in
      build_units_messages (cutoff reserve (grouped_units none raw))
        (max 1 (length (grouped_units none raw) - 1)) 0 (grouped_units none raw) built
      ∙ grouped_units_messages none raw
      ∙ raw_units_messages 0 none messages read
