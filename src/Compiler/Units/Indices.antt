-- ===== src/Compiler/Units/Indices.antt =====
-- The indices of the units rise: no two units begin at the same message.
use ctx_ttl_oss.Compiler.Units.Partition.{open_at_inv}
use ctx_ttl_oss.Prelude.{
  ℕ, suc, ◌-◌, ◌≤◌, ◌<◌, String, ◌≡◌, sym, ap, subst, ◌∙◌, inl, inr, Option, none, some, List, [],
  ◌∷◌, ◌++◌, arith, ◌==◌, nat_eq, string_eq, option_eq, list_eq, Bool-cases, ok, ◌>>=◌, >>=_inv,
  ok_inj, length,
}
use ctx_ttl_oss.Compiler.Units.{
  Message, RawUnit, OpenGroup, is_tool, answer, close, open_at, opening, after_opening,
  read_message, finish, raw_units, is_instruction, role_of, flush_pending, extend, grouped_units,
  MessageUnit, cutoff, message_units,
}
use ctx_ttl_oss.Compiler.Units.Costs.{raw_indices, unit_indices, build_inv}
use Prim.Native.Nat.{max}

-- from `n` on, every index is greater than the one before
abbrev pub IsRising : ℕ → List ℕ → Type 0
IsRising n [] = Unit
IsRising n (i ∷ is) = (n ≤ i) × IsRising (suc i) is

IsRising-weaken : (n m : ℕ) (is : List ℕ) → n ≤ m → IsRising m is → IsRising n is
IsRising-weaken n m [] h r = tt
IsRising-weaken n m (i ∷ is) h r = (omega (arith, r.0), r.1)

-- where the next unit begins
abbrev starts_at : ℕ → Option OpenGroup → ℕ
starts_at index none = index
starts_at index (some g) = g.start

-- an open group has begun before
abbrev IsOpen : ℕ → Option OpenGroup → Type 0
IsOpen index none = Unit
IsOpen index (some g) = g.start < index

-- the units, and where the group behind them begins
abbrev Continues : ℕ → ℕ → List RawUnit × Option OpenGroup → Type 0
Continues n index (us, group) =
    IsOpen index group
    × ((rest : List RawUnit)
        → IsRising (starts_at index group) (raw_indices rest)
        → IsRising n (raw_indices (us ++ rest)))

open-Continues :
    (index : ℕ) (m : Message) (ids : List String)
    → Continues index (suc index) (after_opening [] (opening index m ids))
open-Continues index m [] = (tt, λ rest r. (omega arith, r))
open-Continues index m (id ∷ ids) = (omega arith, λ rest r. r)

close-Continues :
    (start index : ℕ) (u : RawUnit) (m : Message) (ids : List String)
    → start < index
    → u.index ≡ start
    → Continues start (suc index) (after_opening (u ∷ []) (opening index m ids))
close-Continues start index u m [] below e =
    (tt, λ rest r. (omega (arith, e), (omega (arith, e), r)))
close-Continues start index u m (id ∷ ids) below e = (
  omega arith,
  λ rest r. (omega (arith, e), IsRising-weaken _ index (raw_indices rest) (omega (arith, e)) r),
)

close_index : (g : OpenGroup) {u : RawUnit} → close g ≡ ok u → u.index ≡ g.start
unfolding close
close_index g h = ground arith

answer_start :
    (g : OpenGroup) (m : Message) {g' : OpenGroup} → answer g m ≡ ok g' → g'.start ≡ g.start
unfolding answer
answer_start g m h = ground arith

read-Continues :
    (index : ℕ) (group : Option OpenGroup) (m : Message) {out : List RawUnit × Option OpenGroup}
    → IsOpen index group
    → read_message index group m ≡ ok out
    → Continues (starts_at index group) (suc index) out
unfolding read_message
read-Continues index none m {out} before h =
    let (o, found, last) = >>=_inv (open_at index m) (λ o. ok (after_opening [] o)) h in
    let (ids, form) = open_at_inv index m found in
    subst (Continues index (suc index)) (ap (after_opening []) (sym form) ∙ ok_inj last)
      (open-Continues index m ids)
read-Continues index (some g) m {out} before h = elim (Bool-cases (is_tool m)) [
  | inl tool ↦
      let (g', found, last) = >>=_inv (answer g m) (λ g'. ok ([], some g')) (rw tool at h) in
      let same = answer_start g m found in
      subst (Continues g.start (suc index)) (ok_inj last) (
        omega (arith, same),
        λ rest r. IsRising-weaken _ g'.start (raw_indices rest) (omega (arith, same)) r,
      )
  | inr other ↦
      let (u, closed, rest) =
        >>=_inv (close g) (λ u. open_at index m >>= λ o. ok (after_opening (u ∷ []) o))
          (rw other at h) in
      let (o, found, last) = >>=_inv (open_at index m) (λ o. ok (after_opening (u ∷ []) o)) rest in
      let (ids, form) = open_at_inv index m found in
      subst (Continues g.start (suc index)) (ap (after_opening (u ∷ [])) (sym form) ∙ ok_inj last)
        (close-Continues g.start index u m ids before (close_index g closed))
]

finish-IsRising :
    (index : ℕ) (group : Option OpenGroup) {us : List RawUnit}
    → finish group ≡ ok us
    → IsRising (starts_at index group) (raw_indices us)
unfolding finish
finish-IsRising index none h = subst (λ us. IsRising index (raw_indices us)) (ok_inj h) tt
finish-IsRising index (some g) h =
    let (u, closed, last) = >>=_inv (close g) (λ u. ok (u ∷ [])) h in
    subst (λ us. IsRising g.start (raw_indices us)) (ok_inj last)
      (omega (arith, close_index g closed), tt)

raw-IsRising :
    (index : ℕ) (group : Option OpenGroup) (ms : List Message) {us : List RawUnit}
    → IsOpen index group
    → raw_units index group ms ≡ ok us
    → IsRising (starts_at index group) (raw_indices us)
unfolding raw_units
raw-IsRising index group [] before h = finish-IsRising index group h
raw-IsRising index group (m ∷ ms) {us} before h =
    let ((done, group'), read, rest) =
      >>=_inv (read_message index group m)
        (λ (d, g'). raw_units (suc index) g' ms >>= λ vs. ok (d ++ vs)) h in
    let (vs, more, last) = >>=_inv (raw_units (suc index) group' ms) (λ vs. ok (done ++ vs)) rest in
    let (open_behind, rising) = read-Continues index group m before read in
    subst (λ ws. IsRising (starts_at index group) (raw_indices ws)) (ok_inj last)
      (rising vs (raw-IsRising (suc index) group' ms open_behind more))

-- a pending unit stands before all others
abbrev IsPending : ℕ → Option RawUnit → List RawUnit → Type 0
IsPending n none us = IsRising n (raw_indices us)
IsPending n (some p) us = (n ≤ p.index) × IsRising (suc p.index) (raw_indices us)

flush-IsRising :
    (n : ℕ) (pending : Option RawUnit) (u : RawUnit) (us vs : List RawUnit)
    → IsPending n pending (u ∷ us)
    → ((m : ℕ) → m ≤ u.index → IsRising m (raw_indices vs))
    → IsRising n (raw_indices (flush_pending pending ++ vs))
flush-IsRising n none u us vs h k = k n h.0
flush-IsRising n (some p) u us vs h k = (h.0, k (suc p.index) h.1.0)

after_u :
    (n : ℕ) (pending : Option RawUnit) (u : RawUnit) (us : List RawUnit)
    → IsPending n pending (u ∷ us)
    → IsRising (suc u.index) (raw_indices us)
after_u n none u us h = h.1
after_u n (some p) u us h = h.1.1

extended :
    (n : ℕ) (pending : Option RawUnit) (u : RawUnit) (us : List RawUnit)
    → IsPending n pending (u ∷ us)
    → IsPending n (some (extend pending u)) us
extended n none u us h = h
extended n (some p) u us h =
    (h.0, IsRising-weaken _ (suc u.index) (raw_indices us) (omega (arith, h.1.0)) h.1.1)

grouped-IsRising :
    (n : ℕ) (pending : Option RawUnit) (us : List RawUnit)
    → IsPending n pending us
    → IsRising n (raw_indices (grouped_units pending us))
unfolding grouped_units
grouped-IsRising n none [] h = tt
grouped-IsRising n (some p) [] h = (h.0, tt)
grouped-IsRising n pending (u ∷ us) h = elim (Bool-cases (is_instruction (role_of u))) [
  | inl instruction ↦ rw instruction (
      flush-IsRising n pending u us (u ∷ grouped_units none us) h
        (λ m below. (below, grouped-IsRising (suc u.index) none us (after_u n pending u us h))))
  | inr other ↦ elim (Bool-cases (role_of u == "user")) [
    | inl user ↦
        rw (other, user)
          (flush-IsRising n pending u us (grouped_units (some u) us) h
            (λ m below. grouped-IsRising m (some u) us (below, after_u n pending u us h)))
    | inr part ↦
        rw (other, part)
          (grouped-IsRising n (some (extend pending u)) us (extended n pending u us h))
  ]
]

pub units-IsRising :
    (estimate : Message → ℕ) (messages : List Message) (reserve : ℕ) {us : List MessageUnit}
    → message_units estimate messages reserve ≡ ok us
    → IsRising 0 (unit_indices us)
unfolding message_units
units-IsRising estimate messages reserve h =
    let (raw, a, h₁) = >>=_inv (raw_units 0 none messages) _ h in
    let grouped = grouped_units none raw in
    subst (IsRising 0)
      (sym
        (build_inv estimate (cutoff reserve grouped) (max 1 (length grouped - 1)) 0 grouped h₁).0)
      (grouped-IsRising 0 none raw (raw-IsRising 0 none messages tt a))
