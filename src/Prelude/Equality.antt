-- ===== src/Prelude/Equality.antt =====
-- Python's `==` on texts, numbers, optional values and lists of them, with its law.
use Prim.Native.Nat.{ℕ}
use Prim.Native.String.{String}
use mathlib.Core.Path.{◌≡◌, refl}
use mathlib.Core.Logic.{◌↔◌}
use mathlib.Core.Bool.{Bool, true, false, ◌&&◌}
use mathlib.Core.Option.{Option, none, some}
use mathlib.Core.List.{List, [], ◌∷◌}
use native.Mathlib.Omega.{arith}
use text.Mathlib.Text.{◌==◌ as str_eq}
use text.Mathlib.TextEquality.{eq_iff}
use package.ctx_ttl_oss.Prelude.Tests.{nat_beq, if◌then◌else◌}

-- a type whose `==` is equality
pub record Eq (K : Type 0) : Type 0 where
  pub beq : K → K → Bool
  pub beq_iff : (x y : K) → (beq x y ≡ true) ↔ (x ≡ y)

infix 50 ◌==◌
abbrev pub ◌==◌ : {K : Type 0} ⦃keys : Eq K⦄ → K → K → Bool
◌==◌ ⦃keys⦄ x y = keys.beq x y

pub ==-refl : {A : Type 0} ⦃e : Eq A⦄ (a : A) → (a == a) ≡ true
==-refl ⦃e⦄ a = (e.beq_iff a a).1 refl

pub nat_beq_iff : (a b : ℕ) → (nat_beq a b ≡ true) ↔ (a ≡ b)
nat_beq_iff a b = (λ h. ground arith, λ h. ground arith)

instance abbrev pub nat_eq : Eq ℕ
nat_eq = record { beq = nat_beq; beq_iff = nat_beq_iff }

instance abbrev pub string_eq : Eq String
string_eq = record { beq = str_eq; beq_iff = eq_iff }

abbrev pub option_beq : {A : Type 0} ⦃e : Eq A⦄ → Option A → Option A → Bool
option_beq none none = true
option_beq ⦃e⦄ (some a) (some b) = e.beq a b
option_beq _ _ = false

pub option_beq_iff : {A : Type 0} ⦃e : Eq A⦄ (a b : Option A) → (option_beq a b ≡ true) ↔ (a ≡ b)
option_beq_iff none none = (λ h. refl, λ h. refl)
option_beq_iff none (some b) = (λ h. cc, λ h. cc)
option_beq_iff (some a) none = (λ h. cc, λ h. cc)
option_beq_iff ⦃e⦄ (some a) (some b) = (λ h. cc ((e.beq_iff a b).0 h), λ h. (e.beq_iff a b).1 (cc))

instance abbrev pub option_eq : {A : Type 0} ⦃e : Eq A⦄ → Eq (Option A)
option_eq = record { beq = option_beq; beq_iff = option_beq_iff }

abbrev pub list_beq : {A : Type 0} ⦃e : Eq A⦄ → List A → List A → Bool
list_beq [] [] = true
list_beq ⦃e⦄ (a ∷ as') (b ∷ bs) = e.beq a b && list_beq as' bs
list_beq _ _ = false

pub list_beq_iff : {A : Type 0} ⦃e : Eq A⦄ (a b : List A) → (list_beq a b ≡ true) ↔ (a ≡ b)
list_beq_iff [] [] = (λ h. refl, λ h. refl)
list_beq_iff [] (b ∷ bs) = (λ h. cc, λ h. cc)
list_beq_iff (a ∷ as') [] = (λ h. cc, λ h. cc)
list_beq_iff ⦃e⦄ (a ∷ as') (b ∷ bs) = (
  λ h. ground (arith, e.beq_iff a b, list_beq_iff as' bs),
  λ h. ground (arith, e.beq_iff a b, list_beq_iff as' bs),
)

instance abbrev pub list_eq : {A : Type 0} ⦃e : Eq A⦄ → Eq (List A)
list_eq = record { beq = list_beq; beq_iff = list_beq_iff }

-- `o or d`: an empty text is falsy
abbrev pub or_text : Option String → String → String
or_text none d = d
or_text (some s) d = if str_eq s "" then d else s

-- the laws at the types of owner keys and optional texts
pub texts_iff : (a b : List String) → (list_beq a b ≡ true) ↔ (a ≡ b)
texts_iff a b = list_beq_iff a b

pub optional_iff : (a b : Option String) → (option_beq a b ≡ true) ↔ (a ≡ b)
optional_iff a b = option_beq_iff a b
