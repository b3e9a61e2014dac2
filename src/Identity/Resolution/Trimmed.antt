-- ===== src/Identity/Resolution/Trimmed.antt =====
-- identity.py: what `_normalized_headers` makes of a value with white space around an identity.
use ctx_ttl_oss.Models.Dimensions.{
  kind_eq, scope_eq, retention_eq, applicability_eq, authority_eq, status_eq, event_type_eq,
}
use ctx_ttl_oss.Identity.Resolution.{
  between, is_space, is_identity_char, strip_left, strip_right, strip, all_identity_chars,
  is_identity,
}
use ctx_ttl_oss.Prelude.{
  ℕ, String, ◌≡◌, refl, ap, Bool, true, false, ◌&&◌, ◌||◌, ◌==◌, nat_eq, string_eq, option_eq,
  list_eq, arith, Bool-cases, inl, inr, ◌∙◌,
}
use Prim.Native.String.append
use Prim.Native.Char.{Char, code}
use Prim.Native.String.{◌++◌ as ◌+++◌}

-- white space only
unfoldable pub is_blank : String → Bool
is_blank String.[] = true
is_blank (String.◌∷◌ c s) = is_space c && is_blank s

both_true : (a b : Bool) → (a && b) ≡ true → (a ≡ true) × (b ≡ true)
both_true true true h = (refl, refl)
both_true true false h = absurd (cc)
both_true false b h = absurd (cc)

blank_parts :
    (c : Char) (s : String)
    → is_blank (String.◌∷◌ c s) ≡ true
    → (is_space c ≡ true) × (is_blank s ≡ true)
unfolding is_blank
blank_parts c s h = both_true (is_space c) (is_blank s) h

identity_code :
    (n : ℕ)
    → (between 48 57 n
        || between 65 90 n
        || between 97 122 n
        || n == 46
        || n == 95
        || n == 58
        || n == 45)
      ≡ true
    → (n == 32 || between 9 13 n || between 28 31 n || n == 133 || n == 160) ≡ false
identity_code n h = ground arith

identity_space : (c : Char) → is_identity_char c ≡ true → is_space c ≡ false
identity_space c h = identity_code (code c) (ground arith)

is_nil : String → Bool
is_nil String.[] = true
is_nil (String.◌∷◌ c s) = false

cons-full : (c : Char) (s : String) → (String.◌∷◌ c s == "") ≡ false
unfolding is_nil
cons-full c s = elim (Bool-cases (String.◌∷◌ c s == "")) [
  | inl same ↦
      let e : false ≡ true = ap is_nil ((string_eq.beq_iff (String.◌∷◌ c s) "").0 same) in
      absurd (cc)
  | inr different ↦ different
]

append-full : (l t : String) → (t == "") ≡ false → (l +++ t == "") ≡ false
append-full String.[] t h = rw (append.nil t) h
append-full (String.◌∷◌ c l) t h = rw (append.cons c l t) (cons-full c (l +++ t))

strip_right_blank : (s : String) → is_blank s ≡ true → strip_right s ≡ ""
unfolding strip_right
strip_right_blank String.[] h = refl
strip_right_blank (String.◌∷◌ c s) h =
    let (space, blank) = blank_parts c s h in rw (space, strip_right_blank s blank) refl

strip_right_identity :
    (id right : String)
    → all_identity_chars id ≡ true
    → is_blank right ≡ true
    → strip_right (id +++ right) ≡ id
unfolding strip_right all_identity_chars
strip_right_identity String.[] right h blank = rw (append.nil right) (strip_right_blank right blank)
strip_right_identity (String.◌∷◌ c s) right h blank =
    let (fits, others) = both_true (is_identity_char c) (all_identity_chars s) h in
    rw (append.cons c s right)
      (rw (identity_space c fits) (ap (String.◌∷◌ c) (strip_right_identity s right others blank)))

strip_right_kept :
    (left t u : String)
    → strip_right t ≡ u
    → (u == "") ≡ false
    → strip_right (left +++ t) ≡ left +++ u
unfolding strip_right
strip_right_kept String.[] t u h full = rw (append.nil t, append.nil u) h
strip_right_kept (String.◌∷◌ c left) t u h full =
    let rest = strip_right_kept left t u h full in
    elim (Bool-cases (is_space c)) [
      | inl space ↦
          rw (append.cons c left t, append.cons c left u)
            (rw (space, rest, append-full left u full) refl)
      | inr other ↦
          rw (append.cons c left t, append.cons c left u) (rw other (ap (String.◌∷◌ c) rest))
    ]

strip_left_blank :
    (left t : String) → is_blank left ≡ true → strip_left t ≡ t → strip_left (left +++ t) ≡ t
unfolding strip_left
strip_left_blank String.[] t blank h = rw (append.nil t) h
strip_left_blank (String.◌∷◌ c left) t blank h =
    let (space, rest) = blank_parts c left blank in
    rw (append.cons c left t) (rw space (strip_left_blank left t rest h))

identity_parts :
    (c : Char) (s : String)
    → is_identity (String.◌∷◌ c s) ≡ true
    → (is_identity_char c ≡ true) × (all_identity_chars s ≡ true)
unfolding is_identity
identity_parts c s h = ground arith

-- white space around an identity is left out
pub strip-identity :
    (left id right : String)
    → is_identity id ≡ true
    → is_blank left ≡ true
    → is_blank right ≡ true
    → strip (left +++ (id +++ right)) ≡ id
unfolding strip is_identity
strip-identity left String.[] right fits blank blank' = absurd (cc)
strip-identity left (String.◌∷◌ c s) right fits blank blank' =
    let (first, others) = identity_parts c s fits in
    let word = String.◌∷◌ c s in
    let all_fit : all_identity_chars word ≡ true =
      unfold all_identity_chars in rw (first, others) refl in
    let right_done = strip_right_identity word right all_fit blank' in
    let kept = strip_right_kept left (word +++ right) word right_done (cons-full c s) in
    let start : strip_left word ≡ word = unfold strip_left in rw (identity_space c first) refl in
    ap strip_left kept ∙ strip_left_blank left word blank start

pub strip-blank : (s : String) → is_blank s ≡ true → strip s ≡ ""
unfolding strip strip_left
strip-blank s h = rw (strip_right_blank s h) refl
