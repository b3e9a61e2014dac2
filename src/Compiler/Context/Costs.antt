-- ===== src/Compiler/Context/Costs.antt =====
-- What every candidate that a context item makes carries and costs.
use ctx_ttl_oss.Prelude.Sort.{sorted}
use ctx_ttl_oss.Prelude.{
  ℕ, String, ◌≡◌, refl, subst, inl, inr, Bool, true, false, not, List, [], ◌∷◌, ◌==◌, nat_eq,
  string_eq, option_eq, list_eq, leb, Bool-cases, runtime_error, ok, ◌>>=◌, raise_if, >>=_inv,
  ok_inj, keep, All-append, All, contains,
}
use ctx_ttl_oss.Models.Dimensions.{
  ContextStatus, kind_eq, scope_eq, retention_eq, applicability_eq, authority_eq, status_eq,
  event_type_eq,
}
use ctx_ttl_oss.Models.Context.{ContextItem}
use ctx_ttl_oss.Compiler.Budget.{
  DecisionReason, CompilationDecision, hard_required, soft_selected, context,
}
use ctx_ttl_oss.Prelude.Sort.{sorted}
use ctx_ttl_oss.Compiler.Units.{estimate_message}
use ctx_ttl_oss.Compiler.Context.{
  CompilerConfig, of_item, Candidate, fingerprint, Verdict, dropped, candidate, newer,
  item_candidate, judge, record_fingerprint, judge_all, candidates_of, dropped_of, is_irrelevant,
  low_decisions, context_candidates,
}
use ctx_ttl_oss.Prelude.Unique.{All-keep}

-- whether a decision for this reason takes the candidate
abbrev pub is_taken : DecisionReason → Bool
is_taken hard_required = true
is_taken soft_selected = true
is_taken _ = false

abbrev pub IsRefusal : CompilationDecision → Type 0
IsRefusal d = (d.candidate_type ≡ context) × (is_taken d.reason ≡ false)

module _ (c : CompilerConfig) where
  -- the candidate carries an item, and costs what its message is estimated at
  abbrev pub IsItemCandidate : Candidate → Type 0
  IsItemCandidate b =
      (b.candidate_type ≡ context)
      × ((i : ContextItem) × (b.payload ≡ of_item i)
          × (estimate_message c.estimate (c.render i) ≡ ok b.token_cost))

  abbrev IsSound : Verdict → Type 0
  IsSound (dropped d) = IsRefusal d
  IsSound (candidate b r) = IsItemCandidate b

  scored-IsSound :
      (query : String) (i : ContextItem) (cost : ℕ) {v : Verdict}
      → estimate_message c.estimate (c.render i) ≡ ok cost
      → (raise_if (not (leb (c.score query i) 1000000)) runtime_error >>= λ u.
          ok (candidate (item_candidate c i cost (c.score query i)) (c.score query i)))
        ≡ ok v
      → IsSound v
  scored-IsSound query i cost e h =
      let (_, _, last) =
        >>=_inv (raise_if (not (leb (c.score query i) 1000000)) runtime_error) _ h in
      subst IsSound (ok_inj last) (refl, (i, refl, e))

  judge-IsSound :
      (query : String) (fingerprints : List String) (i : ContextItem) {v : Verdict}
      → judge c query fingerprints i ≡ ok v
      → IsSound v
  unfolding judge
  judge-IsSound query fingerprints i h =
      let (cost, priced, h₁) = >>=_inv (estimate_message c.estimate (c.render i)) _ h in
      elim (Bool-cases (i.status == ContextStatus.active)) [
        | inr over ↦ subst IsSound (ok_inj (rw over at h₁)) (refl, refl)
        | inl active ↦ elim (Bool-cases (contains (fingerprint i) fingerprints)) [
          | inl again ↦ subst IsSound (ok_inj (rw (active, again) at h₁)) (refl, refl)
          | inr fresh ↦ scored-IsSound query i cost priced (rw (active, fresh) at h₁)
        ]
      ]

  judge_all-IsSound :
      (query : String) (fingerprints : List String) (is : List ContextItem) {vs : List Verdict}
      → judge_all c query fingerprints is ≡ ok vs
      → All IsSound vs
  unfolding judge_all
  judge_all-IsSound query fingerprints [] h = subst (All IsSound) (ok_inj h) tt
  judge_all-IsSound query fingerprints (i ∷ is) h =
      let (v, first, h₁) = >>=_inv (judge c query fingerprints i) _ h in
      let (vs, others, last) =
        >>=_inv (judge_all c query (record_fingerprint c fingerprints i) is) (λ vs. ok (v ∷ vs))
          h₁ in
      subst (All IsSound) (ok_inj last) (
        judge-IsSound query fingerprints i first,
        judge_all-IsSound query (record_fingerprint c fingerprints i) is others,
      )

  candidates-IsItemCandidate :
      (vs : List Verdict) → All IsSound vs → All IsItemCandidate (candidates_of c vs)
  candidates-IsItemCandidate [] h = tt
  candidates-IsItemCandidate (dropped d ∷ vs) h = candidates-IsItemCandidate vs h.1
  candidates-IsItemCandidate (candidate b r ∷ vs) h = (h.0, candidates-IsItemCandidate vs h.1)

  dropped-IsRefusal : (vs : List Verdict) → All IsSound vs → All IsRefusal (dropped_of c vs)
  dropped-IsRefusal [] h = tt
  dropped-IsRefusal (dropped d ∷ vs) h = (h.0, dropped-IsRefusal vs h.1)
  dropped-IsRefusal (candidate b r ∷ vs) h = dropped-IsRefusal vs h.1

  low-IsRefusal :
      (bs : List Candidate) → All IsItemCandidate bs → All IsRefusal (low_decisions c bs)
  low-IsRefusal [] h = tt
  low-IsRefusal (b ∷ bs) h = ((h.0.0, refl), low-IsRefusal bs h.1)

  pub context_candidates_sound :
      (items : List ContextItem) (query : String) {bs : List Candidate}
      {ds : List CompilationDecision}
      → context_candidates c items query ≡ ok (bs, ds)
      → All IsItemCandidate bs × All IsRefusal ds
  unfolding context_candidates
  context_candidates_sound items query {bs} {ds} h =
      let (vs, judged, last) = >>=_inv (judge_all c query [] (sorted newer items)) _ h in
      let sound = judge_all-IsSound query [] (sorted newer items) judged in
      let items_sound = candidates-IsItemCandidate vs sound in
      subst
        (λ (p : List Candidate × List CompilationDecision).
          All IsItemCandidate p.0 × All IsRefusal p.1)
        (ok_inj last)
        (
          All-keep IsItemCandidate (λ b. not (is_irrelevant c vs b)) (candidates_of c vs)
              items_sound,
          All-append IsRefusal (dropped_of c vs) _ (dropped-IsRefusal vs sound) (
              low-IsRefusal (keep (is_irrelevant c vs) (candidates_of c vs))
                (All-keep IsItemCandidate (is_irrelevant c vs) (candidates_of c vs) items_sound)),
        )
