-- ===== src/Compiler/Compile/Instructions.antt =====
-- System and developer messages are always sent.
use ctx_ttl_oss.Compiler.Units.Instructions.{gives_instruction, IsGuarded, units-IsGuarded}
use ctx_ttl_oss.Compiler.Compile.Run.{compile_inv}
use ctx_ttl_oss.Compiler.Compile.Kept.{hard_messages, IsSubsequence, skip, done, take_both}
use ctx_ttl_oss.Compiler.Compile.Output.{compile-keeps_hard}
use ctx_ttl_oss.Prelude.{
  ℕ, ◌≡◌, refl, sym, subst, ◌∙◌, inl, inr, Bool, false, List, [], ◌∷◌, ◌++◌, arith, nat_eq,
  string_eq, option_eq, list_eq, Bool-cases, ok, ok_inj, keep, any, keep-append, All,
}
use ctx_ttl_oss.Json.{Json}
use ctx_ttl_oss.Models.Context.{ContextItem}
use ctx_ttl_oss.Compiler.Units.{Message, normalize_messages, MessageUnit}
use ctx_ttl_oss.Compiler.Context.{CompilerConfig}
use ctx_ttl_oss.Compiler.Compile.{CompilationResult, compile}
use ctx_ttl_oss.Compiler.Compile.Kept.{skip_all}
use ctx_ttl_oss.Compiler.Units.Partition.{unit_messages, units-partition_messages}

module _ {A : Type 0} where
  IsSubsequence-trans :
      {xs ys zs : List A} → IsSubsequence xs ys → IsSubsequence ys zs → IsSubsequence xs zs
  IsSubsequence-trans (done _) t = done _
  IsSubsequence-trans (skip y s) (skip z t) = skip z (IsSubsequence-trans (skip y s) t)
  IsSubsequence-trans (take_both x s) (skip z t) = skip z (IsSubsequence-trans (take_both x s) t)
  IsSubsequence-trans (skip y s) (take_both _ t) = skip y (IsSubsequence-trans s t)
  IsSubsequence-trans (take_both x s) (take_both _ t) = take_both x (IsSubsequence-trans s t)

  keep-IsSubsequence : (p : A → Bool) (xs : List A) → IsSubsequence (keep p xs) xs
  keep-IsSubsequence p [] = done []
  keep-IsSubsequence p (x ∷ xs) = elim (Bool-cases (p x)) [
    | inl taken ↦ rw taken (take_both x (keep-IsSubsequence p xs))
    | inr left ↦ rw left (skip x (keep-IsSubsequence p xs))
  ]

  append-IsSubsequence :
      {xs ys us vs : List A}
      → IsSubsequence xs ys
      → IsSubsequence us vs
      → IsSubsequence (xs ++ us) (ys ++ vs)
  append-IsSubsequence (done ys) t = skip_all ys t
  append-IsSubsequence (skip y s) t = skip y (append-IsSubsequence s t)
  append-IsSubsequence (take_both x s) t = take_both x (append-IsSubsequence s t)

  keep-none : (p : A → Bool) (xs : List A) → any p xs ≡ false → keep p xs ≡ []
  keep-none p [] h = refl
  keep-none p (x ∷ xs) h = let rest = keep-none p xs in ground arith

instructions-hard :
    (us : List MessageUnit)
    → All IsGuarded us
    → IsSubsequence (keep gives_instruction (unit_messages us)) (hard_messages us)
instructions-hard [] h = done []
instructions-hard (u ∷ us) h = elim (Bool-cases u.hard) [
  | inl hard ↦
      rw (hard, keep-append)
        (append-IsSubsequence (keep-IsSubsequence gives_instruction u.messages)
          (instructions-hard us h.1))
  | inr soft ↦
      let guarded = h.0 in
      let clean : any gives_instruction u.messages ≡ false = ground arith in
      rw (soft, keep-append, keep-none gives_instruction u.messages clean)
        (instructions-hard us h.1)
]

-- Where `compile` returns a result, every system or developer message of the request is among the
-- messages sent, in the order of the request.
pub compile-keeps_instructions :
    (c : CompilerConfig) (messages : List Json) (items : List ContextItem)
    (target limit reserve : ℕ) {r : CompilationResult} {ms : List Message}
    → compile c messages items target limit reserve ≡ ok r
    → normalize_messages messages ≡ ok ms
    → IsSubsequence (keep gives_instruction ms) r.messages
compile-keeps_instructions c messages items target limit reserve {r} {ms} h accepted =
    let run = compile_inv c messages items target limit reserve h in
    let same : unit_messages run.units ≡ ms =
      units-partition_messages c.estimate run.normalized reserve run.split
      ∙ ok_inj (sym run.accepted ∙ accepted) in
    subst (λ ns. IsSubsequence (keep gives_instruction ns) r.messages) same
      (IsSubsequence-trans
        (instructions-hard run.units (units-IsGuarded c.estimate run.normalized reserve run.split))
        (compile-keeps_hard c messages items target limit reserve h run.accepted run.split))
