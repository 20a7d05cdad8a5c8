-- ===== src/Analysis/Run/Closed.antt =====
-- internal/analysis/engine.go: how the pipeline's error and its status belong together.
use telemetry_change_guard.Common.{
  ℕ, String, Bool, not, ◌&&◌, none, some, List, ◌++◌, ◌≡◌, ◌≢◌, refl, sym, ◌∙◌, ◌⊎◌, inl, inr, ◌==◌,
  Bool-cases, Option-cases, Result-cases, ltb, length,
}
use telemetry_change_guard.Domain.{ChangeSet, Discovery, Diagnostic}
use telemetry_change_guard.Graph.{Graph}
use telemetry_change_guard.Impact.Findings.{Finding, analyze}
use telemetry_change_guard.Safety.Status
use telemetry_change_guard.Safety.Policy.{Policy}
use telemetry_change_guard.Safety.Evaluate.{evaluate, error_result}
use telemetry_change_guard.Safety.Evaluate.Verdict.{evaluate_refused, evaluate_accepted}
use telemetry_change_guard.Safety.Evaluate.Statuses.{ladder_ne_error, status_accepted}
use telemetry_change_guard.Analysis.{Configuration}
use telemetry_change_guard.Analysis.Discover.{Adapters, analyze_change_set}
use telemetry_change_guard.Analysis.Run.{
  SafetyRun, judge, assess_safety, run_safety_with_diagnostics,
}

-- No error and a status other than ERROR, or an error and ERROR.
abbrev pub IsClosed : SafetyRun → Type 0
IsClosed r =
    ((r.error ≡ none) × (r.result.status ≢ Status.error))
    ⊎ ((r.error ≢ none) × (r.result.status ≡ Status.error))

module _ (lower : String → String) (config : Configuration) where
  over : List Finding → Bool
  over fs =
      not (config.execution.repository_root == "") && ltb config.execution.max_findings (length fs)

  judge-IsClosed :
      (s : ChangeSet) (p : Policy) (fs : List Finding) (d : Discovery) (g : Graph)
      → IsClosed (judge lower config s p fs d g)
  unfolding judge error_result over
  judge-IsClosed s p fs d g = elim (Bool-cases (over fs)) [
    | inl o ↦ rw (o, judge) (inr (λ h. cc h, refl))
    | inr o ↦ elim (evaluate_refused lower s fs d.diagnostics p) [
      | inl a ↦
          rw (o, judge, (evaluate_accepted lower s fs d.diagnostics p a).0)
            (inl (
              refl,
              λ h. ladder_ne_error _ _ _ _ (sym (status_accepted lower s fs d.diagnostics p a) ∙ h),
            ))
      | inr (e, h) ↦ elim (Option-cases (evaluate lower s fs d.diagnostics p).1) [
        | inl z ↦ absurd (e z)
        | inr (x, z) ↦ rw (o, judge, z) (inr (λ q. cc q, h))
      ]
    ]
  ]

  assess_safety-IsClosed :
      (s : ChangeSet) (p : Policy) (more : List Diagnostic) (found : Discovery) (g : Graph)
      → IsClosed (assess_safety lower config s p more found g)
  unfolding assess_safety error_result
  assess_safety-IsClosed s p more found g =
      let d : Discovery = record found { diagnostics = found.diagnostics ++ more } in
      let findings = analyze s d (some g) config.include_transitive_dependencies in
      elim (Option-cases findings.1) [
        | inl z ↦ rw (z, assess_safety) (judge-IsClosed s p findings.0 d g)
        | inr (e, z) ↦ rw (z, assess_safety) (inr (λ q. cc q, refl))
      ]

  module _ {S : Type 0} (adapters : Adapters S) (is_blank : String → Bool) (show : ℕ → String)
      (quote : String → String) where
    -- Whatever the adapters, the configuration, the changes and the policy, the pipeline returns an error
    -- exactly if the status of its result is ERROR.
    pub run_safety-IsClosed :
        (change_set : ChangeSet) (p : Policy) (more : List Diagnostic) (s : S)
        → IsClosed
            (run_safety_with_diagnostics lower config adapters is_blank show quote change_set p more
              s).1
    unfolding run_safety_with_diagnostics error_result
    run_safety-IsClosed change_set p more s =
        let r = analyze_change_set adapters config is_blank show quote change_set s in
        elim (Result-cases r.1) [
          | inl (e, q) ↦ rw (q, run_safety_with_diagnostics) (inr (λ h. cc h, refl))
          | inr (found, q) ↦
              rw (q, run_safety_with_diagnostics)
                (assess_safety-IsClosed change_set p more found.0 found.1)
        ]
