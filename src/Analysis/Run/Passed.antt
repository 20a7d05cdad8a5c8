-- ===== src/Analysis/Run/Passed.antt =====
-- internal/analysis/engine.go: what a PASS of the whole pipeline stands for.
use telemetry_change_guard.Common.{
  ℕ, String, Bool, true, not, ◌&&◌, none, some, List, ◌++◌, ok, ◌≡◌, refl, sym, Memᴰ, inl, inr,
  ◌==◌, Bool-cases, Option-cases, Result-cases, ltb, length, is_empty,
}
use telemetry_change_guard.Config.{validate_change_set}
use telemetry_change_guard.Domain.{Change, ChangeSet, Consumer, Discovery, Diagnostic}
use telemetry_change_guard.Graph.{Graph}
use telemetry_change_guard.Guarantee.{pass-unaffected}
use telemetry_change_guard.Impact.Build.{build_graph}
use telemetry_change_guard.Impact.Findings.{analyze}
use telemetry_change_guard.Impact.Findings.Analyzed.{IsAffected}
use telemetry_change_guard.Safety.Status
use telemetry_change_guard.Safety.Policy.{Policy}
use telemetry_change_guard.Safety.Evaluate.{error_result}
use telemetry_change_guard.Safety.Evaluate.Apart.{pass-ne-error}
use telemetry_change_guard.Analysis.{Configuration}
use telemetry_change_guard.Analysis.Discover.{Adapters, analyze_change_set}
use telemetry_change_guard.Analysis.Discover.Built.{analyze_change_set-IsBuilt}
use telemetry_change_guard.Analysis.Run.{
  SafetyRun, judge, assess_safety, run_safety_with_diagnostics,
}

-- No change of the set affects a consumer of the discovery.
abbrev pub IsUnaffected : Bool → ChangeSet → Discovery → Graph → Type 0
IsUnaffected transitive s d g =
    (change : Change) (c : Consumer)
    → Memᴰ change s.changes
    → Memᴰ c d.consumers
    → ¬ IsAffected g transitive d.references change c

-- The run returns its graph, which is that of its discovery, and its discovery is not affected.
abbrev pub IsPassed : Configuration → ChangeSet → SafetyRun → Type 0
IsPassed config s r =
    (g : Graph) × (r.graph ≡ some g)
    × (build_graph r.discovery ≡ ok g)
    × IsUnaffected config.include_transitive_dependencies s r.discovery g

module _ (lower : String → String) (config : Configuration) where
  judge-IsPassed :
      (s : ChangeSet) (p : Policy) (d : Discovery) (g : Graph)
      → (analyze s d (some g) config.include_transitive_dependencies).1 ≡ none
      → build_graph d ≡ ok g
      → (judge lower config s p
          (analyze s d (some g) config.include_transitive_dependencies).0
          d
          g).result.status
        ≡ Status.pass
      → IsPassed config s (
          judge lower config s p
            (analyze s d (some g) config.include_transitive_dependencies).0
            d
            g)
  unfolding judge error_result
  judge-IsPassed s p d g run built pass =
      let fs = (analyze s d (some g) config.include_transitive_dependencies).0 in
      let over =
        not (config.execution.repository_root == "")
        && ltb config.execution.max_findings (length fs) in
      elim (Bool-cases over) [
        | inl o ↦ absurd (pass-ne-error (sym (rw (o, judge) at pass)))
        | inr o ↦
            let passed = rw (o, judge) at pass in
            rw (o, judge)
              (
                g,
                refl,
                built,
                pass-unaffected lower s d g config.include_transitive_dependencies p run passed,
              )
      ]

  assess_safety-IsPassed :
      (s : ChangeSet) (p : Policy) (more : List Diagnostic) (found : Discovery) (g : Graph)
      → build_graph found ≡ ok g
      → (assess_safety lower config s p more found g).result.status ≡ Status.pass
      → IsPassed config s (assess_safety lower config s p more found g)
  unfolding assess_safety error_result build_graph
  assess_safety-IsPassed s p more found g built pass =
      let d : Discovery = record found { diagnostics = found.diagnostics ++ more } in
      elim (Option-cases (analyze s d (some g) config.include_transitive_dependencies).1) [
        | inr (e, q) ↦ absurd (pass-ne-error (sym (rw (q, assess_safety) at pass)))
        | inl q ↦
            rw (q, assess_safety) (judge-IsPassed s p d g q built (rw (q, assess_safety) at pass))
      ]

  module _ {S : Type 0} (adapters : Adapters S) (is_blank : String → Bool) (show : ℕ → String)
      (quote : String → String) where
    -- If the pipeline gives PASS, the set of changes is valid, the graph it returns is the graph of the
    -- discovery it returns, and no change affects a consumer of this discovery: `ImpactedConsumers` records
    -- no path from the changed symbol to the consumer, and the consumer's evidence is not uncertain.
    pub run_safety-IsPassed :
        (s : ChangeSet) (p : Policy) (more : List Diagnostic) (state : S)
        → (run_safety_with_diagnostics lower config adapters is_blank show quote s p more
            state).1.result.status
          ≡ Status.pass
        → (is_empty (validate_change_set is_blank show quote s) ≡ true)
          × IsPassed config s
              (run_safety_with_diagnostics lower config adapters is_blank show quote s p more
                state).1
    unfolding run_safety_with_diagnostics error_result
    run_safety-IsPassed s p more state pass =
        elim (Result-cases (analyze_change_set adapters config is_blank show quote s state).1) [
          | inl (e, q) ↦ absurd (pass-ne-error (sym (rw (q, run_safety_with_diagnostics) at pass)))
          | inr (found, q) ↦
              let (valid, built) =
                analyze_change_set-IsBuilt adapters config is_blank show quote s state found.0
                  found.1 q in
              rw (q, run_safety_with_diagnostics)
                (
                  valid,
                  assess_safety-IsPassed s p more found.0 found.1 built.0
                      (rw (q, run_safety_with_diagnostics) at pass),
                )
        ]
