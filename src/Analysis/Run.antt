-- ===== src/Analysis/Run.antt =====
-- internal/analysis/engine.go: `RunSafetyWithDiagnostics`, `RunSafety` and `Run`.
pub mod Closed
pub mod Passed
use telemetry_change_guard.Common.{
  ℕ, zero, suc, String, Bool, true, false, not, ◌&&◌, Option, none, some, List, [], ◌∷◌, ◌++◌,
  Result, ok, err, ◌==◌, map, if◌then◌else◌, ltb, length,
}
use mathlib.Core.Option.{map as option_map}
use telemetry_change_guard.Config.{normalize_migration}
use telemetry_change_guard.Domain.{ChangeSet, Migration, Discovery, Diagnostic}
use telemetry_change_guard.Graph.{Graph}
use telemetry_change_guard.Impact.Findings.{Finding, Findings, analyze}
use telemetry_change_guard.Safety.Policy.{Policy}
use telemetry_change_guard.Safety.Evaluate.{SafetyResult, SafetyError, evaluate, error_result}
use telemetry_change_guard.Readiness.Gate.{Gates}
use telemetry_change_guard.Readiness.Evaluate.{ReadinessResult}
use telemetry_change_guard.Readiness.Evaluate
use telemetry_change_guard.Analysis.{
  Configuration, AnalysisError, invalid_migration, impact_error, readiness_error, safety_error,
  over_limit,
}
use telemetry_change_guard.Analysis.Discover.{
  Outcome, Adapters, empty_discovery, and_then, analyze_change_set,
}

-- `findings[:limit]`, for a limit that is not longer than the list
unfoldable pub take {ℓ} : {A : Type ℓ} → ℕ → List A → List A
take zero xs = []
take (suc n) [] = []
take (suc n) (x ∷ xs) = x ∷ take n xs

unfoldable pub readiness_policy : Configuration → Gates
readiness_policy config = record {
  fail_on_critical_legacy_consumer = config.policy.fail_on_critical_legacy_consumer;
  fail_on_critical_unknown = config.policy.fail_on_critical_unknown;
  minimum_blocking_criticality = config.policy.minimum_blocking_criticality;
  include_transitive = config.include_transitive_dependencies;
}

-- The four results of RunSafety. The error in the result is its text in the code.
pub record SafetyRun : Type 0 where
  pub result : SafetyResult AnalysisError
  pub graph : Option Graph
  pub discovery : Discovery
  pub error : Option AnalysisError

-- A result of `Evaluate`, its errors among those of the pipeline.
abbrev pub lift_result : SafetyResult SafetyError → SafetyResult AnalysisError
lift_result r = record {
  change_set = r.change_set;
  status = r.status;
  findings = r.findings;
  decisions = r.decisions;
  diagnostics = r.diagnostics;
  errors = map safety_error r.errors;
}

module _ (lower : String → String) (config : Configuration) where
  -- The steps after the analysis of impact returned findings without an error.
  unfoldable pub judge : ChangeSet → Policy → List Finding → Discovery → Graph → SafetyRun
  judge change_set p findings d g =
      let limit = config.execution.max_findings in
      let e = over_limit "finding" (length findings) limit in
      let (result, failed) = evaluate lower change_set findings d.diagnostics p in
      if not (config.execution.repository_root == "") && ltb limit (length findings)
      then record {
        result = error_result change_set (take limit findings) d.diagnostics (some e);
        graph = some g;
        discovery = d;
        error = some e;
      }
      else record {
        result = lift_result result;
        graph = some g;
        discovery = d;
        error = option_map safety_error failed;
      }

  -- The steps after the discovery, with the diagnostics of the source of the changes.
  unfoldable pub assess_safety :
      ChangeSet → Policy → List Diagnostic → Discovery → Graph → SafetyRun
  assess_safety change_set p source_diagnostics found g =
      let d : Discovery = record found { diagnostics = found.diagnostics ++ source_diagnostics } in
      let findings = analyze change_set d (some g) config.include_transitive_dependencies in
      elim findings.1 [
        | some e ↦ record {
          result = error_result change_set findings.0 d.diagnostics (some (impact_error e));
          graph = some g;
          discovery = d;
          error = some (impact_error e);
        }
        | none ↦ judge change_set p findings.0 d g
      ]

  module _ {S : Type 0} (adapters : Adapters S) (is_blank : String → Bool) (show : ℕ → String)
      (quote : String → String) where
    unfoldable pub run_safety_with_diagnostics :
        ChangeSet → Policy → List Diagnostic → S → S × SafetyRun
    run_safety_with_diagnostics change_set p source_diagnostics s =
        let r = analyze_change_set adapters config is_blank show quote change_set s in
        elim r.1 [
          | err e ↦ (
            r.0,
            record {
              result = error_result change_set [] source_diagnostics (some e);
              graph = none;
              discovery = empty_discovery;
              error = some e;
            },
          )
          | ok found ↦ (r.0, assess_safety change_set p source_diagnostics found.0 found.1)
        ]

    unfoldable pub run_safety : ChangeSet → Policy → S → S × SafetyRun
    run_safety change_set p s = run_safety_with_diagnostics change_set p [] s

    -- `Run`
    unfoldable pub run : Migration → S → Outcome S (ReadinessResult × Graph × Discovery)
    run migration s = elim (normalize_migration is_blank show quote migration) [
      | err issues ↦ (s, err (invalid_migration issues))
      | ok change_set ↦
          and_then (analyze_change_set adapters config is_blank show quote change_set s)
            (λ s' found. (
              s',
              elim (Evaluate.evaluate lower migration found.0 (some found.1)
                  (readiness_policy config)) [
                    | err e ↦ err (readiness_error e)
                    | ok result ↦ ok (result, found.1, found.0)
                  ],
            ))
    ]
