-- ===== src/Analysis/Discover.antt =====
-- internal/analysis/engine.go: `Discover` and `AnalyzeChangeSet`. The steps before the local sources, the
-- adapters with settings of their own, and ownership's calls are parameters.
pub mod Built
use telemetry_change_guard.Common.{
  ℕ, String, Bool, true, false, ◌&&◌, Option, none, some, List, [], ◌∷◌, ◌++◌, Result, ok, err,
  is_empty, if◌then◌else◌,
}
use telemetry_change_guard.Config.{validate_change_set}
use telemetry_change_guard.Domain.{ChangeSet, Discovery}
use telemetry_change_guard.Graph.{Graph}
use telemetry_change_guard.Impact.Build.{build_graph}
use telemetry_change_guard.Ownership.Outside.{Texts, Files}
use telemetry_change_guard.Ownership.Loading.{OwnershipConfig}
use telemetry_change_guard.Ownership.Enrich.{enrich}
use telemetry_change_guard.Analysis.{
  Configuration, AnalysisError, SourcePattern, cancelled, setup, ownership_root, ownership,
  graph_error, invalid_change_set,
}
use telemetry_change_guard.Analysis.Limits.{
  validate_discovery_limits, validate_graph_limits, trace_mapping_diagnostics,
}
use telemetry_change_guard.Analysis.Sources.{SourceFiles, load_patterns}

-- A step of the pipeline: the state of the outside, and the result.
abbrev pub Outcome {ℓ} : Type 0 → Type ℓ → Type ℓ
Outcome S A = S × Result AnalysisError A

-- `if err != nil { return }`
abbrev pub and_then {ℓ κ} :
    {S : Type 0} {A : Type ℓ} {B : Type κ} → Outcome S A → (S → A → Outcome S B) → Outcome S B
and_then r k = elim r.1 [ err e ↦ (r.0, err e) | ok a ↦ k r.0 a ]

-- `if err := check; err != nil { return }`
abbrev pub checked {ℓ} : {A : Type ℓ} → Option AnalysisError → A → Result AnalysisError A
checked none a = ok a
checked (some e) a = err e

-- What Discover calls and is not modelled here: the policies and the environment, the adapters with
-- settings of their own, and ValidateDirectory of the budget.
pub record Adapters (S : Type 0) : Type 0 where
  pub sources : SourceFiles S
  pub texts : Texts
  pub files : Files S
  pub prepare : S → S × Option String
  pub autoscalers : S → Discovery → Outcome S Discovery
  pub perses_usage : S → Discovery → S × Discovery
  pub runtime_queries : S → Discovery → Outcome S Discovery
  pub tempo_queries : S → Discovery → Outcome S Discovery
  pub validate_directory : String → Result String String

abbrev pub empty_discovery : Discovery
empty_discovery = record { consumers = []; references = []; productions = []; diagnostics = [] }

-- The calls of loadPatterns, in order.
abbrev pub pattern_sources : Configuration → List (String × List SourcePattern)
pattern_sources config =
    ("prometheus_rules", config.prometheus_rules)
    ∷ ("grafana", config.grafana)
    ∷ ("sloth", config.sloth)
    ∷ ("pyrra", config.pyrra)
    ∷ ("keda", config.keda)
    ∷ ("argo_rollouts", config.argo_rollouts)
    ∷ []

module _ {S : Type 0} (adapters : Adapters S) (config : Configuration) where
  unfoldable pub load_sources :
      List (String × List SourcePattern) → S → Discovery → Outcome S Discovery
  load_sources [] s d = (s, ok d)
  load_sources ((adapter, patterns) ∷ sources) s d =
      and_then (load_patterns adapters.sources adapter patterns s d) (load_sources sources)

  -- From loadPatterns to loadTempoQueries.
  unfoldable pub collect : S → Discovery → Outcome S Discovery
  collect s d = and_then (load_sources (pattern_sources config) s d) (λ s1 d1.
      and_then (adapters.autoscalers s1 d1) (λ s2 d2.
        and_then
          (adapters.runtime_queries (adapters.perses_usage s2 d2).0 (adapters.perses_usage s2 d2).1)
          adapters.tempo_queries))

  -- The ownership configuration after the test of its directory.
  unfoldable pub ownership_config : Result AnalysisError OwnershipConfig
  ownership_config =
      if adapters.sources.budgeted && config.ownership.enabled
      then elim (adapters.validate_directory config.ownership.repository_root) [
        | err e ↦ err (ownership_root e)
        | ok root ↦ ok (record config.ownership { repository_root = root })
      ]
      else ok config.ownership

  -- The graph of a discovery within the limits.
  unfoldable pub limited_graph : Discovery → Result AnalysisError (Discovery × Graph)
  limited_graph d = elim (build_graph d) [
    | err e ↦ err (graph_error e)
    | ok g ↦ checked (validate_graph_limits config.execution g) (d, g)
  ]

  -- From the enrichment to the end.
  unfoldable pub finish : OwnershipConfig → S → Discovery → Outcome S (Discovery × Graph)
  finish owners s d =
      let (s', enriched, failed) = enrich adapters.texts adapters.files owners s d in
      let polled = adapters.sources.poll s' in
      elim failed [
        | some e ↦ (s', err (ownership e))
        | none ↦ elim polled.1 [
          | some e ↦ (polled.0, err (cancelled e))
          | none ↦ (polled.0, limited_graph enriched)
        ]
      ]

  -- From the limits of the discovery to the end.
  unfoldable pub bounded : S → Discovery → Outcome S (Discovery × Graph)
  bounded s d = elim (validate_discovery_limits config.execution d) [
    | some e ↦ (s, err e)
    | none ↦ elim ownership_config [ err e ↦ (s, err e) | ok owners ↦ finish owners s d ]
  ]

  unfoldable pub discover : S → Outcome S (Discovery × Graph)
  discover s =
      let prepared = adapters.prepare s in
      elim prepared.1 [
        | some e ↦ (prepared.0, err (setup e))
        | none ↦ and_then (collect prepared.0 empty_discovery) bounded
      ]

  module _ (is_blank : String → Bool) (show : ℕ → String) (quote : String → String) where
    unfoldable pub analyze_change_set : ChangeSet → S → Outcome S (Discovery × Graph)
    analyze_change_set change_set s =
        if is_empty (validate_change_set is_blank show quote change_set)
        then and_then (discover s) (λ s' found. (
          s',
          ok (
            record found.0 {
              diagnostics =
                  found.0.diagnostics ++ trace_mapping_diagnostics quote config change_set;
            },
            found.1,
          ),
        ))
        else (s, err (invalid_change_set (validate_change_set is_blank show quote change_set)))
