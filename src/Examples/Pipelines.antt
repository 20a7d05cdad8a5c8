-- ===== src/Examples/Pipelines.antt =====
-- The theorems on the whole pipeline at concrete inputs: one file, whose alert reads nothing.
use telemetry_change_guard.Common.{
  true, false, none, List, [], ◌∷◌, ◌≡◌, Memᴰ, refl, ok, lookup, assign, join, is_empty,
}
use telemetry_change_guard.Config.{validate_change_set}
use telemetry_change_guard.Domain.{Discovery, append_discovery}
use telemetry_change_guard.Safety.Status
use telemetry_change_guard.Safety.Policy.{default_policy}
use telemetry_change_guard.Source.{Match, Failure}
use telemetry_change_guard.Analysis.{Configuration, SourcePattern}
use telemetry_change_guard.Analysis.Sources.{
  SourceFiles, load_patterns, load_matches, load_match, absorb, report, report_failures,
  source_diagnostic,
}
use telemetry_change_guard.Analysis.Sources.Accounted.{
  Includes, IsReported, IsAccounted, load_patterns-IsAccounted,
}
use telemetry_change_guard.Analysis.Discover.{
  Adapters, empty_discovery, analyze_change_set, discover, collect, load_sources, bounded,
  ownership_config, finish, limited_graph,
}
use telemetry_change_guard.Analysis.Limits.{
  validate_discovery_limits, validate_graph_limits, trace_mapping_diagnostics,
}
use telemetry_change_guard.Ownership.Evidence.{delete}
use telemetry_change_guard.Ownership.Enrich.{enrich, forget_tags}
use telemetry_change_guard.Impact.Build.{
  build_graph, add_consumers, add_references, add_productions,
}
use telemetry_change_guard.Graph.{add_node, node, consumer_node_id}
use telemetry_change_guard.Analysis.Run.{run_safety_with_diagnostics, assess_safety, judge}
use telemetry_change_guard.Analysis.Run.Closed.{IsClosed, run_safety-IsClosed}
use telemetry_change_guard.Analysis.Run.Passed.{IsPassed, run_safety-IsPassed}
use telemetry_change_guard.Examples.{removals}
use telemetry_change_guard.Examples.Guaranteed.{
  same_text, idle_site, idle_graph, idle_run, idle_pass,
}
use telemetry_change_guard.Examples.Manifests.{is_blank, show, quote, removals_valid}
use telemetry_change_guard.Examples.Owners.{texts, files, owners}

abbrev rules_file : Match
rules_file = record { path = "rules.yaml"; required = true; patterns = "rules.yaml" ∷ [] }

abbrev lost_file : Failure
lost_file = record { pattern = "more.yaml"; required = true; reason = "no such file" }

abbrev rule_files : List Failure → SourceFiles Unit
rule_files failures = record {
  budgeted = false;
  poll = λ s. (s, none);
  expand =
      λ s patterns. (s, ok (elim patterns [ [] ↦ ([], []) | _ ∷ _ ↦ (rules_file ∷ [], failures) ]));
  read = λ s adapter m. (s, ok (record { parsed = ok idle_site; close_error = none }));
  quote_all = λ names. "";
}

abbrev rule_patterns : List SourcePattern
rule_patterns = (record { pattern = "rules.yaml"; required = true }) ∷ []

abbrev adapters : Adapters Unit
adapters = record {
  sources = rule_files [];
  texts = texts;
  files = files;
  prepare = λ s. (s, none);
  autoscalers = λ s d. (s, ok d);
  perses_usage = λ s d. (s, d);
  runtime_queries = λ s d. (s, ok d);
  tempo_queries = λ s d. (s, ok d);
  validate_directory = λ s. ok s;
}

abbrev config : Configuration
config = record {
  prometheus_rules = rule_patterns;
  grafana = [];
  sloth = [];
  pyrra = [];
  keda = [];
  argo_rollouts = [];
  tempo_queries = [];
  trace_attributes = [];
  ownership = record owners { enabled = false };
  include_transitive_dependencies = true;
  policy = record {
    fail_on_critical_legacy_consumer = true;
    fail_on_critical_unknown = true;
    minimum_blocking_criticality = "high";
  };
  execution = record {
    repository_root = "";
    max_source_files = 1;
    max_source_bytes = 1;
    max_consumers = 1;
    max_references = 1;
    max_productions = 1;
    max_graph_nodes = 1;
    max_graph_edges = 1;
    max_findings = 1;
  };
}

run_safety-IsClosed_example :
    IsClosed
      (run_safety_with_diagnostics same_text config adapters is_blank show quote removals
        default_policy [] tt).1
run_safety-IsClosed_example =
    run_safety-IsClosed same_text config adapters is_blank show quote removals default_policy [] tt

abbrev reported : Discovery
reported = record idle_site {
  diagnostics =
      (record {
        adapter = "prometheus_rules";
        source = record { file = "more.yaml"; line = 0; column = 0; url = ""; repo = "" };
        message = "no such file";
        required = true;
      })
      ∷ [];
}

loaded :
    (load_patterns
      (rule_files (lost_file ∷ []))
      "prometheus_rules"
      rule_patterns
      tt
      empty_discovery).1
    ≡ ok reported
unfolding load_patterns load_matches load_match absorb report report_failures source_diagnostic
    append_discovery
loaded = refl

load_patterns-IsAccounted_example :
    (found : List Match × List Failure) × (((rule_files (lost_file ∷ [])).expand tt rule_patterns).1
      ≡ ok found)
    × Includes empty_discovery reported
    × ((f : Failure) → Memᴰ f found.1 → IsReported f.pattern f.required reported)
    × ((m : Match)
        → Memᴰ m found.0
        → IsAccounted (rule_files (lost_file ∷ [])) "prometheus_rules" m reported)
load_patterns-IsAccounted_example =
    load_patterns-IsAccounted (rule_files (lost_file ∷ [])) "prometheus_rules" rule_patterns tt
      empty_discovery reported loaded

analyzed :
    analyze_change_set adapters config is_blank show quote removals tt
    ≡ (tt, ok (idle_site, idle_graph))
unfolding analyze_change_set discover collect load_sources bounded ownership_config finish
    limited_graph load_patterns load_matches load_match absorb report report_failures
    append_discovery validate_discovery_limits validate_graph_limits trace_mapping_diagnostics
    enrich forget_tags delete build_graph add_consumers add_references add_productions add_node node
    lookup assign consumer_node_id join
analyzed = rw removals_valid refl

assessed :
    (assess_safety same_text config removals default_policy [] idle_site idle_graph).result.status
    ≡ Status.pass
unfolding assess_safety judge
assessed = rw (idle_run, assess_safety, judge) idle_pass

passes :
    (run_safety_with_diagnostics same_text config adapters is_blank show quote removals
      default_policy [] tt).1.result.status
    ≡ Status.pass
unfolding run_safety_with_diagnostics
passes = rw (analyzed, run_safety_with_diagnostics) assessed

run_safety-IsPassed_example :
    (is_empty (validate_change_set is_blank show quote removals) ≡ true)
    × IsPassed config removals
        (run_safety_with_diagnostics same_text config adapters is_blank show quote removals
          default_policy [] tt).1
run_safety-IsPassed_example =
    run_safety-IsPassed same_text config adapters is_blank show quote removals default_policy [] tt
      passes
