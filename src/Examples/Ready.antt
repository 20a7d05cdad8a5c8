-- ===== src/Examples/Ready.antt =====
-- The theorems on migration readiness at concrete inputs.
use telemetry_change_guard.Common.{
  ◌≡◌, refl, ◌↔◌, ◌≢◌, ◌⊎◌, ◌≤◌, String, true, false, some, List, [], ◌∷◌, Permᴰ, Memᴰ, map, ok,
  lookup, assign, entries, sort_by, insert_by, str_ltb, codes_ltb, has, length,
}
use telemetry_change_guard.Domain.{Consumer, Discovery}
use telemetry_change_guard.Graph.{Graph, empty_graph, all_nodes}
use telemetry_change_guard.Impact.Findings.{
  check_consumers, impacted_consumers, impacted_from, node_matches,
}
use telemetry_change_guard.Readiness.Status
use telemetry_change_guard.Readiness.Classification
use telemetry_change_guard.Readiness.Classify.{
  classify, rank, worse_classification, summarize, count_consumers, count_class, with_progress,
  class_of, has_unresolved_reference, references_for,
}
use telemetry_change_guard.Readiness.Classify.Counts.{AreCounts, summarize_lem}
use telemetry_change_guard.Readiness.Classify.Laws.{counted}
use telemetry_change_guard.Readiness.Gate.{
  Gates, ConsumerResult, ChangeResult, has_required_diagnostic, is_blocking, is_open,
  status_for_consumers, status_for_changes,
}
use telemetry_change_guard.Readiness.Evaluate.{
  ReadinessResult, evaluate, change_results, change_result, consumer_results, consumer_result,
  record_class, destination_impact, with_default,
}
use telemetry_change_guard.Readiness.Evaluate.Verdict.{
  blocking, open_question, evaluate_status_iff, evaluate_complete, evaluate_progress_full,
}
use telemetry_change_guard.Examples.{alert, removal, plan, alert_id, alert_node}

abbrev same_text : String → String
same_text s = s

abbrev gates : Gates
gates = record {
  fail_on_critical_legacy_consumer = true;
  fail_on_critical_unknown = true;
  minimum_blocking_criticality = "";
  include_transitive = true;
}

-- A consumer that reads nothing.
abbrev quiet_site : Discovery
quiet_site = record { consumers = alert ∷ []; references = []; productions = []; diagnostics = [] }

abbrev quiet_graph : Graph
quiet_graph = record empty_graph { nodes = (alert_id, alert_node) ∷ [] }

abbrev alert_result : ConsumerResult
alert_result = record {
  consumer = alert;
  classification = Classification.unaffected;
  references = [];
  paths = [];
}

abbrev drop_result : ChangeResult
drop_result = record { change = removal; status = Status.ready; consumers = alert_result ∷ [] }

abbrev quiet_result : ReadinessResult
quiet_result = record {
  migration = plan;
  summary = record {
    status = Status.ready;
    total_consumers = 1;
    legacy_only = 0;
    migrated = 0;
    dual = 0;
    unaffected = 1;
    uncertain = 0;
    progress = 100;
  };
  changes = drop_result ∷ [];
  diagnostics = [];
}

quiet_run : evaluate same_text plan quiet_site (some quiet_graph) gates ≡ ok quiet_result
unfolding evaluate check_consumers sort_by insert_by has with_default change_results change_result
    consumer_results consumer_result record_class destination_impact impacted_consumers
    impacted_from node_matches all_nodes classify class_of lookup assign entries
    worse_classification rank summarize count_consumers count_class with_progress status_for_changes
    status_for_consumers has_required_diagnostic is_blocking is_open has_unresolved_reference
    references_for str_ltb codes_ltb
quiet_run = refl

evaluate_status_iff_example :
    ((quiet_result.summary.status ≡ Status.blocked)
      ↔ (blocking same_text plan quiet_site quiet_graph gates quiet_result quiet_run ≡ true))
    × ((quiet_result.summary.status ≡ Status.ready) ↔ (
        (blocking same_text plan quiet_site quiet_graph gates quiet_result quiet_run ≡ false)
        × (has_required_diagnostic quiet_site.diagnostics ≡ false)
        × (open_question same_text plan quiet_site quiet_graph gates quiet_result quiet_run
            ≡ false)))
    × ((quiet_result.summary.status ≡ Status.incomplete) ↔ (
        (blocking same_text plan quiet_site quiet_graph gates quiet_result quiet_run ≡ false)
        × ((has_required_diagnostic quiet_site.diagnostics ≡ true)
            ⊎ (open_question same_text plan quiet_site quiet_graph gates quiet_result quiet_run
                ≡ true))))
evaluate_status_iff_example =
    evaluate_status_iff same_text plan quiet_site quiet_graph gates quiet_result quiet_run

evaluate_complete_example :
    (map (λ c. c.change) quiet_result.changes ≡ plan.changes)
    × ((c : ChangeResult)
        → Memᴰ c quiet_result.changes
        → Permᴰ (map (λ x. x.consumer) c.consumers) quiet_site.consumers)
evaluate_complete_example =
    evaluate_complete same_text plan quiet_site quiet_graph gates quiet_result quiet_run

evaluate_progress_full_example :
    (alert_result.classification ≢ Classification.legacy_only)
    × (alert_result.classification ≢ Classification.uncertain)
evaluate_progress_full_example =
    evaluate_progress_full same_text plan quiet_site quiet_graph gates quiet_result quiet_run refl
      drop_result alert_result (Memᴰ.head refl) (Memᴰ.head refl)

abbrev classes : List (String × String)
classes = ("alert", Classification.dual) ∷ []

summarize_lem_example :
    AreCounts (summarize (alert ∷ []) classes) (alert ∷ []) classes
    × (counted (summarize (alert ∷ []) classes) ≡ length (alert ∷ []))
    × ((summarize (alert ∷ []) classes).total_consumers ≡ length (alert ∷ []))
    × ((summarize (alert ∷ []) classes).progress ≤ 100)
    × (((summarize (alert ∷ []) classes).progress ≡ 100) ↔ (
        ((c : Consumer) → Memᴰ c (alert ∷ []) → class_of c.id classes ≢ Classification.legacy_only)
        × ((c : Consumer)
            → Memᴰ c (alert ∷ [])
            → class_of c.id classes ≢ Classification.uncertain)))
summarize_lem_example = summarize_lem (alert ∷ []) classes
