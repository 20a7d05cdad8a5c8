-- ===== src/Examples/Guaranteed.antt =====
-- A discovery that passes: the alert reads nothing.
use telemetry_change_guard.Common.{
  String, true, none, some, [], ◌∷◌, ◌≡◌, refl, entries, sort_by, insert_by, str_ltb, codes_ltb,
  lookup, has,
}
use telemetry_change_guard.Domain.{Discovery}
use telemetry_change_guard.Graph.{Graph, empty_graph, all_nodes}
use telemetry_change_guard.Impact.Findings.{
  analyze, impacted_consumers, check_consumers, assess_changes, assess_consumers, assess,
  node_matches, impacted_from, is_uncertain, consumer_before, change_before,
}
use telemetry_change_guard.Impact.Matching.{source_references, has_unresolved}
use telemetry_change_guard.Safety.Status
use telemetry_change_guard.Safety.Policy.{
  default_policy, validate_policy, valid_mode, valid_impact_type, valid_criticality, check_rule,
  check_rules, rule_at,
}
use telemetry_change_guard.Safety.Evaluate.Verdict.{result}
use telemetry_change_guard.Safety.Evaluate.Statuses.{evaluate_pass_iff}
use telemetry_change_guard.Examples.{alert, removals, alert_id, alert_node}

abbrev pub same_text : String → String
same_text s = s

abbrev pub idle_site : Discovery
idle_site = record { consumers = alert ∷ []; references = []; productions = []; diagnostics = [] }

abbrev pub idle_graph : Graph
idle_graph = record empty_graph { nodes = (alert_id, alert_node) ∷ [] }

pub idle_run : analyze removals idle_site (some idle_graph) true ≡ ([], none)
unfolding analyze check_consumers assess_changes assess_consumers assess impacted_consumers
    impacted_from entries all_nodes node_matches sort_by insert_by str_ltb codes_ltb has
    is_uncertain source_references has_unresolved consumer_before change_before
idle_run = refl

no_error : (analyze removals idle_site (some idle_graph) true).1 ≡ none
no_error = rw idle_run refl

default_accepted : validate_policy default_policy ≡ none
unfolding validate_policy valid_mode valid_impact_type valid_criticality check_rule check_rules
    rule_at lookup sort_by insert_by str_ltb codes_ltb
default_accepted = refl

pub idle_pass :
    (result same_text removals
      (analyze removals idle_site (some idle_graph) true).0
      []
      default_policy).status
    ≡ Status.pass
idle_pass = rw idle_run (
    (evaluate_pass_iff same_text removals [] [] default_policy).1
      ((default_accepted, (tt, tt)), refl, refl))
