-- ===== src/Examples/Reporting.antt =====
-- The theorems on findings at concrete inputs.
use telemetry_change_guard.Common.{
  ◌≡◌, refl, ◌↔◌, inl, true, none, some, [], ◌∷◌, Memᴰ, entries, extend, sort_by, insert_by,
  str_ltb, codes_ltb, lookup, has,
}
use mathlib.Core.List.{flatten}
use telemetry_change_guard.Domain.{Change, Consumer}
use telemetry_change_guard.Graph.{Route, all_nodes, sort_edges, edge_before, node, out_edges}
use telemetry_change_guard.Impact.Findings.{
  Finding, analyze, impacted_consumers, check_consumers, assess_changes, assess_consumers, assess,
  node_matches, paths_from, impacted_from, record_paths, record_path, record_for, type_for_consumer,
  is_uncertain, consumer_before, change_before,
}
use telemetry_change_guard.Impact.Matching.{
  source_references, unresolved_reference_applies, concerns, destination_matches, has_unresolved,
  reference_before, symbol_matches, metric_family_matches,
}
use telemetry_change_guard.Graph.Traverse.{
  impact_paths, traverse, expand, scan, offer, visit, extend_route,
}
use telemetry_change_guard.Impact.Findings.Impacted.{impacted_consumers_iff, IsFrom}
use telemetry_change_guard.Impact.Findings.Analyzed.{IsAffected, IsFinding, analyze_iff}
use telemetry_change_guard.Impact.Findings.Reports.{analyze_reports}
use telemetry_change_guard.Examples.{
  requests, alert, removal, removals, site, site_graph, metric_id, alert_id,
}

abbrev to_alert : Route
to_alert = record { nodes = metric_id ∷ alert_id ∷ []; edges = "references" ∷ [] }

impacted_consumers_iff_example :
    Memᴰ to_alert (entries "alert" (impacted_consumers (some site_graph) requests true))
    ↔ IsFrom site_graph true "alert" to_alert requests (all_nodes site_graph)
impacted_consumers_iff_example = impacted_consumers_iff site_graph true "alert" to_alert requests

no_error : (analyze removals site (some site_graph) true).1 ≡ none
unfolding analyze check_consumers assess_changes assess_consumers assess impacted_consumers entries
    extend all_nodes sort_by insert_by str_ltb codes_ltb node_matches symbol_matches
    metric_family_matches paths_from impact_paths traverse expand scan offer visit extend_route
    impacted_from record_paths record_path record_for sort_edges edge_before node lookup out_edges
    has flatten type_for_consumer source_references unresolved_reference_applies concerns
    destination_matches has_unresolved is_uncertain reference_before consumer_before change_before
no_error = refl

is_affected : IsAffected site_graph true site.references removal alert
unfolding impacted_consumers entries extend all_nodes sort_by insert_by str_ltb codes_ltb
    node_matches symbol_matches metric_family_matches paths_from impact_paths traverse expand scan
    offer visit extend_route impacted_from record_paths record_path record_for sort_edges
    edge_before node lookup out_edges has flatten
is_affected = inl refl

abbrev the_finding : Finding
the_finding =
    (analyze_reports removals site site_graph true removal alert no_error (Memᴰ.head refl)
      (Memᴰ.head refl) is_affected).0

analyze_iff_example : Memᴰ the_finding (analyze removals site (some site_graph) true).0 ↔ (
    (change : Change) × (c : Consumer) × Memᴰ change removals.changes
    × Memᴰ c site.consumers
    × IsFinding site_graph true site.references change c the_finding)
analyze_iff_example = analyze_iff removals site site_graph true the_finding no_error

analyze_reports_example :
    (f : Finding) × Memᴰ f (analyze removals site (some site_graph) true).0
    × IsFinding site_graph true site.references removal alert f
analyze_reports_example =
    analyze_reports removals site site_graph true removal alert no_error (Memᴰ.head refl)
      (Memᴰ.head refl) is_affected
