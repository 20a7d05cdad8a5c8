-- ===== src/Examples/Graphs.antt =====
-- The theorems on graphs and on impact analysis at concrete inputs.
use mathlib.Core.List.Memᴰ
use telemetry_change_guard.Graph.Growth.{IsClean}
use telemetry_change_guard.Graph.Identity.{IsPlain}
use telemetry_change_guard.Impact.Matching.{symbol_matches}
use telemetry_change_guard.Impact.Matching.Laws.{NamesAgree, symbol_matches_iff}
use telemetry_change_guard.Domain.{Symbol}
use telemetry_change_guard.Common.{
  sym, subst, codes, all_IsFree, ◌≡◌, refl, ◌↔◌, inl, inr, true, some, List, [], ◌∷◌, ok, lookup,
  assign, extend, has, join,
}
use telemetry_change_guard.Graph.{
  Node, Graph, Route, empty_graph, node, add_node, add_edge, insert_edge, same_identity, edge_key,
  symbol_node_id, consumer_node_id,
}
use telemetry_change_guard.Graph.Traverse.{impact_paths}
use telemetry_change_guard.Graph.Traverse.Fuel.{impact_paths_total}
use telemetry_change_guard.Graph.Traverse.Shortest.{IsShortestPaths, impact_paths-IsShortestPaths}
use telemetry_change_guard.Graph.Adding.{IsAddable, IsOutcome, add_node-IsOutcome}
use telemetry_change_guard.Graph.Invariant.{
  IsWellFormed, empty_graph-IsWellFormed, add_node-IsWellFormed, add_edge-IsWellFormed,
}
use telemetry_change_guard.Impact.Build.{
  build_graph, add_consumers, add_references, add_reference, add_symbol_node, add_productions,
}
use telemetry_change_guard.Impact.Build.Whole.{IsGraphOf, build_graph-IsGraphOf}
use telemetry_change_guard.Impact.Build.Loops.{edges_of}
use telemetry_change_guard.Impact.Build.Exact.{AreClean}
use telemetry_change_guard.Examples.{
  requests, site, site_graph, metric_id, alert_id, metric_node, alert_node, reading,
}

abbrev alert_alone : Graph
alert_alone = record empty_graph { nodes = (alert_id, alert_node) ∷ [] }

abbrev both_nodes : Graph
both_nodes = record empty_graph { nodes = (alert_id, alert_node) ∷ (metric_id, metric_node) ∷ [] }

impact_paths_total_example : (rs : List Route) × (impact_paths site_graph metric_id ≡ some rs)
impact_paths_total_example = impact_paths_total site_graph metric_id

impact_paths-IsShortestPaths_example :
    (rs : List Route) × (impact_paths site_graph metric_id ≡ some rs)
    × IsShortestPaths site_graph metric_id rs
unfolding node lookup
impact_paths-IsShortestPaths_example = impact_paths-IsShortestPaths site_graph metric_id refl

one_node : add_node empty_graph alert_node ≡ ok alert_alone
unfolding add_node node lookup assign
one_node = refl

alert_alone-IsWellFormed : IsWellFormed alert_alone
alert_alone-IsWellFormed =
    add_node-IsWellFormed empty_graph alert_node empty_graph-IsWellFormed one_node

-- The node of the alert under another name.
abbrev renamed_node : Node
renamed_node = record alert_node { name = "renamed" }

add_node-IsOutcome_example : IsOutcome alert_alone renamed_node (add_node alert_alone renamed_node)
add_node-IsOutcome_example = add_node-IsOutcome alert_alone renamed_node alert_alone-IsWellFormed

-- It is refused.
renamed_refused : ¬ IsAddable alert_alone renamed_node
unfolding add_node node lookup assign same_identity
renamed_refused = add_node-IsOutcome alert_alone renamed_node alert_alone-IsWellFormed

-- A second node is added.
metric_added : IsOutcome alert_alone metric_node (ok both_nodes)
unfolding add_node node lookup assign
metric_added = add_node-IsOutcome alert_alone metric_node alert_alone-IsWellFormed

two_nodes : add_node alert_alone metric_node ≡ ok both_nodes
unfolding add_node node lookup assign
two_nodes = refl

one_edge : add_edge both_nodes reading ≡ ok site_graph
unfolding add_edge insert_edge node lookup extend edge_key join has
one_edge = refl

add_edge-IsWellFormed_example : IsWellFormed site_graph
add_edge-IsWellFormed_example =
    add_edge-IsWellFormed both_nodes reading
      (add_node-IsWellFormed alert_alone metric_node alert_alone-IsWellFormed two_nodes) one_edge

pub built : build_graph site ≡ ok site_graph
unfolding build_graph add_consumers add_references add_reference add_symbol_node add_productions
    add_node node lookup assign add_edge insert_edge extend edge_key join has symbol_node_id
    consumer_node_id same_identity
built = refl

clean : AreClean (edges_of site)
unfolding symbol_node_id consumer_node_id join
clean e m = elim (Memᴰ.cases_cons m) [
  | inl same ↦ subst IsClean (sym same) (record {
    clean_from = all_IsFree 0 (codes metric_id) refl;
    clean_to = all_IsFree 0 (codes alert_id) refl;
  })
  | inr none' ↦ absurd (Memᴰ.not-nil none')
]

build_graph-IsGraphOf_example : IsGraphOf site site_graph
build_graph-IsGraphOf_example = build_graph-IsGraphOf site clean built

-- The same symbol, read twice.
abbrev requests_again : Symbol
requests_again = record requests { name = "requests" }

plain : IsPlain requests
plain = record {
  domain_plain = all_IsFree 58 (codes requests.domain) refl;
  kind_plain = all_IsFree 58 (codes requests.kind) refl;
}

-- A bucket series and its histogram.
abbrev bucket : Symbol
bucket = record requests { name = "requests_bucket" }

symbol_matches_iff_example : (symbol_matches bucket requests ≡ true) ↔ (
    (bucket.domain ≡ requests.domain) × (bucket.kind ≡ requests.kind) × NamesAgree bucket requests)
symbol_matches_iff_example = symbol_matches_iff bucket requests
