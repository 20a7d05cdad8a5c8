-- ===== src/Impact/Findings.antt =====
-- internal/impact/finding.go: the findings of a set of changes. Analyze's nil graph is `none`.
pub mod Impacted
pub mod Analyzed
pub mod Reports
use telemetry_change_guard.Common.{
  ℕ, String, Bool, true, false, not, ◌&&◌, ◌||◌, Option, none, some, List, [], ◌∷◌, ◌++◌, ◌==◌,
  if◌then◌else◌, ltb, length, str_ltb, sort_by, has, entries, extend, Result, ok, err, is_empty,
  all,
}
use telemetry_change_guard.Domain.{
  SourceLocation, Symbol, Change, ChangeSet, Consumer, Reference, Discovery,
}
use telemetry_change_guard.Domain.ConsumerKind
use telemetry_change_guard.Graph.{Graph, Node, Route, node, all_nodes}
use telemetry_change_guard.Graph.NodeKind
use telemetry_change_guard.Graph.Traverse.{impact_paths}
use telemetry_change_guard.Graph.Traverse.Walks.{end_of}
use telemetry_change_guard.Impact.{
  ImpactError, graph_required, consumer_id_required, duplicate_consumer, unmapped_kind,
}
use telemetry_change_guard.Impact.Kind
use telemetry_change_guard.Impact.Matching.{symbol_matches, source_references, has_unresolved}

-- `impact.Consumer`
pub record AffectedConsumer : Type 0 where
  pub id : String
  pub kind : String
  pub name : String
  pub criticality : String
  pub source : SourceLocation

pub record Finding : Type 0 where
  pub change : Change
  pub consumer : AffectedConsumer
  pub impact : String
  pub criticality : String
  pub uncertain : Bool
  pub references : List Reference
  pub paths : List Route

unfoldable pub type_for_consumer : String → Result ImpactError String
type_for_consumer kind =
    if kind == ConsumerKind.dashboard
      || kind == ConsumerKind.dashboard_panel
      || kind == ConsumerKind.query
      || kind == ConsumerKind.runbook
    then ok Kind.visibility_loss
    else if kind == ConsumerKind.alert_rule
    then ok Kind.alerting_risk
    else if kind == ConsumerKind.slo
    then ok Kind.slo_risk
    else if kind == ConsumerKind.autoscaler
    then ok Kind.scaling_risk
    else if kind == ConsumerKind.deployment_gate
    then ok Kind.deployment_gate_risk
    else if kind == ConsumerKind.automation
    then ok Kind.automation_risk
    else if kind == ConsumerKind.recording_rule
        || kind == ConsumerKind.collector
        || kind == ConsumerKind.source_code
    then ok Kind.semantic_risk
    else err (unmapped_kind kind)

-- `target.ImpactPaths(id)`; the traversal never runs out of fuel (Graph/Traverse/Fuel).
unfoldable pub paths_from : Graph → String → List Route
paths_from g id = elim (impact_paths g id) [ some rs ↦ rs | none ↦ [] ]

abbrev pub PathMap : Type 0
PathMap = List (String × List Route)

-- The body of the inner loop of `ImpactedConsumers`: `end` is the node where the path ends.
unfoldable pub record_for : Option Consumer → Route → PathMap → PathMap
record_for none path m = m
record_for (some consumer) path m = extend consumer.id path m

unfoldable pub record_path : Option Node → Route → PathMap → PathMap
unfolding record_for
record_path none path m = m
record_path (some end) path m = record_for end.consumer path m

unfoldable pub record_paths : Graph → Bool → List Route → PathMap → PathMap
unfolding record_path
record_paths g transitive [] m = m
record_paths g transitive (path ∷ paths) m = record_paths g transitive paths (
    if not transitive && ltb 1 (length path.edges)
    then m
    else record_path (node g (end_of path)) path m)

-- `node.Kind == NodeKindSymbol && node.Symbol != nil && SymbolMatches(...)`
unfoldable pub node_matches : Symbol → Node → Bool
node_matches changed n = elim n.symbol [
  | none ↦ false
  | some symbol ↦ n.kind == NodeKind.symbol && symbol_matches symbol changed
]

unfoldable pub impacted_from : Graph → Symbol → Bool → List Node → PathMap → PathMap
unfolding record_paths
impacted_from g changed transitive [] m = m
impacted_from g changed transitive (n ∷ ns) m =
    impacted_from g changed transitive ns
      (if node_matches changed n then record_paths g transitive (paths_from g n.id) m else m)

unfoldable pub impacted_consumers : Option Graph → Symbol → Bool → PathMap
unfolding impacted_from
impacted_consumers none changed transitive = []
impacted_consumers (some g) changed transitive = impacted_from g changed transitive (all_nodes g) []

unfoldable pub consumer_before : Consumer → Consumer → Bool
consumer_before a b = str_ltb a.id b.id

unfoldable pub change_before : Change → Change → Bool
change_before a b = str_ltb a.id b.id

-- The loop over `consumers` that fills `seenConsumers`.
unfoldable pub check_consumers : List String → List Consumer → Option ImpactError
check_consumers seen [] = none
check_consumers seen (c ∷ cs) =
    let rest = check_consumers (c.id ∷ seen) cs in
    if c.id == ""
    then some consumer_id_required
    else if has c.id seen
    then some (duplicate_consumer c.id)
    else rest

unfoldable pub is_uncertain : Consumer → List Reference → Bool
is_uncertain c references = c.unresolved || c.criticality == "" || has_unresolved references

abbrev pub finding : Change → Consumer → String → List Reference → List Route → Finding
finding change c impact references paths = record {
  change = change;
  consumer = record {
    id = c.id;
    kind = c.kind;
    name = c.name;
    criticality = c.criticality;
    source = c.source;
  };
  impact = impact;
  criticality = c.criticality;
  uncertain = is_uncertain c references;
  references = references;
  paths = paths;
}

-- The findings so far and the error that ended the loop, if one did.
abbrev pub Findings : Type 0
Findings = List Finding × Option ImpactError

-- What one turn of the inner loop does: nothing, a finding or an error.
pub data Turn : Type 0 where
  skip : Turn
  add : Finding → Turn
  stop : ImpactError → Turn

unfoldable pub assess : List Reference → Change → PathMap → Consumer → Turn
assess references change impacted c =
    let paths = entries c.id impacted in
    let refs = source_references references c.id change in
    if is_empty paths && not (is_uncertain c refs) then skip else elim (type_for_consumer c.kind) [
      | ok impact ↦ add (finding change c impact refs paths)
      | err e ↦ stop e
    ]

unfoldable pub assess_consumers : List Reference → Change → PathMap → List Consumer → Findings
assess_consumers references change impacted [] = ([], none)
assess_consumers references change impacted (c ∷ cs) =
    let rest = assess_consumers references change impacted cs in
    elim (assess references change impacted c) [
      | skip ↦ rest
      | add f ↦ (f ∷ rest.0, rest.1)
      | stop e ↦ ([], some e)
    ]

-- The outer loop; an error of the inner loop ends it.
unfoldable pub assess_changes :
    Graph → Bool → List Reference → List Consumer → List Change → Findings
assess_changes g transitive references consumers [] = ([], none)
assess_changes g transitive references consumers (change ∷ changes) =
    let impacted = impacted_consumers (some g) change.from transitive in
    let here = assess_consumers references change impacted consumers in
    let rest = assess_changes g transitive references consumers changes in
    elim here.1 [ none ↦ (here.0 ++ rest.0, rest.1) | some e ↦ here ]

unfoldable pub analyze : ChangeSet → Discovery → Option Graph → Bool → Findings
analyze change_set discovery none transitive = ([], some graph_required)
analyze change_set discovery (some g) transitive =
    let consumers = sort_by consumer_before discovery.consumers in
    let changes = sort_by change_before change_set.changes in
    elim (check_consumers [] consumers) [
      | some e ↦ ([], some e)
      | none ↦ assess_changes g transitive discovery.references consumers changes
    ]
