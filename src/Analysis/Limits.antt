-- ===== src/Analysis/Limits.antt =====
-- internal/analysis/engine.go: the limits of an execution, and the mappings that changes of trace
-- attributes need. `quote` is the verb %q.
use telemetry_change_guard.Common.{
  ℕ, String, Bool, not, ◌||◌, Option, none, some, List, [], ◌∷◌, ◌++◌, ◌==◌, map, if◌then◌else◌,
  ltb, length, any, has, join, is_empty,
}
use telemetry_change_guard.Domain.{Symbol, Change, ChangeSet, Diagnostic, Discovery}
use telemetry_change_guard.Domain.Signal
use telemetry_change_guard.Domain.SymbolKind
use telemetry_change_guard.Graph.{Graph, all_nodes, all_edges}
use telemetry_change_guard.Analysis.{ExecutionPolicy, Configuration, AnalysisError, over_limit}

-- The loop over the limits; each is a label, a count and a maximum.
unfoldable pub check_limits : List (String × ℕ × ℕ) → Option AnalysisError
check_limits [] = none
check_limits ((label, count, max) ∷ limits) =
    let rest = check_limits limits in
    if ltb max count then some (over_limit label count max) else rest

unfoldable pub validate_discovery_limits : ExecutionPolicy → Discovery → Option AnalysisError
validate_discovery_limits p d =
    if p.repository_root == ""
    then none
    else check_limits (
        ("consumer", length d.consumers, p.max_consumers)
        ∷ ("reference", length d.references, p.max_references)
        ∷ ("production", length d.productions, p.max_productions)
        ∷ [])

unfoldable pub validate_graph_limits : ExecutionPolicy → Graph → Option AnalysisError
validate_graph_limits p g =
    if p.repository_root == ""
    then none
    else if ltb p.max_graph_nodes (length (all_nodes g))
    then some (over_limit "graph node" (length (all_nodes g)) p.max_graph_nodes)
    else if ltb p.max_graph_edges (length (all_edges g))
    then some (over_limit "graph edge" (length (all_edges g)) p.max_graph_edges)
    else none

unfoldable pub is_trace_attribute : String → Bool
is_trace_attribute kind = kind == SymbolKind.span_attribute || kind == SymbolKind.resource_attribute

unfoldable pub symbol_scope : String → String
symbol_scope kind = if kind == SymbolKind.resource_attribute then "resource" else "span"

unfoldable pub change_symbols : Change → List Symbol
change_symbols c = c.from ∷ elim c.to [ none ↦ [] | some to ↦ to ∷ [] ]

-- The key of the set `available`; the separator is the NUL character.
unfoldable pub mapping_key : String → String → String
mapping_key scope name = join "\0" (scope ∷ name ∷ [])

module _ (quote : String → String) (available : List String) (required : Bool) where
  unfoldable pub symbol_diagnostics : Change → List Symbol → List Diagnostic
  symbol_diagnostics c [] = []
  symbol_diagnostics c (s ∷ symbols) =
      let scope = symbol_scope c.from.kind in
      let rest = symbol_diagnostics c symbols in
      if has (mapping_key scope s.name) available
      then rest
      else record {
        adapter = "tempo_mapping";
        source = record {
          file = "mappings.traceAttributes";
          line = 0;
          column = 0;
          url = "";
          repo = "";
        };
        message = join "" (
            "change "
            ∷ quote c.id
            ∷ " requires an explicit "
            ∷ scope
            ∷ " mapping for OpenTelemetry attribute "
            ∷ quote s.name
            ∷ []);
        required = required;
      }
        ∷ rest

  unfoldable pub change_diagnostics : List Change → List Diagnostic
  change_diagnostics [] = []
  change_diagnostics (c ∷ changes) =
      let rest = change_diagnostics changes in
      if not (c.domain == Signal.opentelemetry) || not (is_trace_attribute c.from.kind)
      then rest
      else symbol_diagnostics c (change_symbols c) ++ rest

unfoldable pub trace_mapping_diagnostics :
    (String → String) → Configuration → ChangeSet → List Diagnostic
trace_mapping_diagnostics quote config s =
    if is_empty config.tempo_queries
    then []
    else change_diagnostics quote
        (map (λ m. mapping_key m.scope m.open_telemetry) config.trace_attributes)
        (any (λ q. q.required) config.tempo_queries) s.changes
