-- ===== src/Impact.antt =====
-- internal/impact: the graph of a discovery (build.go) and the findings of a set of changes
-- (finding.go). Copies of values, which Go makes so that results share no memory, are the values.
pub mod Kind
pub mod Matching
pub mod Build
pub mod Findings
use telemetry_change_guard.Common.{String}
use telemetry_change_guard.Graph.{GraphError}

pub data ImpactError : Type 0 where
  add_consumer add_symbol add_reference_edge add_production_edge : String → GraphError → ImpactError
  undiscovered_reference undiscovered_production : String → ImpactError
  graph_required consumer_id_required : ImpactError
  duplicate_consumer unmapped_kind : String → ImpactError
