-- ===== src/Examples.antt =====
-- Inputs on which the theorems are tried: a metric that an alert reads, and the removal of the metric.
pub mod Graphs
pub mod Reporting
pub mod Safe
pub mod Guaranteed
pub mod Ready
pub mod Documents
pub mod Snapshots
pub mod Manifests
pub mod Owners
pub mod Pipelines
pub mod Evidences
use telemetry_change_guard.Common.{String, Option, none, some, List, [], ◌∷◌, true, false}
use telemetry_change_guard.Domain.{
  SourceLocation, Symbol, Change, ChangeSet, Migration, Consumer, Evidence, Reference, Discovery,
  change_set_api_version, change_set_kind, migration_api_version, migration_kind,
}
use telemetry_change_guard.Domain.Signal
use telemetry_change_guard.Domain.SymbolKind
use telemetry_change_guard.Domain.ChangeKind
use telemetry_change_guard.Domain.ConsumerKind
use telemetry_change_guard.Domain.Criticality
use telemetry_change_guard.Graph.{Graph, Node, Edge}
use telemetry_change_guard.Impact.Build.{consumer_node, symbol_node, reference_edge}

abbrev pub no_source : SourceLocation
no_source = record { file = ""; line = 0; column = 0; url = ""; repo = "" }

abbrev pub requests : Symbol
requests = record {
  domain = Signal.prometheus;
  kind = SymbolKind.metric;
  name = "requests";
  parent = "";
}

abbrev pub alert : Consumer
alert = record {
  id = "alert";
  kind = ConsumerKind.alert_rule;
  name = "HighErrorRate";
  source = no_source;
  criticality = Criticality.high;
  owner = none;
  runtime = none;
  expression = "rate(requests[5m])";
  metadata = [];
  unresolved = false;
}

abbrev pub reads : Reference
reads = record {
  consumer_id = "alert";
  symbol = requests;
  evidence = record {
    method = "static";
    confidence = "high";
    source = no_source;
    expression = "";
    explanation = "";
  };
  usage = "";
  pattern = "";
  requires_resolution = false;
  resolution_scope = "";
}

abbrev pub removal : Change
removal = record {
  id = "drop";
  kind = ChangeKind.metric_remove;
  domain = Signal.prometheus;
  from = requests;
  to = none;
  metadata = [];
}

abbrev pub removals : ChangeSet
removals = record {
  api_version = change_set_api_version;
  kind = change_set_kind;
  name = "cleanup";
  description = "";
  changes = removal ∷ [];
}

abbrev pub plan : Migration
plan = record {
  api_version = migration_api_version;
  kind = migration_kind;
  name = "cleanup";
  description = "";
  changes = removal ∷ [];
}

abbrev pub site : Discovery
site = record {
  consumers = alert ∷ [];
  references = reads ∷ [];
  productions = [];
  diagnostics = [];
}

abbrev pub metric_id : String
metric_id = "symbol:prometheus:metric::requests"

abbrev pub alert_id : String
alert_id = "consumer:alert"

abbrev pub metric_node : Node
metric_node = record (symbol_node requests) { id = metric_id }

abbrev pub alert_node : Node
alert_node = record (consumer_node alert) { id = alert_id }

abbrev pub reading : Edge
reading = record (reference_edge reads) { from = metric_id; to = alert_id }

abbrev pub site_graph : Graph
site_graph = record {
  nodes = (alert_id, alert_node) ∷ (metric_id, metric_node) ∷ [];
  out = (metric_id, reading ∷ []) ∷ [];
  into = (alert_id, reading ∷ []) ∷ [];
  edges = "symbol:prometheus:metric::requests\0consumer:alert\0references" ∷ [];
}
