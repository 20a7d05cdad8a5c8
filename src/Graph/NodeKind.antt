-- ===== src/Graph/NodeKind.antt =====
-- internal/graph/graph.go: the kinds of nodes.
use telemetry_change_guard.Common.{String}

abbrev pub symbol : String
symbol = "telemetry_symbol"

abbrev pub consumer : String
consumer = "consumer"
