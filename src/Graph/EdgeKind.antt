-- ===== src/Graph/EdgeKind.antt =====
-- internal/graph/graph.go: the kinds of edges.
use telemetry_change_guard.Common.{String}

abbrev pub references : String
references = "references"

abbrev pub produces : String
produces = "produces"

abbrev pub contains : String
contains = "contains"

abbrev pub derived_from : String
derived_from = "derived_from"

abbrev pub generated_by : String
generated_by = "generated_by"

abbrev pub owned_by : String
owned_by = "owned_by"
