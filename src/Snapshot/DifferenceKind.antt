-- ===== src/Snapshot/DifferenceKind.antt =====
-- internal/snapshot/snapshot.go: the kinds of differences.
use telemetry_change_guard.Common.{String}

abbrev pub metric_added : String
metric_added = "metric_added"

abbrev pub metric_removed : String
metric_removed = "metric_removed"

abbrev pub label_added : String
label_added = "label_added"

abbrev pub label_removed : String
label_removed = "label_removed"

abbrev pub metric_type_changed : String
metric_type_changed = "metric_type_changed"

abbrev pub metric_unit_changed : String
metric_unit_changed = "metric_unit_changed"

abbrev pub metric_metadata_unavailable : String
metric_metadata_unavailable = "metric_metadata_unavailable"
