-- ===== src/Domain/ChangeKind.antt =====
-- internal/domain/change.go: the kinds of changes.
use telemetry_change_guard.Common.{String}

abbrev pub metric_rename : String
metric_rename = "metric_rename"

abbrev pub metric_remove : String
metric_remove = "metric_remove"

abbrev pub label_rename : String
label_rename = "label_rename"

abbrev pub label_remove : String
label_remove = "label_remove"

abbrev pub span_attribute_rename : String
span_attribute_rename = "span_attribute_rename"

abbrev pub span_attribute_remove : String
span_attribute_remove = "span_attribute_remove"

abbrev pub resource_attribute_rename : String
resource_attribute_rename = "resource_attribute_rename"

abbrev pub resource_attribute_remove : String
resource_attribute_remove = "resource_attribute_remove"
