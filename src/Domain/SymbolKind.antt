-- ===== src/Domain/SymbolKind.antt =====
-- internal/domain/symbol.go: the kinds of telemetry symbols.
use telemetry_change_guard.Common.{String}

abbrev pub metric : String
metric = "metric"

abbrev pub label : String
label = "label"

abbrev pub span_attribute : String
span_attribute = "span_attribute"

abbrev pub resource_attribute : String
resource_attribute = "resource_attribute"
