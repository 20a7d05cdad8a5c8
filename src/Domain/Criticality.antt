-- ===== src/Domain/Criticality.antt =====
-- internal/domain/consumer.go: the levels of criticality.
use telemetry_change_guard.Common.{String}

abbrev pub low : String
low = "low"

abbrev pub medium : String
medium = "medium"

abbrev pub high : String
high = "high"

abbrev pub critical : String
critical = "critical"
