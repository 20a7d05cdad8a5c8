-- ===== src/Domain/Signal.antt =====
-- internal/domain/symbol.go: the telemetry systems.
use telemetry_change_guard.Common.{String}

abbrev pub prometheus : String
prometheus = "prometheus"

abbrev pub opentelemetry : String
opentelemetry = "opentelemetry"

abbrev pub tempo : String
tempo = "tempo"
