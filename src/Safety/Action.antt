-- ===== src/Safety/Action.antt =====
-- internal/safety/evaluator.go: the policy actions.
use telemetry_change_guard.Common.{String}

abbrev pub warn : String
warn = "warn"

abbrev pub block : String
block = "block"
