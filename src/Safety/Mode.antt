-- ===== src/Safety/Mode.antt =====
-- internal/safety/evaluator.go: the rollout modes.
use telemetry_change_guard.Common.{String}

abbrev pub audit : String
audit = "audit"

abbrev pub warn : String
warn = "warn"

abbrev pub enforce : String
enforce = "enforce"
