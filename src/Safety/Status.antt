-- ===== src/Safety/Status.antt =====
-- internal/safety/evaluator.go: the statuses of a safety result.
use telemetry_change_guard.Common.{String}

abbrev pub pass : String
pass = "PASS"

abbrev pub warn : String
warn = "WARN"

abbrev pub block : String
block = "BLOCK"

abbrev pub incomplete : String
incomplete = "INCOMPLETE"

abbrev pub error : String
error = "ERROR"
