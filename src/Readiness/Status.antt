-- ===== src/Readiness/Status.antt =====
-- internal/readiness/evaluator.go: the statuses of a migration.
use telemetry_change_guard.Common.{String}

abbrev pub ready : String
ready = "READY"

abbrev pub blocked : String
blocked = "BLOCKED"

abbrev pub incomplete : String
incomplete = "INCOMPLETE"

abbrev pub error : String
error = "ERROR"
