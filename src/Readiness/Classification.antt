-- ===== src/Readiness/Classification.antt =====
-- internal/readiness/evaluator.go: the states of a consumer for a change.
use telemetry_change_guard.Common.{String}

abbrev pub legacy_only : String
legacy_only = "LEGACY_ONLY"

abbrev pub migrated : String
migrated = "MIGRATED"

abbrev pub dual : String
dual = "DUAL"

abbrev pub unaffected : String
unaffected = "UNAFFECTED"

abbrev pub uncertain : String
uncertain = "UNCERTAIN"
