-- ===== src/Readiness/Apart.antt =====
-- internal/readiness/evaluator.go: no two classifications and no two statuses are spelled alike.
use telemetry_change_guard.Common.{◌≢◌, eq_iff, arith}
use telemetry_change_guard.Readiness.Classification
use telemetry_change_guard.Readiness.Status

pub legacy_only-ne-migrated : Classification.legacy_only ≢ Classification.migrated
legacy_only-ne-migrated = ground (arith, eq_iff Classification.legacy_only Classification.migrated)

pub legacy_only-ne-dual : Classification.legacy_only ≢ Classification.dual
legacy_only-ne-dual = ground (arith, eq_iff Classification.legacy_only Classification.dual)

pub legacy_only-ne-unaffected : Classification.legacy_only ≢ Classification.unaffected
legacy_only-ne-unaffected =
    ground (arith, eq_iff Classification.legacy_only Classification.unaffected)

pub legacy_only-ne-uncertain : Classification.legacy_only ≢ Classification.uncertain
legacy_only-ne-uncertain =
    ground (arith, eq_iff Classification.legacy_only Classification.uncertain)

pub migrated-ne-dual : Classification.migrated ≢ Classification.dual
migrated-ne-dual = ground (arith, eq_iff Classification.migrated Classification.dual)

pub migrated-ne-unaffected : Classification.migrated ≢ Classification.unaffected
migrated-ne-unaffected = ground (arith, eq_iff Classification.migrated Classification.unaffected)

pub migrated-ne-uncertain : Classification.migrated ≢ Classification.uncertain
migrated-ne-uncertain = ground (arith, eq_iff Classification.migrated Classification.uncertain)

pub dual-ne-unaffected : Classification.dual ≢ Classification.unaffected
dual-ne-unaffected = ground (arith, eq_iff Classification.dual Classification.unaffected)

pub dual-ne-uncertain : Classification.dual ≢ Classification.uncertain
dual-ne-uncertain = ground (arith, eq_iff Classification.dual Classification.uncertain)

pub unaffected-ne-uncertain : Classification.unaffected ≢ Classification.uncertain
unaffected-ne-uncertain = ground (arith, eq_iff Classification.unaffected Classification.uncertain)

pub ruleset classes_apart = (
  legacy_only-ne-migrated, legacy_only-ne-dual, legacy_only-ne-unaffected, legacy_only-ne-uncertain,
  migrated-ne-dual, migrated-ne-unaffected, migrated-ne-uncertain, dual-ne-unaffected,
  dual-ne-uncertain, unaffected-ne-uncertain,
)

pub ready-ne-blocked : Status.ready ≢ Status.blocked
ready-ne-blocked = ground (arith, eq_iff Status.ready Status.blocked)

pub ready-ne-incomplete : Status.ready ≢ Status.incomplete
ready-ne-incomplete = ground (arith, eq_iff Status.ready Status.incomplete)

pub blocked-ne-incomplete : Status.blocked ≢ Status.incomplete
blocked-ne-incomplete = ground (arith, eq_iff Status.blocked Status.incomplete)

pub ruleset statuses_apart = (ready-ne-blocked, ready-ne-incomplete, blocked-ne-incomplete)
