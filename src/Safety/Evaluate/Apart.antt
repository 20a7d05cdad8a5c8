-- ===== src/Safety/Evaluate/Apart.antt =====
-- internal/safety/evaluator.go: no two statuses are spelled alike.
use telemetry_change_guard.Common.{◌≢◌, eq_iff, arith}
use telemetry_change_guard.Safety.Status

pub pass-ne-warn : Status.pass ≢ Status.warn
pass-ne-warn = ground (arith, eq_iff Status.pass Status.warn)

pub pass-ne-block : Status.pass ≢ Status.block
pass-ne-block = ground (arith, eq_iff Status.pass Status.block)

pub pass-ne-incomplete : Status.pass ≢ Status.incomplete
pass-ne-incomplete = ground (arith, eq_iff Status.pass Status.incomplete)

pub pass-ne-error : Status.pass ≢ Status.error
pass-ne-error = ground (arith, eq_iff Status.pass Status.error)

pub warn-ne-block : Status.warn ≢ Status.block
warn-ne-block = ground (arith, eq_iff Status.warn Status.block)

pub warn-ne-incomplete : Status.warn ≢ Status.incomplete
warn-ne-incomplete = ground (arith, eq_iff Status.warn Status.incomplete)

pub warn-ne-error : Status.warn ≢ Status.error
warn-ne-error = ground (arith, eq_iff Status.warn Status.error)

pub block-ne-incomplete : Status.block ≢ Status.incomplete
block-ne-incomplete = ground (arith, eq_iff Status.block Status.incomplete)

pub block-ne-error : Status.block ≢ Status.error
block-ne-error = ground (arith, eq_iff Status.block Status.error)

pub incomplete-ne-error : Status.incomplete ≢ Status.error
incomplete-ne-error = ground (arith, eq_iff Status.incomplete Status.error)

pub ruleset statuses_apart = (
  pass-ne-warn, pass-ne-block, pass-ne-incomplete, pass-ne-error, warn-ne-block, warn-ne-incomplete,
  warn-ne-error, block-ne-incomplete, block-ne-error, incomplete-ne-error,
)
