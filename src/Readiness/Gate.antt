-- ===== src/Readiness/Gate.antt =====
-- internal/readiness/evaluator.go: the statuses of a change and of a migration. `lower` stands for
-- `strings.ToLower`.
pub mod Laws
use telemetry_change_guard.Common.{
  ℕ, String, Bool, true, false, ◌&&◌, List, ◌==◌, if◌then◌else◌, leb, any,
}
use telemetry_change_guard.Domain.{Change, Consumer, Reference, Diagnostic}
use telemetry_change_guard.Domain.Criticality
use telemetry_change_guard.Graph.{Route}
use telemetry_change_guard.Readiness.Classification
use telemetry_change_guard.Readiness.Status

-- `readiness.Policy`
pub record Gates : Type 0 where
  pub fail_on_critical_legacy_consumer : Bool
  pub fail_on_critical_unknown : Bool
  pub minimum_blocking_criticality : String
  pub include_transitive : Bool

pub record ConsumerResult : Type 0 where
  pub consumer : Consumer
  pub classification : String
  pub references : List Reference
  pub paths : List Route

pub record ChangeResult : Type 0 where
  pub change : Change
  pub status : String
  pub consumers : List ConsumerResult

unfoldable pub has_required_diagnostic : List Diagnostic → Bool
has_required_diagnostic ds = any (λ d. d.required) ds

module _ (lower : String → String) where
  unfoldable pub criticality_rank : String → ℕ
  criticality_rank value =
      if lower value == Criticality.critical
      then 4
      else if lower value == Criticality.high
      then 3
      else if lower value == Criticality.medium
      then 2
      else if lower value == Criticality.low
      then 1
      else 2

  unfoldable pub is_blocking : Gates → ConsumerResult → Bool
  is_blocking p r =
      r.classification == Classification.legacy_only
      && p.fail_on_critical_legacy_consumer
      && leb (criticality_rank p.minimum_blocking_criticality)
          (criticality_rank r.consumer.criticality)

  unfoldable pub is_open : Gates → ConsumerResult → Bool
  is_open p r =
      r.classification == Classification.uncertain
      && p.fail_on_critical_unknown
      && leb (criticality_rank Criticality.critical) (criticality_rank r.consumer.criticality)

  unfoldable pub status_for_consumers : List ConsumerResult → List Diagnostic → Gates → String
  status_for_consumers results ds p =
      if any (is_blocking p) results
      then Status.blocked
      else if has_required_diagnostic ds
      then Status.incomplete
      else if any (is_open p) results
      then Status.incomplete
      else Status.ready

unfoldable pub status_for_changes : List ChangeResult → List Diagnostic → String
status_for_changes changes ds =
    if any (λ c. c.status == Status.blocked) changes
    then Status.blocked
    else if has_required_diagnostic ds
    then Status.incomplete
    else if any (λ c. c.status == Status.incomplete) changes
    then Status.incomplete
    else Status.ready
