-- ===== src/Safety/Evaluate.antt =====
-- internal/safety/evaluator.go: `Evaluate` and what it is made of.
pub mod Apart
pub mod Orderless
pub mod Validation
pub mod Verdict
pub mod Statuses
pub mod Keeps
use telemetry_change_guard.Common.{
  ℕ, String, Bool, true, false, not, ◌&&◌, ◌||◌, Option, none, some, List, [], ◌∷◌, ◌==◌, map, any,
  if◌then◌else◌, ltb, nat_beq, str_ltb, sort_by, has, join, is_empty, Result, ok, err,
}
use telemetry_change_guard.Domain.{Change, ChangeSet, Diagnostic}
use telemetry_change_guard.Impact.{ImpactError}
use telemetry_change_guard.Impact.Findings.{Finding, type_for_consumer}
use telemetry_change_guard.Impact.Matching.{text_order}
use telemetry_change_guard.Safety.Action
use telemetry_change_guard.Safety.Status
use telemetry_change_guard.Safety.Policy.{
  Policy, Decision, PolicyError, validate_policy, valid_impact_type, valid_criticality, decide,
}

pub data FindingError : Type 0 where
  missing_ids unmatched_criticality : FindingError
  unsupported_impact unsupported_criticality : String → FindingError
  unmapped : ImpactError → FindingError
  wrong_impact duplicate : String → String → String → FindingError

pub data SafetyError : Type 0 where
  policy : PolicyError → SafetyError
  finding : FindingError → SafetyError

-- `Errors` holds the error's text; `E` is the type of errors.
pub record SafetyResult (E : Type 0) : Type 0 where
  pub change_set : ChangeSet
  pub status : String
  pub findings : List Finding
  pub decisions : List Decision
  pub diagnostics : List Diagnostic
  pub errors : List E

unfoldable pub finding_before : Finding → Finding → Bool
finding_before a b =
    text_order a.change.id b.change.id
      (text_order a.consumer.id b.consumer.id (str_ltb a.impact b.impact))

unfoldable pub sort_findings : List Finding → List Finding
unfolding finding_before
sort_findings fs = sort_by finding_before fs

unfoldable pub diagnostic_before : Diagnostic → Diagnostic → Bool
diagnostic_before a b = text_order a.adapter b.adapter (
    text_order a.source.file b.source.file (
      if not (nat_beq a.source.line b.source.line)
      then ltb a.source.line b.source.line
      else if not (nat_beq a.source.column b.source.column)
      then ltb a.source.column b.source.column
      else text_order a.source.url b.source.url (
          text_order a.source.repo b.source.repo
            (text_order a.message b.message (not a.required && b.required)))))

unfoldable pub sort_diagnostics : List Diagnostic → List Diagnostic
unfolding diagnostic_before
sort_diagnostics ds = sort_by diagnostic_before ds

unfoldable pub finding_key : Finding → String
finding_key f = join "\0" (f.change.id ∷ f.consumer.id ∷ f.impact ∷ [])

-- The tests of one finding before the test for duplicates.
unfoldable pub check_finding : Finding → Option FindingError
check_finding f =
    if f.change.id == "" || f.consumer.id == ""
    then some missing_ids
    else if not (valid_impact_type f.impact)
    then some (unsupported_impact f.impact)
    else elim (type_for_consumer f.consumer.kind) [
      | err e ↦ some (unmapped e)
      | ok expected ↦
          if not (expected == f.impact)
          then some (wrong_impact f.consumer.kind expected f.impact)
          else if not (f.consumer.criticality == f.criticality)
          then some unmatched_criticality
          else if not (valid_criticality f.criticality) && not (f.criticality == "" && f.uncertain)
          then some (unsupported_criticality f.criticality)
          else none
    ]

unfoldable pub check_findings : List String → List Finding → Option FindingError
check_findings seen [] = none
check_findings seen (f ∷ fs) =
    let rest = check_findings (finding_key f ∷ seen) fs in
    elim (check_finding f) [
      | some e ↦ some e
      | none ↦
          if has (finding_key f) seen
          then some (duplicate f.change.id f.consumer.id f.impact)
          else rest
    ]

unfoldable pub validate_findings : List Finding → Option FindingError
validate_findings fs = check_findings [] fs

unfoldable pub aggregate_status : List Finding → List Decision → List Diagnostic → String
aggregate_status findings decisions diagnostics =
    if any (λ d. d.required) diagnostics
    then Status.incomplete
    else if any (λ f. f.uncertain) findings
    then Status.incomplete
    else if any (λ d. d.effective_action == Action.block) decisions
    then Status.block
    else if not (is_empty findings) || not (is_empty diagnostics)
    then Status.warn
    else Status.pass

unfoldable pub exit_code : String → ℕ
exit_code status =
    if status == Status.pass || status == Status.warn
    then 0
    else if status == Status.block
    then 2
    else if status == Status.incomplete
    then 3
    else 1

-- `ErrorResult`
unfoldable pub error_result :
    {E : Type 0} → ChangeSet → List Finding → List Diagnostic → Option E → SafetyResult E
error_result change_set findings diagnostics e = record {
  change_set = change_set;
  status = Status.error;
  findings = sort_findings findings;
  decisions = [];
  diagnostics = sort_diagnostics diagnostics;
  errors = elim e [ none ↦ [] | some e' ↦ e' ∷ [] ];
}

-- The result and, where the result has the status ERROR, the error.
unfoldable pub evaluate :
    (String → String)
    → ChangeSet
    → List Finding
    → List Diagnostic
    → Policy
    → SafetyResult SafetyError × Option SafetyError
evaluate lower change_set findings diagnostics p =
    let sorted = sort_findings findings in
    let diags = sort_diagnostics diagnostics in
    let failed = λ (e : SafetyError). error_result change_set findings diagnostics (some e) in
    elim (validate_policy p) [
      | some e ↦ (failed (policy e), some (policy e))
      | none ↦ elim (validate_findings sorted) [
        | some e ↦ (failed (finding e), some (finding e))
        | none ↦
            let decisions = map (decide lower p) sorted in
            (
              record {
                change_set = change_set;
                status = aggregate_status sorted decisions diags;
                findings = sorted;
                decisions = decisions;
                diagnostics = diags;
                errors = [];
              },
              none,
            )
      ]
    ]
