-- ===== src/Readiness/Evaluate.antt =====
-- internal/readiness/evaluator.go, `Evaluate`.
pub mod Results
pub mod Verdict
use telemetry_change_guard.Common.{
  ℕ, String, Bool, true, false, ◌||◌, Option, none, some, List, [], ◌∷◌, ◌++◌, ◌==◌, if◌then◌else◌,
  has, lookup, assign, entries, is_some, sort_by, Result, ok, err,
}
use telemetry_change_guard.Domain.{
  Change, Consumer, Reference, Diagnostic, Discovery, Migration, Symbol,
}
use telemetry_change_guard.Domain.Criticality
use telemetry_change_guard.Graph.{Graph}
use telemetry_change_guard.Impact.{ImpactError, graph_required}
use telemetry_change_guard.Impact.Findings.{
  PathMap, impacted_consumers, consumer_before, check_consumers,
}
use telemetry_change_guard.Readiness.Classify.{
  Summary, classify, worse_classification, class_of, has_unresolved_reference, references_for,
  summarize,
}
use telemetry_change_guard.Readiness.Gate.{
  Gates, ConsumerResult, ChangeResult, status_for_consumers, status_for_changes,
}

pub record ReadinessResult : Type 0 where
  pub migration : Migration
  pub summary : Summary
  pub changes : List ChangeResult
  pub diagnostics : List Diagnostic

abbrev pub Classes : Type 0
Classes = List (String × String)

-- The body of the inner loop, without the update of `global`.
unfoldable pub consumer_result :
    List Reference → Change → PathMap → PathMap → Consumer → ConsumerResult
consumer_result references change old new c = record {
  consumer = c;
  classification =
      classify change (is_some (lookup c.id old)) (is_some (lookup c.id new))
        (c.unresolved || has_unresolved_reference references c.id change);
  references = references_for references c.id change;
  paths = entries c.id old ++ entries c.id new;
}

-- `global[consumer.ID] = worseClassification(global[consumer.ID], classification)`
unfoldable pub record_class : ConsumerResult → Classes → Classes
record_class r m =
    assign r.consumer.id (worse_classification (class_of r.consumer.id m) r.classification) m

unfoldable pub consumer_results :
    List Reference
    → Change
    → PathMap
    → PathMap
    → List Consumer
    → Classes
    → List ConsumerResult × Classes
consumer_results references change old new [] m = ([], m)
consumer_results references change old new (c ∷ cs) m =
    let r = consumer_result references change old new c in
    let rest = consumer_results references change old new cs (record_class r m) in
    (r ∷ rest.0, rest.1)

-- `newImpact`
unfoldable pub destination_impact : Graph → Option Symbol → Bool → PathMap
destination_impact g none transitive = []
destination_impact g (some to) transitive = impacted_consumers (some g) to transitive

module _ (lower : String → String) (g : Graph) (discovery : Discovery) (p : Gates) where
  -- The body of the outer loop.
  unfoldable pub change_result : List Consumer → Change → Classes → ChangeResult × Classes
  change_result cs change m =
      let old = impacted_consumers (some g) change.from p.include_transitive in
      let new = destination_impact g change.to p.include_transitive in
      let (results, m') = consumer_results discovery.references change old new cs m in
      (
        record {
          change = change;
          status = status_for_consumers lower results discovery.diagnostics p;
          consumers = results;
        },
        m',
      )

  unfoldable pub change_results :
      List Consumer → List Change → Classes → List ChangeResult × Classes
  change_results cs [] m = ([], m)
  change_results cs (change ∷ changes) m =
      let (r, m') = change_result cs change m in
      let rest = change_results cs changes m' in (r ∷ rest.0, rest.1)

-- The first lines of `Evaluate`.
unfoldable pub with_default : Gates → Gates
with_default p =
    if p.minimum_blocking_criticality == ""
    then record p { minimum_blocking_criticality = Criticality.high }
    else p

-- The loop that fills `consumerByID` makes the tests that `Analyze` makes of its consumers.
unfoldable pub evaluate :
    (String → String)
    → Migration
    → Discovery
    → Option Graph
    → Gates
    → Result ImpactError ReadinessResult
evaluate lower migration discovery none p = err graph_required
evaluate lower migration discovery (some g) p =
    let consumers = sort_by consumer_before discovery.consumers in
    elim (check_consumers [] consumers) [
      | some e ↦ err e
      | none ↦
          let (changes, classes) =
            change_results lower g discovery (with_default p) consumers migration.changes [] in
          ok (record {
            migration = migration;
            summary = record (summarize consumers classes) {
              status = status_for_changes changes discovery.diagnostics;
            };
            changes = changes;
            diagnostics = discovery.diagnostics;
          })
    ]
