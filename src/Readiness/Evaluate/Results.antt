-- ===== src/Readiness/Evaluate/Results.antt =====
-- internal/readiness/evaluator.go, `Evaluate`: what the loops over changes and consumers record.
use telemetry_change_guard.Common.{
  ◌≤◌, String, List, [], ◌∷◌, ◌≡◌, refl, ap, arith, ◌==◌, All, eq_iff, lookup-assign, map,
  if◌then◌else◌,
}
use telemetry_change_guard.Domain.{Change, Consumer, Reference, Discovery}
use telemetry_change_guard.Graph.{Graph}
use telemetry_change_guard.Impact.Findings.{PathMap}
use telemetry_change_guard.Readiness.Classify.{rank, worse_classification, class_of}
use telemetry_change_guard.Readiness.Classify.Laws.{rank-worse_classification}
use telemetry_change_guard.Readiness.Gate.{Gates, ConsumerResult, ChangeResult}
use telemetry_change_guard.Readiness.Gate.Laws.{AreGated}
use telemetry_change_guard.Readiness.Evaluate.{
  Classes, consumer_result, record_class, consumer_results, change_result, change_results,
}

-- The recorded classification of a consumer is at least as bad as a result's.
abbrev pub IsCovered : Classes → ConsumerResult → Type 0
IsCovered m r = rank r.classification ≤ rank (class_of r.consumer.id m)

class_of-record_class :
    (r : ConsumerResult) (m : Classes) (id : String)
    → class_of id (record_class r m) ≡ (
        if r.consumer.id == id
        then worse_classification (class_of r.consumer.id m) r.classification
        else class_of id m)
unfolding class_of record_class
class_of-record_class r m id = ground (
  arith,
  lookup-assign r.consumer.id id (worse_classification (class_of r.consumer.id m) r.classification)
      m,
)

record_class_grows :
    (r : ConsumerResult) (m : Classes) (id : String)
    → rank (class_of id m) ≤ rank (class_of id (record_class r m))
record_class_grows r m id = rw (class_of-record_class r m id) (
    ground (
      arith,
      eq_iff r.consumer.id id,
      rank-worse_classification (class_of r.consumer.id m) r.classification,
    ))

record_class_covers : (r : ConsumerResult) (m : Classes) → IsCovered (record_class r m) r
record_class_covers r m =
    rw (class_of-record_class r m r.consumer.id, (eq_iff r.consumer.id r.consumer.id).1 refl)
      (rank-worse_classification (class_of r.consumer.id m) r.classification).1

module _ (references : List Reference) (change : Change) (old new : PathMap) where
  abbrev results : List Consumer → Classes → List ConsumerResult × Classes
  results = consumer_results references change old new

  consumer_results_grow :
      (cs : List Consumer) (m : Classes) (id : String)
      → rank (class_of id m) ≤ rank (class_of id (results cs m).1)
  unfolding consumer_results
  consumer_results_grow [] m id = omega arith
  consumer_results_grow (c ∷ cs) m id =
      let r = consumer_result references change old new c in
      omega (arith, record_class_grows r m id, consumer_results_grow cs (record_class r m) id)

  consumer_results-IsCovered :
      (cs : List Consumer) (m : Classes) → All (IsCovered (results cs m).1) (results cs m).0
  unfolding consumer_results
  consumer_results-IsCovered [] m = tt
  consumer_results-IsCovered (c ∷ cs) m =
      let r = consumer_result references change old new c in
      (
        omega (
          arith,
          record_class_covers r m,
          consumer_results_grow cs (record_class r m) r.consumer.id,
        ),
        consumer_results-IsCovered cs (record_class r m),
      )

  -- One result for each consumer, in order.
  consumer_results_consumers :
      (cs : List Consumer) (m : Classes) → map (λ r. r.consumer) (results cs m).0 ≡ cs
  unfolding consumer_results consumer_result
  consumer_results_consumers [] m = refl
  consumer_results_consumers (c ∷ cs) m =
      ap (◌∷◌ c) (
        consumer_results_consumers cs
          (record_class (consumer_result references change old new c) m))

module _ (lower : String → String) (g : Graph) (d : Discovery) (p : Gates)
    (cs : List Consumer) where
  abbrev all_results : List Change → Classes → List ChangeResult × Classes
  all_results = change_results lower g d p cs

  -- What is recorded of each change.
  pub record IsRecorded (m : Classes) (r : ChangeResult) : Type 0 where
    pub covered : All (IsCovered m) r.consumers
    pub complete : map (λ x. x.consumer) r.consumers ≡ cs

  change_result_grows :
      (change : Change) (m : Classes) (id : String)
      → rank (class_of id m) ≤ rank (class_of id (change_result lower g d p cs change m).1)
  unfolding change_result
  change_result_grows change m id = consumer_results_grow _ change _ _ cs m id

  change_result-IsRecorded :
      (change : Change) (m : Classes)
      → IsRecorded
          (change_result lower g d p cs change m).1
          (change_result lower g d p cs change m).0
  unfolding change_result
  change_result-IsRecorded change m = record {
    covered = consumer_results-IsCovered _ change _ _ cs m;
    complete = consumer_results_consumers _ change _ _ cs m;
  }

  change_results_grow :
      (changes : List Change) (m : Classes) (id : String)
      → rank (class_of id m) ≤ rank (class_of id (all_results changes m).1)
  unfolding change_results
  change_results_grow [] m id = omega arith
  change_results_grow (c ∷ changes) m id = omega (
    arith,
    change_result_grows c m id,
    change_results_grow changes (change_result lower g d p cs c m).1 id,
  )

  IsCovered-later :
      (m m' : Classes) (rs : List ConsumerResult)
      → ((id : String) → rank (class_of id m) ≤ rank (class_of id m'))
      → All (IsCovered m) rs
      → All (IsCovered m') rs
  IsCovered-later m m' [] f a = tt
  IsCovered-later m m' (r ∷ rs) f (a, as') =
      (omega (arith, f r.consumer.id), IsCovered-later m m' rs f as')

  pub change_results-IsRecorded :
      (changes : List Change) (m : Classes)
      → All (IsRecorded (all_results changes m).1) (all_results changes m).0
  unfolding change_results
  change_results-IsRecorded [] m = tt
  change_results-IsRecorded (c ∷ changes) m =
      let step = change_result lower g d p cs c m in
      let here = change_result-IsRecorded c m in
      (
        record {
          covered =
              IsCovered-later step.1 (all_results changes step.1).1 step.0.consumers
                (change_results_grow changes step.1) here.covered;
          complete = here.complete;
        },
        change_results-IsRecorded changes step.1,
      )

  pub change_results-AreGated :
      (changes : List Change) (m : Classes)
      → AreGated lower d.diagnostics p (all_results changes m).0
  unfolding change_results change_result
  change_results-AreGated [] m = tt
  change_results-AreGated (c ∷ changes) m =
      (refl, change_results-AreGated changes (change_result lower g d p cs c m).1)

  pub change_results_changes :
      (changes : List Change) (m : Classes)
      → map (λ r. r.change) (all_results changes m).0 ≡ changes
  unfolding change_results change_result
  change_results_changes [] m = refl
  change_results_changes (c ∷ changes) m =
      ap (◌∷◌ c) (change_results_changes changes (change_result lower g d p cs c m).1)
