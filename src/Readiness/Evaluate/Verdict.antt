-- ===== src/Readiness/Evaluate/Verdict.antt =====
-- internal/readiness/evaluator.go, `Evaluate`: what the result says of the consumers.
use mathlib.Core.List.Memᴰ
use telemetry_change_guard.Common.{
  ◌≤◌, String, Bool, true, false, some, List, [], ◌∷◌, ◌≡◌, refl, sym, ap, ◌∙◌, ◌↔◌, ◌≢◌, inl, inr,
  ◌⊎◌, arith, Option-cases, Memᴰ, Permᴰ, map, All_member, eq_iff, ok, sort_by, sort_by-perm, subst,
  length,
}
use telemetry_change_guard.Domain.{Consumer, Discovery, Migration}
use telemetry_change_guard.Graph.{Graph}
use telemetry_change_guard.Impact.Findings.{consumer_before, check_consumers}
use telemetry_change_guard.Readiness.Classification
use telemetry_change_guard.Readiness.Status
use telemetry_change_guard.Readiness.Classify.{
  Summary, rank, class_of, count_class, count_consumers, no_counts, summarize,
}
use telemetry_change_guard.Readiness.Classify.Laws.{summarize_counts, with_progress-counts}
use telemetry_change_guard.Readiness.Gate.{
  Gates, ConsumerResult, ChangeResult, status_for_changes, has_required_diagnostic,
}
use telemetry_change_guard.Readiness.Gate.Laws.{any_blocking, any_open, status_for_changes_iff}
use telemetry_change_guard.Readiness.Evaluate.{
  Classes, ReadinessResult, change_results, evaluate, with_default,
}
use telemetry_change_guard.Readiness.Evaluate.Results.{
  IsCovered, change_results-IsRecorded, change_results-AreGated, change_results_changes,
}

legacy_only_of_rank : (c : String) → 5 ≤ rank c → c ≡ Classification.legacy_only
unfolding rank
legacy_only_of_rank c h = ground (arith, eq_iff c Classification.legacy_only)

worst_of_rank :
    (c : String) → 4 ≤ rank c → (c ≡ Classification.legacy_only) ⊎ (c ≡ Classification.uncertain)
unfolding rank
worst_of_rank c h =
    ground (arith, eq_iff c Classification.legacy_only, eq_iff c Classification.uncertain)

count_class_legacy :
    (c : String) (s : Summary)
    → (s.legacy_only ≤ (count_class c s).legacy_only)
      × (s.uncertain ≤ (count_class c s).uncertain)
      × (c ≡ Classification.legacy_only → 1 ≤ (count_class c s).legacy_only)
      × (c ≡ Classification.uncertain → 1 ≤ (count_class c s).uncertain)
unfolding count_class
count_class_legacy c s =
    (ground arith, ground arith, λ e. rw e (omega arith), λ e. rw e (omega arith))

rank_legacy_only : rank Classification.legacy_only ≡ 5
unfolding rank
rank_legacy_only = refl

rank_uncertain : rank Classification.uncertain ≡ 4
unfolding rank
rank_uncertain = refl

-- The counters never fall, and count every consumer of their class.
count_consumers_grow :
    (cs : List Consumer) (m : Classes) (s : Summary)
    → (s.legacy_only ≤ (count_consumers cs m s).legacy_only)
      × (s.uncertain ≤ (count_consumers cs m s).uncertain)
unfolding count_consumers
count_consumers_grow [] m s = omega arith
count_consumers_grow (c ∷ cs) m s =
    let (a, b, _, _) = count_class_legacy (class_of c.id m) s in
    omega (arith, count_consumers_grow cs m (count_class (class_of c.id m) s))

count_consumers_zero :
    (cs : List Consumer) (m : Classes) (s : Summary) (c : Consumer)
    → Memᴰ c cs
    → (count_consumers cs m s).legacy_only ≡ 0
    → (count_consumers cs m s).uncertain ≡ 0
    → (class_of c.id m ≢ Classification.legacy_only) × (class_of c.id m ≢ Classification.uncertain)
unfolding count_consumers
count_consumers_zero [] m s c mem a b = absurd (Memᴰ.not-nil mem)
count_consumers_zero (d ∷ cs) m s c (Memᴰ.head same) a b =
    let (_, _, f, g) = count_class_legacy (class_of d.id m) s in
    let (p, q) = count_consumers_grow cs m (count_class (class_of d.id m) s) in
    rw same (λ e. absurd (omega (arith, f e)), λ e. absurd (omega (arith, g e)))
count_consumers_zero (d ∷ cs) m s c (Memᴰ.tail mem) a b =
    count_consumers_zero cs m (count_class (class_of d.id m) s) c mem a b

summarize_zero :
    (cs : List Consumer) (m : Classes) (c : Consumer)
    → Memᴰ c cs
    → (summarize cs m).legacy_only ≡ 0
    → (summarize cs m).uncertain ≡ 0
    → (class_of c.id m ≢ Classification.legacy_only) × (class_of c.id m ≢ Classification.uncertain)
unfolding summarize
summarize_zero cs m c mem a b =
    let (_, _, legacy, unsure) =
      with_progress-counts (count_consumers cs m (no_counts (length cs))) in
    count_consumers_zero cs m (no_counts (length cs)) c mem (sym legacy ∙ a) (sym unsure ∙ b)

covered_not_worst :
    (m : Classes) (x : ConsumerResult)
    → IsCovered m x
    → class_of x.consumer.id m ≢ Classification.legacy_only
    → class_of x.consumer.id m ≢ Classification.uncertain
    → (x.classification ≢ Classification.legacy_only)
      × (x.classification ≢ Classification.uncertain)
covered_not_worst m x h nl nu = (
  λ e. nl (legacy_only_of_rank _ (omega (arith, ap rank e, rank_legacy_only))),
  λ e. elim (worst_of_rank (class_of x.consumer.id m) (omega (arith, ap rank e, rank_uncertain))) [
    | inl worst ↦ nl worst
    | inr worst ↦ nu worst
  ],
)

module _ (lower : String → String) (migration : Migration) (d : Discovery) (g : Graph) (p : Gates)
    (r : ReadinessResult) (h : evaluate lower migration d (some g) p ≡ ok r) where
  abbrev consumers : List Consumer
  consumers = sort_by consumer_before d.consumers

  abbrev outcome : List ChangeResult × Classes
  outcome = change_results lower g d (with_default p) consumers migration.changes []

  abbrev expected : ReadinessResult
  expected = record {
    migration = migration;
    summary = record (summarize consumers outcome.1) {
      status = status_for_changes outcome.0 d.diagnostics;
    };
    changes = outcome.0;
    diagnostics = d.diagnostics;
  }

  result_shape : r ≡ expected
  unfolding evaluate
  result_shape = elim (Option-cases (check_consumers [] consumers)) [
    | inl e ↦ cc (rw (e, evaluate) at h)
    | inr (e, k) ↦ cc (rw (k, evaluate) at h)
  ]

  -- Whether some consumer of some change blocks, or is open, in the result.
  abbrev pub blocking : Bool
  blocking = any_blocking lower d.diagnostics (with_default p) r.changes

  abbrev pub open_question : Bool
  open_question = any_open lower d.diagnostics (with_default p) r.changes

  -- The status of a returned result is BLOCKED exactly if some consumer blocks; READY exactly if none
  -- blocks, no diagnostic is required and no consumer is open; and INCOMPLETE exactly in the remaining
  -- cases.
  pub evaluate_status_iff :
      ((r.summary.status ≡ Status.blocked) ↔ (blocking ≡ true))
      × ((r.summary.status ≡ Status.ready) ↔ (
          (blocking ≡ false)
          × (has_required_diagnostic d.diagnostics ≡ false)
          × (open_question ≡ false)))
      × ((r.summary.status ≡ Status.incomplete) ↔ (
          (blocking ≡ false)
          × ((has_required_diagnostic d.diagnostics ≡ true) ⊎ (open_question ≡ true))))
  evaluate_status_iff = rw result_shape (
      status_for_changes_iff lower d.diagnostics (with_default p) outcome.0
        (change_results-AreGated lower g d (with_default p) consumers migration.changes []))

  -- The result has an entry for each change of the migration, in order, and in it one for each
  -- discovered consumer.
  pub evaluate_complete :
      (map (λ c. c.change) r.changes ≡ migration.changes)
      × ((c : ChangeResult)
          → Memᴰ c r.changes
          → Permᴰ (map (λ x. x.consumer) c.consumers) d.consumers)
  evaluate_complete = rw result_shape (
    change_results_changes lower g d (with_default p) consumers migration.changes [],
    λ c m.
        let rec =
          All_member _ outcome.0
            (change_results-IsRecorded lower g d (with_default p) consumers migration.changes [])
            m in
        rw rec.complete (sort_by-perm consumer_before d.consumers),
  )

  -- A progress of 100 means that no consumer is LEGACY_ONLY or UNCERTAIN for any change.
  pub evaluate_progress_full :
      r.summary.progress ≡ 100
      → (c : ChangeResult) (x : ConsumerResult) → Memᴰ c r.changes
      → Memᴰ x c.consumers
      → (x.classification ≢ Classification.legacy_only)
        × (x.classification ≢ Classification.uncertain)
  evaluate_progress_full full c x mc mx =
      let rec =
        All_member _ outcome.0
          (change_results-IsRecorded lower g d (with_default p) consumers migration.changes [])
          (rw result_shape at mc) in
      let covered = All_member _ c.consumers rec.covered mx in
      let listed : Memᴰ x.consumer consumers =
        subst (Memᴰ x.consumer) rec.complete (Memᴰ.map (λ (y : ConsumerResult). y.consumer) mx) in
      let (_, _, _, to) = summarize_counts consumers outcome.1 in
      let (a, b) =
        to.0 (sym (ap (λ (y : ReadinessResult). y.summary.progress) result_shape) ∙ full) in
      let (nl, nu) = summarize_zero consumers outcome.1 x.consumer listed a b in
      covered_not_worst outcome.1 x covered nl nu
