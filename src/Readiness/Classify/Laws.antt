-- ===== src/Readiness/Classify/Laws.antt =====
-- internal/readiness/evaluator.go: when each classification is given, and which of two is kept.
use native.Mathlib.Nat.{div-lt_iff_lt-mul, le-div_iff_mul-le}
use telemetry_change_guard.Common.{
  ℕ, ◌+◌, ◌*◌, ◌/◌, ◌≤◌, ◌<◌, String, Bool, true, false, List, [], ◌∷◌, ◌≡◌, refl, ◌∙◌, ◌↔◌, inl,
  inr, ◌⊎◌, arith, Bool-cases, is_some, length, nat_beq,
}
use telemetry_change_guard.Domain.{Change, Consumer}
use telemetry_change_guard.Readiness.Apart.{classes_apart}
use telemetry_change_guard.Readiness.Classification
use telemetry_change_guard.Readiness.Classify.{
  classify, rank, worse_classification, Summary, count_class, count_consumers, no_counts,
  with_progress, summarize, class_of,
}

module _ (change : Change) (has_old has_new uncertain : Bool) where
  abbrev pub class : String
  class = classify change has_old has_new uncertain

  -- A consumer counts as LEGACY_ONLY exactly if the old symbol reaches it, and either the change is a
  -- removal or the new symbol does not reach it; as DUAL exactly if both do; as UNCERTAIN exactly if
  -- the old symbol does not reach it and its evidence is uncertain; as MIGRATED exactly if its
  -- evidence is certain and the new symbol alone reaches it; and as UNAFFECTED in all other cases.
  pub classify_iff :
      ((class ≡ Classification.legacy_only)
        ↔ ((has_old ≡ true) × ((is_some change.to ≡ false) ⊎ (has_new ≡ false))))
      × ((class ≡ Classification.dual)
          ↔ ((is_some change.to ≡ true) × (has_old ≡ true) × (has_new ≡ true)))
      × ((class ≡ Classification.uncertain) ↔ ((has_old ≡ false) × (uncertain ≡ true)))
      × ((class ≡ Classification.migrated) ↔ (
          (is_some change.to ≡ true) × (has_old ≡ false) × (uncertain ≡ false) × (has_new ≡ true)))
      × ((class ≡ Classification.unaffected) ↔ (
          (has_old ≡ false)
          × (uncertain ≡ false)
          × ((is_some change.to ≡ false) ⊎ (has_new ≡ false))))
  unfolding classify
  classify_iff = ground (arith, classes_apart)

-- The one kept has the higher rank of the two.
pub rank-worse_classification :
    (a b : String)
    → (rank a ≤ rank (worse_classification a b))
      × (rank b ≤ rank (worse_classification a b))
      × ((worse_classification a b ≡ a) ⊎ (worse_classification a b ≡ b))
unfolding worse_classification
rank-worse_classification a b = ground arith

-- The consumers counted so far.
abbrev pub counted : Summary → ℕ
counted s = s.legacy_only + s.migrated + s.dual + s.unaffected + s.uncertain

counted-count_class : (c : String) (s : Summary) → counted (count_class c s) ≡ counted s + 1
unfolding count_class
counted-count_class c s = ground arith

counted-count_consumers :
    (cs : List Consumer) (m : List (String × String)) (s : Summary)
    → counted (count_consumers cs m s) ≡ counted s + length cs
unfolding count_consumers
counted-count_consumers [] m s = omega arith
counted-count_consumers (c ∷ cs) m s = omega (
  arith,
  counted-count_class (class_of c.id m) s,
  counted-count_consumers cs m (count_class (class_of c.id m) s),
)

total-count_consumers :
    (cs : List Consumer) (m : List (String × String)) (s : Summary)
    → (count_consumers cs m s).total_consumers ≡ s.total_consumers
unfolding count_consumers count_class
total-count_consumers [] m s = refl
total-count_consumers (c ∷ cs) m s =
    ground (arith, total-count_consumers cs m (count_class (class_of c.id m) s))

percent_bounds : (x d : ℕ) → 0 < d → x ≤ d → (x * 100 / d ≤ 100) × ((x * 100 / d ≡ 100) ↔ (x ≡ d))
percent_bounds x d h k =
    let below : x * 100 / d < 101 = (div-lt_iff_lt-mul h).1 (omega arith) in
    let full = le-div_iff_mul-le {k = d} {x = 100} {y = x * 100} h in
    (
      omega arith,
      (λ e. omega (arith, full.0 (omega arith)), λ e. omega (arith, full.1 (omega arith))),
    )

with_progress_bounds :
    (s : Summary)
    → ((with_progress s).progress ≤ 100)
      × (((with_progress s).progress ≡ 100) ↔ ((s.legacy_only ≡ 0) × (s.uncertain ≡ 0)))
unfolding with_progress
with_progress_bounds s = elim (Bool-cases (nat_beq denominator 0)) [
  | inl none_left ↦ rw none_left (omega arith, (λ e. ground arith, λ e. refl))
  | inr some_left ↦
      let (top, full) =
        percent_bounds (s.migrated + s.dual) denominator (ground arith) (omega arith) in
      rw some_left (top, (λ e. omega (arith, full.0 e), λ (a, b). full.1 (omega arith)))
]
  where
    denominator : ℕ
    denominator = s.legacy_only + s.migrated + s.dual + s.uncertain

pub with_progress-counts :
    (s : Summary)
    → (counted (with_progress s) ≡ counted s)
      × ((with_progress s).total_consumers ≡ s.total_consumers)
      × ((with_progress s).legacy_only ≡ s.legacy_only)
      × ((with_progress s).uncertain ≡ s.uncertain)
unfolding with_progress
with_progress-counts s = ground arith

-- Each consumer is counted once, the progress is a percentage, and it is 100 exactly if the counters
-- LEGACY_ONLY and UNCERTAIN are 0.
pub summarize_counts :
    (cs : List Consumer) (m : List (String × String))
    → (counted (summarize cs m) ≡ length cs)
      × ((summarize cs m).total_consumers ≡ length cs)
      × ((summarize cs m).progress ≤ 100)
      × (((summarize cs m).progress ≡ 100)
          ↔ (((summarize cs m).legacy_only ≡ 0) × ((summarize cs m).uncertain ≡ 0)))
unfolding summarize
summarize_counts cs m =
    let s = count_consumers cs m (no_counts (length cs)) in
    let (same, total, legacy, unsure) = with_progress-counts s in
    let (top, full) = with_progress_bounds s in
    (
      omega (arith, same, counted-count_consumers cs m (no_counts (length cs))),
      total ∙ total-count_consumers cs m (no_counts (length cs)),
      top,
      rw (legacy, unsure) full,
    )
