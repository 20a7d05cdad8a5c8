-- ===== src/Readiness/Classify/Counts.antt =====
-- internal/readiness/evaluator.go, `summarize`: what the counters and the progress say of the consumers.
use mathlib.Core.List.Memᴰ
use telemetry_change_guard.Common.{
  ℕ, ◌+◌, ◌≤◌, String, List, [], ◌∷◌, ◌≡◌, ◌≢◌, refl, sym, ◌∙◌, ◌↔◌, inl, inr, Memᴰ, arith, length,
  ◌==◌, eq_iff, if◌then◌else◌, subst,
}
use telemetry_change_guard.Domain.{Consumer}
use telemetry_change_guard.Readiness.Apart.{classes_apart}
use telemetry_change_guard.Readiness.Classification
use telemetry_change_guard.Readiness.Classify.{
  Summary, count_class, count_consumers, no_counts, with_progress, summarize, class_of,
}
use telemetry_change_guard.Readiness.Classify.Laws.{counted, summarize_counts}

-- How many consumers have a class.
abbrev pub how_many : String → List Consumer → List (String × String) → ℕ
how_many k [] m = 0
how_many k (c ∷ cs) m = (if class_of c.id m == k then 1 else 0) + how_many k cs m

-- The four counters that have a class of their own.
pub record AreCounts (s : Summary) (cs : List Consumer) (m : List (String × String)) : Type 0 where
  pub legacy_only : s.legacy_only ≡ how_many Classification.legacy_only cs m
  pub migrated : s.migrated ≡ how_many Classification.migrated cs m
  pub dual : s.dual ≡ how_many Classification.dual cs m
  pub uncertain : s.uncertain ≡ how_many Classification.uncertain cs m

count_class-counts :
    (c : String) (s : Summary)
    → ((count_class c s).legacy_only
        ≡ s.legacy_only + (if c == Classification.legacy_only then 1 else 0))
      × ((count_class c s).migrated ≡ s.migrated + (if c == Classification.migrated then 1 else 0))
      × ((count_class c s).dual ≡ s.dual + (if c == Classification.dual then 1 else 0))
      × ((count_class c s).uncertain
          ≡ s.uncertain + (if c == Classification.uncertain then 1 else 0))
unfolding count_class
count_class-counts c s = ground (
  arith,
  classes_apart,
  eq_iff c Classification.legacy_only,
  eq_iff c Classification.migrated,
  eq_iff c Classification.dual,
  eq_iff c Classification.uncertain,
)

count_consumers-counts :
    (cs : List Consumer) (m : List (String × String)) (s : Summary)
    → ((count_consumers cs m s).legacy_only
        ≡ s.legacy_only + how_many Classification.legacy_only cs m)
      × ((count_consumers cs m s).migrated ≡ s.migrated + how_many Classification.migrated cs m)
      × ((count_consumers cs m s).dual ≡ s.dual + how_many Classification.dual cs m)
      × ((count_consumers cs m s).uncertain ≡ s.uncertain + how_many Classification.uncertain cs m)
unfolding count_consumers
count_consumers-counts [] m s = omega arith
count_consumers-counts (c ∷ cs) m s = omega (
  arith,
  count_class-counts (class_of c.id m) s,
  count_consumers-counts cs m (count_class (class_of c.id m) s),
)

with_progress-classes :
    (s : Summary)
    → ((with_progress s).legacy_only ≡ s.legacy_only)
      × ((with_progress s).migrated ≡ s.migrated)
      × ((with_progress s).dual ≡ s.dual)
      × ((with_progress s).uncertain ≡ s.uncertain)
unfolding with_progress
with_progress-classes s = ground arith

summarize-AreCounts :
    (cs : List Consumer) (m : List (String × String)) → AreCounts (summarize cs m) cs m
unfolding summarize
summarize-AreCounts cs m =
    let s = count_consumers cs m (no_counts (length cs)) in
    let (a, b, c, d) = with_progress-classes s in
    let (p, q, r, t) = count_consumers-counts cs m (no_counts (length cs)) in
    record {
      legacy_only = omega (arith, a, p);
      migrated = omega (arith, b, q);
      dual = omega (arith, c, r);
      uncertain = omega (arith, d, t);
    }

-- No consumer has a class exactly if the consumers that have it are none.
how_many_zero :
    (k : String) (cs : List Consumer) (m : List (String × String))
    → (how_many k cs m ≡ 0) ↔ ((c : Consumer) → Memᴰ c cs → class_of c.id m ≢ k)
how_many_zero k [] m = (λ e c mem. absurd (Memᴰ.not-nil mem), λ h. refl)
how_many_zero k (d ∷ cs) m =
    let (to, from) = how_many_zero k cs m in
    (
      λ e c mem. elim (Memᴰ.cases_cons mem) [
        | inl same ↦
            subst (λ (x : Consumer). class_of x.id m ≢ k) (sym same)
              (ground (arith, e, eq_iff (class_of d.id m) k))
        | inr later ↦ to (ground (arith, e)) c later
      ],
      λ h.
          let first = h d (Memᴰ.head refl) in
          let rest = from (λ c mem. h c (Memᴰ.tail mem)) in
          ground (arith, first, rest, eq_iff (class_of d.id m) k),
    )

-- The summary counts the consumers of each class: the counters LEGACY_ONLY, MIGRATED, DUAL and UNCERTAIN
-- are the numbers of consumers that have that class, and all five counters add up to the number of
-- consumers. The progress is at most 100, and it is 100 exactly if no consumer has the class LEGACY_ONLY
-- or UNCERTAIN.
pub summarize_lem :
    (cs : List Consumer) (m : List (String × String))
    → AreCounts (summarize cs m) cs m
      × (counted (summarize cs m) ≡ length cs)
      × ((summarize cs m).total_consumers ≡ length cs)
      × ((summarize cs m).progress ≤ 100)
      × (((summarize cs m).progress ≡ 100) ↔ (
          ((c : Consumer) → Memᴰ c cs → class_of c.id m ≢ Classification.legacy_only)
          × ((c : Consumer) → Memᴰ c cs → class_of c.id m ≢ Classification.uncertain)))
summarize_lem cs m =
    let counts = summarize-AreCounts cs m in
    let (sum, total, top, full) = summarize_counts cs m in
    let (a, b) = how_many_zero Classification.legacy_only cs m in
    let (c, d) = how_many_zero Classification.uncertain cs m in
    (
      counts,
      sum,
      total,
      top,
      (
        λ e.
            let (x, y) = full.0 e in (a (sym counts.legacy_only ∙ x), c (sym counts.uncertain ∙ y)),
        λ (x, y). full.1 (counts.legacy_only ∙ b x, counts.uncertain ∙ d y),
      ),
    )
