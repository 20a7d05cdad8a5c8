-- ===== src/Snapshot/Removals.antt =====
-- internal/snapshot/diff.go: which differences are found.
use mathlib.Core.List.Memᴰ
use mathlib.Core.List.{flatten}
use telemetry_change_guard.Common.{
  String, false, Option, none, some, List, [], ◌∷◌, ◌≡◌, refl, sym, subst, ◌↔◌, ◌⊎◌, inl, inr, map,
  Memᴰ, Memᴰ-append, Memᴰ-perm, Permᴰ-sym, sort_by-perm, str_ltb, has, has_iff, Bool-cases, lookup,
  Memᴰ-lookup,
}
use telemetry_change_guard.Snapshot.{
  Metric, Difference, of_metric, of_label, once, union_keys, compare_label, compare_metric,
  compare_found, metric_index, differences, sort_differences, difference_before, changes_of,
  change_for, removal_change,
}
use telemetry_change_guard.Snapshot.DifferenceKind
use telemetry_change_guard.Domain.{Change}
use telemetry_change_guard.Domain.ChangeKind

once-mem : (k : String) (ks : List String) → Memᴰ k (once ks) ↔ Memᴰ k ks
unfolding once
once-mem k [] = (λ m. m, λ m. m)
once-mem k (j ∷ ks) = elim (Bool-cases (has j ks)) [
  | inl e ↦ rw e (
    λ m. Memᴰ.tail ((once-mem k ks).0 m),
    λ m. elim (Memᴰ.cases_cons m) [
      | inl same ↦ (once-mem k ks).1 (subst (λ x. Memᴰ x ks) (sym same) ((has_iff j ks).0 e))
      | inr later ↦ (once-mem k ks).1 later
    ],
  )
  | inr e ↦ rw e (
    λ m. elim (Memᴰ.cases_cons m) [
      | inl same ↦ Memᴰ.head same
      | inr later ↦ Memᴰ.tail ((once-mem k ks).0 later)
    ],
    λ m. elim (Memᴰ.cases_cons m) [
      | inl same ↦ Memᴰ.head same
      | inr later ↦ Memᴰ.tail ((once-mem k ks).1 later)
    ],
  )
]

union_keys-mem :
    (k : String) (left right : List String)
    → Memᴰ k (union_keys left right) ↔ (Memᴰ k left ⊎ Memᴰ k right)
unfolding union_keys
union_keys-mem k left right = (
  λ m. (Memᴰ-append k left right).0 ((once-mem k _).0 (Memᴰ-perm (sort_by-perm str_ltb _) m)),
  λ s.
      Memᴰ-perm (Permᴰ-sym (sort_by-perm str_ltb _))
        ((once-mem k _).1 ((Memᴰ-append k left right).1 s)),
)

pub flatten-mem {ℓ κ} :
    {A : Type ℓ} {B : Type κ} (f : A → List B) (y : B) (xs : List A)
    → Memᴰ y (flatten (map f xs)) ↔ ((x : A) × Memᴰ x xs × Memᴰ y (f x))
unfolding flatten
flatten-mem f y [] = (λ m. absurd (Memᴰ.not-nil m), λ (x, m, _). absurd (Memᴰ.not-nil m))
flatten-mem f y (x ∷ xs) = (
  λ m. elim ((Memᴰ-append y (f x) _).0 m) [
    | inl early ↦ (x, Memᴰ.head refl, early)
    | inr late ↦ let (z, n, k) = (flatten-mem f y xs).0 late in (z, Memᴰ.tail n, k)
  ],
  λ (z, n, k). (Memᴰ-append y (f x) _).1 (elim (Memᴰ.cases_cons n) [
    | inl same ↦ inl (subst (λ w. Memᴰ y (f w)) same k)
    | inr later ↦ inr ((flatten-mem f y xs).1 (z, later, k))
  ]),
)

key_of_lookup :
    {V : Type 0} (k : String) (m : List (String × V)) {v : V}
    → lookup k m ≡ some v
    → Memᴰ k (map (λ e. e.0) m)
key_of_lookup k m {v} h = Memᴰ.map (λ e. e.0) (Memᴰ-lookup k m h)

module _ (baseline candidate : List Metric) where
  abbrev pub old : String → Option Metric
  old name = lookup name (metric_index baseline)

  abbrev pub new : String → Option Metric
  new name = lookup name (metric_index candidate)

  -- A difference of one metric of the baseline is one of the result.
  pub differences-found :
      (name : String) {b : Metric} (d : Difference)
      → old name ≡ some b
      → Memᴰ d (compare_found name (old name) (new name))
      → Memᴰ d (differences baseline candidate)
  unfolding differences sort_differences
  differences-found name d h m =
      Memᴰ-perm (Permᴰ-sym (sort_by-perm difference_before _)) (
        (flatten-mem _ d _).1 (name, (union_keys-mem name _ _).1 (inl (key_of_lookup name _ h)), m))

removed_label :
    (b a : Metric) (label : String)
    → Memᴰ label b.labels
    → ¬ Memᴰ label a.labels
    → Memᴰ (of_label DifferenceKind.label_removed b.name label) (compare_metric b a)
unfolding compare_metric compare_label
removed_label b a label m n =
    let held = (has_iff label b.labels).1 m in
    let gone : has label a.labels ≡ false = elim (Bool-cases (has label a.labels)) [
      | inl e ↦ absurd (n ((has_iff label a.labels).0 e))
      | inr e ↦ e
    ] in
    (Memᴰ-append _ _ _).1 (
      inr (
        (flatten-mem (compare_label b a) _ _).1 (
          label,
          (union_keys-mem label b.labels a.labels).1 (inl m),
          rw (held, gone, compare_label) (Memᴰ.head refl),
        )))

module _ (digest quote : String → String) (baseline candidate : List Metric)
    (before after : String) where
  abbrev pub changes : List Change
  changes = changes_of digest quote before after (differences baseline candidate)

  changes-difference :
      (d : Difference) (c : Change)
      → Memᴰ d (differences baseline candidate)
      → Memᴰ c (change_for digest quote before after d)
      → Memᴰ c changes
  unfolding changes_of
  changes-difference d c m n = (flatten-mem (change_for digest quote before after) c _).1 (d, m, n)

  -- No removal between two normalized snapshots is lost: the change set of the comparison removes each
  -- metric of the baseline that the candidate lacks, and, for a metric of both, each label that only
  -- the baseline's has.
  pub changes_complete :
      (name : String) (b : Metric)
      → old baseline candidate name ≡ some b
      → (new baseline candidate name ≡ none
          → Memᴰ
              (removal_change digest quote ChangeKind.metric_remove name "" before after)
              changes)
        × ((a : Metric) (label : String)
            → new baseline candidate name ≡ some a
            → Memᴰ label b.labels
            → ¬ Memᴰ label a.labels
            → Memᴰ
                (removal_change digest quote ChangeKind.label_remove label b.name before after)
                changes)
  unfolding compare_found change_for
  changes_complete name b h = (
    λ gone.
        changes-difference (of_metric DifferenceKind.metric_removed name) _
          (differences-found baseline candidate name _ h
            (rw (h, gone, compare_found) (Memᴰ.head refl)))
          (Memᴰ.head refl),
    λ a label stays m n.
        changes-difference (of_label DifferenceKind.label_removed b.name label) _
          (differences-found baseline candidate name _ h
            (rw (h, stays, compare_found) (removed_label b a label m n)))
          (Memᴰ.head refl),
  )
