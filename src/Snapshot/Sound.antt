-- ===== src/Snapshot/Sound.antt =====
-- internal/snapshot/diff.go: where removals come from.
use mathlib.Core.List.Memᴰ
use mathlib.Core.Bool.{false≢true}
use telemetry_change_guard.Common.{
  String, Bool, true, false, Option, none, some, List, [], ◌∷◌, ◌++◌, ◌≡◌, refl, sym, ◌∙◌, subst,
  ◌⊎◌, inl, inr, Memᴰ, Memᴰ-append, Memᴰ-perm, sort_by-perm, Bool-cases, has, has_iff,
  if◌then◌else◌,
}
use telemetry_change_guard.Domain.{Change}
use telemetry_change_guard.Domain.ChangeKind
use telemetry_change_guard.Snapshot.{
  Metric, Difference, of_field, compare_types, compare_units, compare_label, compare_metric,
  compare_found, differences, sort_differences, difference_before, change_for, changes_of,
  removal_change,
}
use telemetry_change_guard.Snapshot.DifferenceKind
use telemetry_change_guard.Snapshot.Removals.{old, new, flatten-mem, changes}

pub member_of_one {ℓ} : {A : Type ℓ} {x y : A} → Memᴰ x (y ∷ []) → x ≡ y
member_of_one m = elim (Memᴰ.cases_cons m) [
  | inl same ↦ same
  | inr none' ↦ absurd (Memᴰ.not-nil none')
]

one_of_two {ℓ} :
    {A : Type ℓ} (t u : Bool) (x y : A) {z : A}
    → Memᴰ z (if t then x ∷ [] else if u then y ∷ [] else [])
    → (z ≡ x) ⊎ (z ≡ y)
one_of_two true u x y m = inl (member_of_one m)
one_of_two false true x y m = inr (member_of_one m)
one_of_two false false x y m = absurd (Memᴰ.not-nil m)

module _ (digest quote : String → String) (baseline candidate : List Metric)
    (from to : String) where
  -- A change that the comparison should make.
  pub data IsRemoval : Change → Type 0 where
    lost_metric :
        (name : String) (b : Metric)
        → old baseline candidate name ≡ some b
        → new baseline candidate name ≡ none
        → IsRemoval (removal_change digest quote ChangeKind.metric_remove name "" from to)
    lost_label :
        (name label : String) (b a : Metric)
        → old baseline candidate name ≡ some b
        → new baseline candidate name ≡ some a
        → Memᴰ label b.labels
        → ¬ Memᴰ label a.labels
        → IsRemoval (removal_change digest quote ChangeKind.label_remove label b.name from to)

  abbrev turn : Difference → List Change
  turn d = change_for digest quote from to d

  types-turn : (b a : Metric) (d : Difference) → Memᴰ d (compare_types b a) → turn d ≡ []
  unfolding compare_types change_for
  types-turn b a d m =
      elim (one_of_two _ _
        (of_field DifferenceKind.metric_type_changed b.name "type" b.metric_type a.metric_type)
        (of_field DifferenceKind.metric_metadata_unavailable b.name "type" b.metric_type
          a.metric_type)
        m) [
          | inl e ↦ subst (λ x. turn x ≡ []) (sym e) refl
          | inr e ↦ subst (λ x. turn x ≡ []) (sym e) refl
        ]

  units-turn : (b a : Metric) (d : Difference) → Memᴰ d (compare_units b a) → turn d ≡ []
  unfolding compare_units change_for
  units-turn b a d m =
      elim (one_of_two _ _ (of_field DifferenceKind.metric_unit_changed b.name "unit" b.unit a.unit)
        (of_field DifferenceKind.metric_metadata_unavailable b.name "unit" b.unit a.unit) m) [
          | inl e ↦ subst (λ x. turn x ≡ []) (sym e) refl
          | inr e ↦ subst (λ x. turn x ≡ []) (sym e) refl
        ]

  no_change : (d : Difference) {c : Change} → turn d ≡ [] → ¬ Memᴰ c (turn d)
  no_change d {c} e m = Memᴰ.not-nil (subst (λ cs. Memᴰ c cs) e m)

  label-turn :
      (name label : String) (b a : Metric) (d : Difference) (c : Change)
      → old baseline candidate name ≡ some b
      → new baseline candidate name ≡ some a
      → Memᴰ d (compare_label b a label)
      → Memᴰ c (turn d)
      → IsRemoval c
  unfolding compare_label change_for
  label-turn name label b a d c h k m n = elim (Bool-cases (has label b.labels)) [
    | inr x ↦
        let e = member_of_one (rw (x, compare_label) at m) in
        absurd (no_change d (subst (λ y. turn y ≡ []) (sym e) refl) n)
    | inl x ↦ elim (Bool-cases (has label a.labels)) [
      | inl y ↦ absurd (Memᴰ.not-nil (rw (x, y, compare_label) at m))
      | inr y ↦
          let e = member_of_one (rw (x, y, compare_label) at m) in
          let same = member_of_one (subst (λ z. Memᴰ c (turn z)) e n) in
          subst IsRemoval (sym same) (
            IsRemoval.lost_label name label b a h k ((has_iff label b.labels).0 x)
              (λ held. absurd (false≢true (sym y ∙ (has_iff label a.labels).1 held))))
    ]
  ]

  metric-turn :
      (name : String) (o n : Option Metric) (d : Difference) (c : Change)
      → old baseline candidate name ≡ o
      → new baseline candidate name ≡ n
      → Memᴰ d (compare_found name o n)
      → Memᴰ c (turn d)
      → IsRemoval c
  unfolding compare_found compare_metric change_for
  metric-turn name none n d c h k m t =
      absurd (no_change d (subst (λ y. turn y ≡ []) (sym (member_of_one m)) refl) t)
  metric-turn name (some b) none d c h k m t =
      let same = member_of_one (subst (λ z. Memᴰ c (turn z)) (member_of_one m) t) in
      subst IsRemoval (sym same) (IsRemoval.lost_metric name b h k)
  metric-turn name (some b) (some a) d c h k m t =
      elim ((Memᴰ-append d (compare_types b a ++ compare_units b a) _).0 m) [
        | inl early ↦ elim ((Memᴰ-append d (compare_types b a) _).0 early) [
          | inl x ↦ absurd (no_change d (types-turn b a d x) t)
          | inr x ↦ absurd (no_change d (units-turn b a d x) t)
        ]
        | inr late ↦
            let (label, _, x) = (flatten-mem (compare_label b a) d _).0 late in
            label-turn name label b a d c h k x t
      ]

  -- The change set of a comparison removes nothing but metrics of the baseline that the candidate
  -- lacks, and labels that a metric of both has in the baseline only.
  pub changes-IsRemoval :
      (c : Change) → Memᴰ c (changes digest quote baseline candidate from to) → IsRemoval c
  unfolding changes_of differences sort_differences
  changes-IsRemoval c m =
      let (d, listed, t) = (flatten-mem turn c _).0 m in
      let (name, _, found) =
        (flatten-mem _ d _).0 (Memᴰ-perm (sort_by-perm difference_before _) listed) in
      metric-turn name (old baseline candidate name) (new baseline candidate name) d c refl refl
        found t
