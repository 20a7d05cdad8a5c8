-- ===== src/Snapshot/Diagnostics.antt =====
-- internal/snapshot/diff.go: which differences become diagnostics.
use mathlib.Core.List.Memᴰ
use telemetry_change_guard.Common.{
  String, Bool, true, false, Option, none, some, List, [], ◌∷◌, ◌++◌, ◌==◌, ◌≡◌, refl, sym, subst,
  ◌↔◌, ◌⊎◌, ◌≢◌, inl, inr, Memᴰ, Memᴰ-append, Memᴰ-perm, Bool-cases, eq_iff, arith, has,
  sort_by-perm,
}
use telemetry_change_guard.Domain.{Diagnostic}
use telemetry_change_guard.Snapshot.{
  Metric, Difference, of_field, known_type, compare_types, compare_units, compare_label,
  compare_metric, compare_found, differences, sort_differences, difference_before,
  unsupported_semantic_diagnostic, diagnostic_for, diagnostics_of,
}
use telemetry_change_guard.Snapshot.DifferenceKind
use telemetry_change_guard.Snapshot.Removals.{old, new, flatten-mem, differences-found}
use telemetry_change_guard.Snapshot.Sound.{member_of_one}

-- The differences of type and of unit between two metrics, each as it is reported: where only one of the two
-- states the type or the unit, the metadata is not available.
pub data IsChange (b a : Metric) : Difference → Type 0 where
  type_changed :
      known_type b.metric_type ≡ true
      → known_type a.metric_type ≡ true
      → b.metric_type ≢ a.metric_type
      → IsChange b a
          (of_field DifferenceKind.metric_type_changed b.name "type" b.metric_type a.metric_type)
  type_one_sided :
      known_type b.metric_type ≢ known_type a.metric_type
      → IsChange b a (
          of_field DifferenceKind.metric_metadata_unavailable b.name "type" b.metric_type
            a.metric_type)
  unit_changed :
      b.unit ≢ ""
      → a.unit ≢ ""
      → b.unit ≢ a.unit
      → IsChange b a (of_field DifferenceKind.metric_unit_changed b.name "unit" b.unit a.unit)
  unit_one_sided :
      ((b.unit ≡ "") × (a.unit ≢ "")) ⊎ ((b.unit ≢ "") × (a.unit ≡ ""))
      → IsChange b a
          (of_field DifferenceKind.metric_metadata_unavailable b.name "unit" b.unit a.unit)

differs : (s t : String) → s == t ≡ false → s ≢ t
differs s t n = ground (arith, n, eq_iff s t)

not_equal : (s t : String) → s ≢ t → s == t ≡ false
not_equal s t n = ground (arith, n, eq_iff s t)

types-IsChange : (b a : Metric) (d : Difference) → Memᴰ d (compare_types b a) → IsChange b a d
unfolding compare_types
types-IsChange b a d m = elim (Bool-cases (known_type b.metric_type)) [
  | inl x ↦ elim (Bool-cases (known_type a.metric_type)) [
    | inl y ↦ elim (Bool-cases (b.metric_type == a.metric_type)) [
      | inl z ↦ absurd (Memᴰ.not-nil (rw (x, y, z, compare_types) at m))
      | inr z ↦
          subst (IsChange b a) (sym (member_of_one (rw (x, y, z, compare_types) at m)))
            (IsChange.type_changed x y (differs b.metric_type a.metric_type z))
    ]
    | inr y ↦
        subst (IsChange b a) (sym (member_of_one (rw (x, y, compare_types) at m)))
          (IsChange.type_one_sided (λ e. cc (x, y, e)))
  ]
  | inr x ↦ elim (Bool-cases (known_type a.metric_type)) [
    | inl y ↦
        subst (IsChange b a) (sym (member_of_one (rw (x, y, compare_types) at m)))
          (IsChange.type_one_sided (λ e. cc (x, y, e)))
    | inr y ↦ absurd (Memᴰ.not-nil (rw (x, y, compare_types) at m))
  ]
]

units-IsChange : (b a : Metric) (d : Difference) → Memᴰ d (compare_units b a) → IsChange b a d
unfolding compare_units
units-IsChange b a d m = elim (Bool-cases (b.unit == "")) [
  | inl x ↦ elim (Bool-cases (a.unit == "")) [
    | inl y ↦ absurd (Memᴰ.not-nil (rw (x, y, compare_units) at m))
    | inr y ↦
        subst (IsChange b a) (sym (member_of_one (rw (x, y, compare_units) at m)))
          (IsChange.unit_one_sided (inl ((eq_iff b.unit "").0 x, differs a.unit "" y)))
  ]
  | inr x ↦ elim (Bool-cases (a.unit == "")) [
    | inl y ↦
        subst (IsChange b a) (sym (member_of_one (rw (x, y, compare_units) at m)))
          (IsChange.unit_one_sided (inr (differs b.unit "" x, (eq_iff a.unit "").0 y)))
    | inr y ↦ elim (Bool-cases (b.unit == a.unit)) [
      | inl z ↦ absurd (Memᴰ.not-nil (rw (x, y, z, compare_units) at m))
      | inr z ↦ subst (IsChange b a) (sym (member_of_one (rw (x, y, z, compare_units) at m))) (
          IsChange.unit_changed (differs b.unit "" x) (differs a.unit "" y)
            (differs b.unit a.unit z))
    ]
  ]
]

in_types :
    (b a : Metric) {d : Difference} → Memᴰ d (compare_types b a) → Memᴰ d (compare_metric b a)
unfolding compare_metric
in_types b a m = Memᴰ.append_left _ (Memᴰ.append_left _ m)

in_units :
    (b a : Metric) {d : Difference} → Memᴰ d (compare_units b a) → Memᴰ d (compare_metric b a)
unfolding compare_metric
in_units b a m = Memᴰ.append_left _ (Memᴰ.append_right (compare_types b a) m)

one_sided : (s t : Bool) → s ≢ t → ((s ≡ true) × (t ≡ false)) ⊎ ((s ≡ false) × (t ≡ true))
one_sided s t n = ground (arith, n)

IsChange-found : (b a : Metric) {d : Difference} → IsChange b a d → Memᴰ d (compare_metric b a)
unfolding compare_types compare_units
IsChange-found b a (type_changed x y n) =
    in_types b a
      (rw (x, y, not_equal b.metric_type a.metric_type n, compare_types) (Memᴰ.head refl))
IsChange-found b a (type_one_sided n) =
    in_types b a (elim (one_sided (known_type b.metric_type) (known_type a.metric_type) n) [
      | inl (x, y) ↦ rw (x, y, compare_types) (Memᴰ.head refl)
      | inr (x, y) ↦ rw (x, y, compare_types) (Memᴰ.head refl)
    ])
IsChange-found b a (unit_changed x y n) = in_units b a (
    rw (not_equal b.unit "" x, not_equal a.unit "" y, not_equal b.unit a.unit n, compare_units)
      (Memᴰ.head refl))
IsChange-found b a (unit_one_sided (inl (x, y))) =
    in_units b a
      (rw ((eq_iff b.unit "").1 x, not_equal a.unit "" y, compare_units) (Memᴰ.head refl))
IsChange-found b a (unit_one_sided (inr (x, y))) =
    in_units b a
      (rw (not_equal b.unit "" x, (eq_iff a.unit "").1 y, compare_units) (Memᴰ.head refl))

module _ (digest quote : String → String) where
  abbrev report : Difference → Diagnostic
  report d = unsupported_semantic_diagnostic digest quote d

  IsChange-reported :
      {b a : Metric} {d : Difference}
      → IsChange b a d
      → diagnostic_for digest quote d ≡ report d ∷ []
  unfolding diagnostic_for
  IsChange-reported (type_changed x y n) = refl
  IsChange-reported (type_one_sided n) = refl
  IsChange-reported (unit_changed x y n) = refl
  IsChange-reported (unit_one_sided n) = refl

  silent :
      {d e : Difference} {g : Diagnostic}
      → Memᴰ g (diagnostic_for digest quote d)
      → d ≡ e
      → diagnostic_for digest quote e ≡ []
      → ⊥
  silent {d} {e} {g} m same none' =
      Memᴰ.not-nil
        (subst (λ gs. Memᴰ g gs) none' (subst (λ x. Memᴰ g (diagnostic_for digest quote x)) same m))

  labels-silent :
      (b a : Metric) (label : String) (d : Difference) (g : Diagnostic)
      → Memᴰ d (compare_label b a label)
      → ¬ Memᴰ g (diagnostic_for digest quote d)
  unfolding compare_label diagnostic_for
  labels-silent b a label d g m n = elim (Bool-cases (has label b.labels)) [
    | inr x ↦ silent n (member_of_one (rw (x, compare_label) at m)) refl
    | inl x ↦ elim (Bool-cases (has label a.labels)) [
      | inl y ↦ absurd (Memᴰ.not-nil (rw (x, y, compare_label) at m))
      | inr y ↦ silent n (member_of_one (rw (x, y, compare_label) at m)) refl
    ]
  ]

  module _ (baseline candidate : List Metric) where
    -- A diagnostic that the comparison should give.
    pub data IsReport : Diagnostic → Type 0 where
      reported :
          (name : String) (b a : Metric) (d : Difference)
          → old baseline candidate name ≡ some b
          → new baseline candidate name ≡ some a
          → IsChange b a d
          → IsReport (report d)

    IsReport-required : {g : Diagnostic} → IsReport g → g.required ≡ true
    unfolding unsupported_semantic_diagnostic
    IsReport-required (reported name b a d h k c) = refl

    IsReport-found :
        {g : Diagnostic}
        → IsReport g
        → Memᴰ g (diagnostics_of digest quote (differences baseline candidate))
    unfolding diagnostics_of compare_found
    IsReport-found (reported name b a d h k c) = (flatten-mem (diagnostic_for digest quote) _ _).1 (
      d,
      differences-found baseline candidate name d h
          (rw (h, k, compare_found) (IsChange-found b a c)),
      rw (IsChange-reported c) (Memᴰ.head refl),
    )

    origin :
        (name : String) (o n : Option Metric) (d : Difference) (g : Diagnostic)
        → old baseline candidate name ≡ o
        → new baseline candidate name ≡ n
        → Memᴰ d (compare_found name o n)
        → Memᴰ g (diagnostic_for digest quote d)
        → IsReport g
    unfolding compare_found compare_metric diagnostic_for
    origin name none n d g h k m t = absurd (silent t (member_of_one m) refl)
    origin name (some b) none d g h k m t = absurd (silent t (member_of_one m) refl)
    origin name (some b) (some a) d g h k m t =
        elim ((Memᴰ-append d (compare_types b a ++ compare_units b a) _).0 m) [
          | inl early ↦
              let c : IsChange b a d = elim ((Memᴰ-append d (compare_types b a) _).0 early) [
                | inl x ↦ types-IsChange b a d x
                | inr x ↦ units-IsChange b a d x
              ] in
              let same : g ≡ report d =
                member_of_one (subst (λ gs. Memᴰ g gs) (IsChange-reported c) t) in
              subst IsReport (sym same) (IsReport.reported name b a d h k c)
          | inr late ↦
              let (label, _, x) = (flatten-mem (compare_label b a) d _).0 late in
              absurd (labels-silent b a label d g x t)
        ]

    -- The diagnostics of the comparison of two normalized snapshots are exactly the reports of the
    -- differences of type and of unit between the metrics of one name that both have, each with the metric,
    -- the field and both values, and all of them are required. A type or a unit that is stated differently,
    -- or by one of the two only, is such a difference; a metric has both reports if both differ.
    pub diagnostics_iff :
        (g : Diagnostic)
        → Memᴰ g (diagnostics_of digest quote (differences baseline candidate))
          ↔ (IsReport g × (g.required ≡ true))
    unfolding diagnostics_of differences sort_differences
    diagnostics_iff g = (
      λ m.
          let (d, listed, t) = (flatten-mem (diagnostic_for digest quote) g _).0 m in
          let (name, _, found) =
            (flatten-mem _ d _).0 (Memᴰ-perm (sort_by-perm difference_before _) listed) in
          let r =
            origin name (old baseline candidate name) (new baseline candidate name) d g refl refl
              found t in
          (r, IsReport-required r),
      λ (r, _). IsReport-found r,
    )
