-- ===== src/Snapshot.antt =====
-- internal/snapshot/diff.go: the differences of two normalized snapshots, and the changes and
-- diagnostics that they give. The digest of SHA-256 in hexadecimal and the format %q are parameters.
pub mod DifferenceKind
pub mod Removals
pub mod Diagnostics
pub mod Sound
use mathlib.Core.List.{flatten}
use telemetry_change_guard.Common.{
  ℕ, String, Bool, true, false, not, ◌&&◌, ◌||◌, Option, none, some, List, [], ◌∷◌, ◌++◌, ◌==◌, map,
  if◌then◌else◌, ltb, str_ltb, sort_by, lookup, assign, has, join,
}
use telemetry_change_guard.Domain.{Change, Diagnostic}
use telemetry_change_guard.Domain.Signal
use telemetry_change_guard.Domain.SymbolKind
use telemetry_change_guard.Domain.ChangeKind

pub record Metric : Type 0 where
  pub name : String
  pub metric_type : String
  pub unit : String
  pub labels : List String

pub record Difference : Type 0 where
  pub kind : String
  pub metric : String
  pub label : String
  pub field : String
  pub before : String
  pub after : String

unfoldable pub known_type : String → Bool
known_type v = not (v == "") && not (v == "unknown")

abbrev pub of_metric : String → String → Difference
of_metric kind name = record {
  kind = kind;
  metric = name;
  label = "";
  field = "";
  before = "";
  after = "";
}

abbrev pub of_label : String → String → String → Difference
of_label kind name label = record {
  kind = kind;
  metric = name;
  label = label;
  field = "";
  before = "";
  after = "";
}

abbrev pub of_field : String → String → String → String → String → Difference
of_field kind name field before after = record {
  kind = kind;
  metric = name;
  label = "";
  field = field;
  before = before;
  after = after;
}

unfoldable pub compare_types : Metric → Metric → List Difference
compare_types b a =
    if known_type b.metric_type && known_type a.metric_type && not (b.metric_type == a.metric_type)
    then of_field DifferenceKind.metric_type_changed b.name "type" b.metric_type a.metric_type ∷ []
    else if known_type b.metric_type && not (known_type a.metric_type)
        || not (known_type b.metric_type) && known_type a.metric_type
    then of_field DifferenceKind.metric_metadata_unavailable b.name "type" b.metric_type
        a.metric_type
      ∷ []
    else []

unfoldable pub compare_units : Metric → Metric → List Difference
compare_units b a =
    if not (b.unit == "") && not (a.unit == "") && not (b.unit == a.unit)
    then of_field DifferenceKind.metric_unit_changed b.name "unit" b.unit a.unit ∷ []
    else if not (b.unit == "") && a.unit == "" || b.unit == "" && not (a.unit == "")
    then of_field DifferenceKind.metric_metadata_unavailable b.name "unit" b.unit a.unit ∷ []
    else []

-- The keys of a map that holds each of some texts: each once.
unfoldable pub once : List String → List String
once [] = []
once (k ∷ ks) = let rest = once ks in if has k ks then rest else k ∷ rest

unfoldable pub union_keys : List String → List String → List String
union_keys left right = sort_by str_ltb (once (left ++ right))

-- The body of the loop over the labels.
unfoldable pub compare_label : Metric → Metric → String → List Difference
compare_label b a label =
    if not (has label b.labels)
    then of_label DifferenceKind.label_added b.name label ∷ []
    else if not (has label a.labels)
    then of_label DifferenceKind.label_removed b.name label ∷ []
    else []

unfoldable pub compare_metric : Metric → Metric → List Difference
compare_metric b a =
    compare_types b a
    ++ compare_units b a
    ++ flatten (map (compare_label b a) (union_keys b.labels a.labels))

-- `metricIndex`: a later metric replaces an earlier one of the same name.
unfoldable pub index_from : List Metric → List (String × Metric) → List (String × Metric)
index_from [] index = index
index_from (m ∷ ms) index = index_from ms (assign m.name m index)

unfoldable pub metric_index : List Metric → List (String × Metric)
metric_index ms = index_from ms []

-- The `switch` of the loop over the names.
unfoldable pub compare_found : String → Option Metric → Option Metric → List Difference
compare_found name none after = of_metric DifferenceKind.metric_added name ∷ []
compare_found name (some b) none = of_metric DifferenceKind.metric_removed name ∷ []
compare_found name (some b) (some a) = compare_metric b a

unfoldable pub kind_rank : String → ℕ
kind_rank kind =
    if kind == DifferenceKind.metric_removed
    then 0
    else if kind == DifferenceKind.label_removed
    then 1
    else if kind == DifferenceKind.metric_type_changed
    then 2
    else if kind == DifferenceKind.metric_unit_changed
    then 3
    else if kind == DifferenceKind.metric_metadata_unavailable
    then 4
    else if kind == DifferenceKind.metric_added
    then 5
    else if kind == DifferenceKind.label_added
    then 6
    else 0

unfoldable pub difference_before : Difference → Difference → Bool
difference_before l r =
    if not (l.metric == r.metric)
    then str_ltb l.metric r.metric
    else if ltb (kind_rank l.kind) (kind_rank r.kind)
    then true
    else if ltb (kind_rank r.kind) (kind_rank l.kind)
    then false
    else if not (l.label == r.label)
    then str_ltb l.label r.label
    else str_ltb l.field r.field

unfoldable pub sort_differences : List Difference → List Difference
sort_differences ds = sort_by difference_before ds

-- The differences that `Compare` computes of the metrics of two normalized snapshots.
unfoldable pub differences : List Metric → List Metric → List Difference
differences baseline candidate =
    let b = metric_index baseline in
    let a = metric_index candidate in
    sort_differences (
      flatten (
        map (λ name. compare_found name (lookup name b) (lookup name a))
          (union_keys (map (λ e. e.0) b) (map (λ e. e.0) a))))

module _ (digest quote : String → String) where
  unfoldable pub removal_change : String → String → String → String → String → Change
  removal_change kind name parent baseline candidate = record {
    id = join "-" ("snapshot" ∷ kind ∷ digest (join "\0" (kind ∷ parent ∷ name ∷ [])) ∷ []);
    kind = kind;
    domain = Signal.prometheus;
    from = record {
      domain = Signal.prometheus;
      kind = if kind == ChangeKind.label_remove then SymbolKind.label else SymbolKind.metric;
      name = name;
      parent = parent;
    };
    to = none;
    metadata =
        ("source.adapter", "telemetry_snapshot")
        ∷ ("source.baseline", baseline)
        ∷ ("source.candidate", candidate)
        ∷ [];
  }

  unfoldable pub unsupported_semantic_diagnostic : Difference → Diagnostic
  unsupported_semantic_diagnostic d = record {
    adapter = "telemetry_snapshot";
    source = record { file = ""; line = 0; column = 0; url = ""; repo = "" };
    message =
        if d.kind == DifferenceKind.metric_metadata_unavailable
        then join "" (
            "metric "
            ∷ quote d.metric
            ∷ " has incomparable "
            ∷ d.field
            ∷ " metadata (baseline "
            ∷ quote d.before
            ∷ ", candidate "
            ∷ quote d.after
            ∷ "); semantic compatibility cannot be proven"
            ∷ [])
        else join "" (
            "metric "
            ∷ quote d.metric
            ∷ " changed "
            ∷ d.field
            ∷ " from "
            ∷ quote d.before
            ∷ " to "
            ∷ quote d.after
            ∷ "; this semantic change is not yet representable in tcg/v1alpha1"
            ∷ []);
    required = true;
  }

  -- The two results of one turn of the last loop of `Compare`, in turn.
  unfoldable pub change_for : String → String → Difference → List Change
  change_for baseline candidate d =
      if d.kind == DifferenceKind.metric_removed
      then removal_change ChangeKind.metric_remove d.metric "" baseline candidate ∷ []
      else if d.kind == DifferenceKind.label_removed
      then removal_change ChangeKind.label_remove d.label d.metric baseline candidate ∷ []
      else []

  unfoldable pub diagnostic_for : Difference → List Diagnostic
  diagnostic_for d =
      if d.kind == DifferenceKind.metric_type_changed
        || d.kind == DifferenceKind.metric_unit_changed
        || d.kind == DifferenceKind.metric_metadata_unavailable
      then unsupported_semantic_diagnostic d ∷ []
      else []

  unfoldable pub changes_of : String → String → List Difference → List Change
  changes_of baseline candidate ds = flatten (map (change_for baseline candidate) ds)

  unfoldable pub diagnostics_of : List Difference → List Diagnostic
  diagnostics_of ds = flatten (map diagnostic_for ds)
