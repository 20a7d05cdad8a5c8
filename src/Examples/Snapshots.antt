-- ===== src/Examples/Snapshots.antt =====
-- The theorems on the comparison of snapshots at concrete inputs.
use telemetry_change_guard.Common.{
  String, true, none, some, List, [], ◌∷◌, ◌≡◌, refl, ◌↔◌, Memᴰ, concat, lookup, assign, arith,
  eq_iff,
}
use telemetry_change_guard.Domain.{Diagnostic}
use telemetry_change_guard.Domain.ChangeKind
use telemetry_change_guard.Snapshot.{
  of_field, unsupported_semantic_diagnostic, Metric, metric_index, index_from, differences,
  diagnostics_of, removal_change,
}
use telemetry_change_guard.Snapshot.DifferenceKind
use telemetry_change_guard.Snapshot.Removals.{old, new, changes, changes_complete}
use telemetry_change_guard.Snapshot.Sound.{IsRemoval, changes-IsRemoval}
use telemetry_change_guard.Snapshot.Diagnostics.{IsChange, IsReport, diagnostics_iff}

abbrev digest : String → String
digest s = s

abbrev quote : String → String
quote s = concat "\"" (concat s "\"")

abbrev request_count : Metric
request_count = record {
  name = "requests";
  metric_type = "counter";
  unit = "1";
  labels = "code" ∷ "zone" ∷ [];
}

abbrev request_total : Metric
request_total = record {
  name = "requests";
  metric_type = "counter";
  unit = "requests";
  labels = "code" ∷ [];
}

abbrev errors : Metric
errors = record { name = "errors"; metric_type = "counter"; unit = ""; labels = [] }

abbrev baseline : List Metric
baseline = request_count ∷ errors ∷ []

abbrev candidate : List Metric
candidate = request_total ∷ []

was : old baseline candidate "requests" ≡ some request_count
unfolding metric_index index_from assign lookup
was = refl

is_now : new baseline candidate "requests" ≡ some request_total
unfolding metric_index index_from assign lookup
is_now = refl

changes_complete_example :
    (new baseline candidate "requests" ≡ none
      → Memᴰ
          (removal_change digest quote ChangeKind.metric_remove "requests" "" "v1" "v2")
          (changes digest quote baseline candidate "v1" "v2"))
    × ((a : Metric) (label : String)
        → new baseline candidate "requests" ≡ some a
        → Memᴰ label request_count.labels
        → ¬ Memᴰ label a.labels
        → Memᴰ
            (removal_change digest quote ChangeKind.label_remove label "requests" "v1" "v2")
            (changes digest quote baseline candidate "v1" "v2"))
changes_complete_example =
    changes_complete digest quote baseline candidate "v1" "v2" "requests" request_count was

lost_errors :
    Memᴰ
      (removal_change digest quote ChangeKind.metric_remove "errors" "" "v1" "v2")
      (changes digest quote baseline candidate "v1" "v2")
unfolding metric_index index_from assign lookup
lost_errors =
    (changes_complete digest quote baseline candidate "v1" "v2" "errors" errors refl).0 refl

changes-IsRemoval_example :
    IsRemoval digest quote baseline candidate "v1" "v2"
      (removal_change digest quote ChangeKind.metric_remove "errors" "" "v1" "v2")
changes-IsRemoval_example =
    changes-IsRemoval digest quote baseline candidate "v1" "v2"
      (removal_change digest quote ChangeKind.metric_remove "errors" "" "v1" "v2") lost_errors

other_unit :
    IsChange request_count request_total
      (of_field DifferenceKind.metric_unit_changed "requests" "unit" "1" "requests")
other_unit =
    IsChange.unit_changed (ground (arith, eq_iff "1" "")) (ground (arith, eq_iff "requests" ""))
      (ground (arith, eq_iff "1" "requests"))

abbrev unit_report : Diagnostic
unit_report =
    unsupported_semantic_diagnostic digest quote
      (of_field DifferenceKind.metric_unit_changed "requests" "unit" "1" "requests")

diagnostics_iff_example :
    Memᴰ unit_report (diagnostics_of digest quote (differences baseline candidate))
    ↔ (IsReport digest quote baseline candidate unit_report × (unit_report.required ≡ true))
diagnostics_iff_example = diagnostics_iff digest quote baseline candidate unit_report

-- The unit that differs is reported.
reported_unit : Memᴰ unit_report (diagnostics_of digest quote (differences baseline candidate))
unfolding unsupported_semantic_diagnostic
reported_unit =
    (diagnostics_iff digest quote baseline candidate unit_report).1
      (IsReport.reported "requests" request_count request_total _ was is_now other_unit, refl)
