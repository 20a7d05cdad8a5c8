-- ===== src/Source/Patterns.antt =====
-- internal/source/secure.go, `ExpandPatterns` of the budget. `text` is the text of an error.
pub mod Merged
pub mod Complete
use telemetry_change_guard.Common.{
  String, Bool, true, false, not, ◌&&◌, ◌||◌, Option, none, some, List, [], ◌∷◌, ◌++◌, Result, ok,
  err, ◌==◌, map, if◌then◌else◌, is_empty, has, lookup, assign, sort_by, str_ltb,
}
use telemetry_change_guard.Source.{
  FileSystem, Pattern, Match, Failure, canonical_pattern, pattern_before, shown_pattern,
}
use telemetry_change_guard.Source.Budget.{
  Budget, SourceError, is_policy_violation, register, expand,
}

-- The maps of the states, by the identities of files and by patterns.
abbrev pub Matches : Type 0
Matches = List (String × Match)

abbrev pub Failures : Type 0
Failures = List (String × Failure)

unfoldable pub note_failure : String → Failure → Failures → Failures
note_failure key f failures = elim (lookup key failures) [
  | none ↦ assign key f failures
  | some old ↦ assign key (record old { required = old.required || f.required }) failures
]

-- `patterns[display] = struct{}{}`
abbrev pub add_pattern : String → List String → List String
add_pattern shown patterns = if has shown patterns then patterns else shown ∷ patterns

abbrev pub merged : Option Match → String → Bool → String → Match
merged none path required shown = record { path = path; required = required; patterns = shown ∷ [] }
merged (some old) path required shown = record old {
  required = old.required || required;
  patterns = add_pattern shown old.patterns;
}

unfoldable pub note_match : String → String → Bool → String → Matches → Matches
note_match identity path required shown matches =
    assign identity (merged (lookup identity matches) path required shown) matches

-- The values of a map in the order of its keys.
unfoldable pub in_order {ℓ} : {V : Type ℓ} → List (String × V) → List String → List V
in_order m [] = []
in_order m (key ∷ keys) =
    let rest = in_order m keys in elim (lookup key m) [ none ↦ rest | some v ↦ v ∷ rest ]

abbrev pub values {ℓ} : {V : Type ℓ} → List (String × V) → List V
values m = in_order m (sort_by str_ltb (map (λ e. e.0) m))

abbrev pub with_provenance : Match → Match
with_provenance m = record m { patterns = sort_by str_ltb m.patterns }

module _ (fs : FileSystem) (glob : String → Result String (List String))
    (text : SourceError → String) where
  -- The loop over the files of a pattern.
  unfoldable pub note_files :
      Pattern → List String → Budget → Matches → Budget × Result SourceError Matches
  note_files p [] b matches = (b, ok matches)
  note_files p (file ∷ files) b matches = elim (register fs b file) [
    | err e ↦ (b, err e)
    | ok r ↦ note_files p files r.0 (note_match r.1 r.2 p.required (shown_pattern fs p) matches)
  ]

  -- The body of the loop over the patterns.
  unfoldable pub note_pattern :
      Pattern → Budget → Matches × Failures → Budget × Result SourceError (Matches × Failures)
  note_pattern p b found =
      let expanded = expand fs glob b p.path in
      let failed = λ (reason : String).
        note_failure (canonical_pattern fs p.path)
          (record { pattern = shown_pattern fs p; required = p.required; reason = reason })
          found.1 in
      elim expanded.1 [
        | err e ↦
            if is_policy_violation e
            then (expanded.0, err e)
            else (expanded.0, ok (found.0, failed (text e)))
        | ok files ↦
            let noted = note_files p files expanded.0 found.0 in
            if is_empty files
            then (expanded.0, ok (found.0, failed "source pattern matched no files"))
            else (noted.0, elim noted.1 [ err e ↦ err e | ok matches ↦ ok (matches, found.1) ])
      ]

  unfoldable pub note_patterns :
      List Pattern → Budget → Matches × Failures → Budget × Result SourceError (Matches × Failures)
  note_patterns [] b found = (b, ok found)
  note_patterns (p ∷ ps) b found =
      let r = note_pattern p b found in
      elim r.1 [ err e ↦ (r.0, err e) | ok found' ↦ note_patterns ps r.0 found' ]

  unfoldable pub expand_patterns :
      List Pattern → Budget → Budget × Result SourceError (List Match × List Failure)
  expand_patterns patterns b =
      let r = note_patterns (sort_by (pattern_before fs) patterns) b ([], []) in
      (
        r.0,
        elim r.1 [
          | err e ↦ err e
          | ok found ↦ ok (map with_provenance (values found.0), values found.1)
        ],
      )
