-- ===== src/Source/Expand.antt =====
-- internal/source/files.go: `Expand`, and `ExpandPatterns` without a budget. `walk` gives what
-- filepath.WalkDir visits that is no directory, in its order, or an error; `match` is filepath.Match.
-- Paths have no volume name and slashes as separators.
use telemetry_change_guard.Common.{
  String, Bool, ◌||◌, List, [], ◌∷◌, Result, ok, err, ◌>>=◌, ◌==◌, map, if◌then◌else◌, any, nat_beq,
  is_empty, codes, join, assign, sort_by, str_ltb, concat,
}
use telemetry_change_guard.Source.{
  FileSystem, Pattern, Match, Failure, canonical_pattern, pattern_before, shown_pattern,
}
use telemetry_change_guard.Source.Segments.{match_segments}
use telemetry_change_guard.Source.Patterns.{
  Matches, Failures, note_failure, note_match, values, with_provenance,
}
use telemetry_change_guard.Ownership.Outside.{Stat, missing, unreadable, directory, regular}

-- `strings.ContainsAny(pattern, "*?[")`
unfoldable pub has_meta : String → Bool
has_meta pattern = any (λ c. nat_beq c 42 || nat_beq c 63 || nat_beq c 91) (codes pattern)

-- The segments before the first with a wildcard.
unfoldable pub plain_segments : List String → List String
plain_segments [] = []
plain_segments (s ∷ segments) =
    let rest = plain_segments segments in if has_meta s then [] else s ∷ rest

unfoldable pub pattern_root : List String → String
pattern_root segments =
    let root = join "/" (plain_segments segments) in if root == "" then "." else root

unfoldable pub canonical_file : FileSystem → String → Result String (String × String)
canonical_file fs path = elim (fs.absolute (fs.clean path)) [
  | err e ↦ err e
  | ok absolute ↦ ok (fs.clean absolute, fs.display (fs.clean absolute))
]

module _ (fs : FileSystem) (split : String → List String)
    (match : String → String → Result String Bool) (stat : String → Stat)
    (walk : String → List (Result String String)) where
  -- `splitPath`: `split` splits a cleaned path without a leading "./" at its slashes.
  unfoldable pub match_path : String → String → Result String Bool
  match_path pattern candidate =
      match_segments match (split (fs.clean pattern)) (split (fs.clean candidate))

  -- `filesUnder`, up to its sorting
  unfoldable pub all_files : List (Result String String) → Result String (List String)
  all_files [] = ok []
  all_files (err e ∷ entries) = err e
  all_files (ok path ∷ entries) = do rest ← all_files entries; ok (fs.clean path ∷ rest)

  -- The function that WalkDir calls.
  unfoldable pub matching_files : String → List (Result String String) → Result String (List String)
  matching_files pattern [] = ok []
  matching_files pattern (err e ∷ entries) = err e
  matching_files pattern (ok path ∷ entries) = do
    matched ← match_path pattern path
    rest ← matching_files pattern entries
    ok (if matched then fs.clean path ∷ rest else rest)

  abbrev sorted : Result String (List String) → Result String (List String)
  sorted (ok files) = ok (sort_by str_ltb files)
  sorted (err e) = err e

  unfoldable pub expand : String → Result String (List String)
  expand raw =
      let pattern = fs.clean raw in
      if has_meta pattern
      then sorted (matching_files pattern (walk (pattern_root (split pattern))))
      else elim (stat pattern) [
        | missing ↦ err (concat pattern ": no such file")
        | unreadable e ↦ err e
        | directory ↦ sorted (all_files (walk pattern))
        | regular ↦ ok (pattern ∷ [])
      ]

  -- The loop over the files of a pattern. A file that cannot be made absolute replaces what stood under
  -- its key.
  unfoldable pub note_plain_files : Pattern → List String → Matches × Failures → Matches × Failures
  note_plain_files p [] found = found
  note_plain_files p (file ∷ files) found =
      let shown = shown_pattern fs p in
      elim (canonical_file fs file) [
        | err e ↦ note_plain_files p files (
          found.0,
          assign (join "\0" (canonical_pattern fs p.path ∷ fs.clean file ∷ []))
              (record { pattern = shown; required = p.required; reason = e }) found.1,
        )
        | ok r ↦ note_plain_files p files (note_match r.0 r.1 p.required shown found.0, found.1)
      ]

  unfoldable pub note_plain_pattern : Pattern → Matches × Failures → Matches × Failures
  note_plain_pattern p found =
      let shown = shown_pattern fs p in
      let failed = λ (reason : String).
        note_failure (canonical_pattern fs p.path)
          (record { pattern = shown; required = p.required; reason = reason }) found.1 in
      elim (expand p.path) [
        | err e ↦ (found.0, failed e)
        | ok files ↦
            let noted = note_plain_files p files found in
            if is_empty files then (found.0, failed "source pattern matched no files") else noted
      ]

  unfoldable pub note_plain_patterns : List Pattern → Matches × Failures → Matches × Failures
  note_plain_patterns [] found = found
  note_plain_patterns (p ∷ ps) found = note_plain_patterns ps (note_plain_pattern p found)

  -- `ExpandPatterns`
  unfoldable pub expand_plain_patterns : List Pattern → List Match × List Failure
  expand_plain_patterns patterns =
      let found = note_plain_patterns (sort_by (pattern_before fs) patterns) ([], []) in
      (map with_provenance (values found.0), values found.1)
