-- ===== src/Ownership/Loading.antt =====
-- internal/ownership/ownership.go: loading the rules. The diagnostics that the code appends to the
-- discovery are the last part of the result.
pub mod Codeowners
pub mod Advisory
use telemetry_change_guard.Common.{
  ℕ, String, Bool, true, false, ◌||◌, Option, none, some, List, [], ◌∷◌, ◌++◌, Result, ok, err,
  ◌==◌, map, if◌then◌else◌, has, is_empty, codes, join,
}
use telemetry_change_guard.Domain.{Diagnostic}
use telemetry_change_guard.Ownership.Patterns.{starts_with}
use telemetry_change_guard.Ownership.Rules.{CodeownersRule, parse_codeowners}
use telemetry_change_guard.Ownership.Metadata.{MetadataRule, parse_metadata}
use telemetry_change_guard.Ownership.Outside.{
  Texts, Files, Opened, missing, unreadable, directory, regular,
}

-- `OwnershipMetadataSource` is its pattern.
pub record CodeownersConfig : Type 0 where
  pub enabled : Bool
  pub path : String

pub record OwnershipConfig : Type 0 where
  pub enabled : Bool
  pub repository_root : String
  pub metadata : List String
  pub codeowners : CodeownersConfig
  pub dashboard_tags : Bool

unfoldable pub ownership_diagnostic : String → String → ℕ → String → Diagnostic
ownership_diagnostic adapter path line message = record {
  adapter = adapter;
  source = record { file = path; line = line; column = 0; url = ""; repo = "" };
  message = message;
  required = false;
}

abbrev metadata_diagnostic : String → String → Diagnostic
metadata_diagnostic path message = ownership_diagnostic "ownership_metadata" path 0 message

-- The test that a relative path leaves its root; the separator is a slash.
unfoldable pub is_outside : String → Bool
is_outside relative = relative == ".." || starts_with (codes relative) (codes "../")

-- The state after loading, the paths that are loaded, the rules and the diagnostics.
pub record Progress (S : Type 0) : Type 0 where
  pub state : S
  pub loaded : List String
  pub rules : List MetadataRule
  pub diagnostics : List Diagnostic

abbrev pub report_metadata :
    {S : Type 0} → String → Result String (List MetadataRule) → Progress S → Progress S
report_metadata path (err e) p = record p {
  diagnostics = p.diagnostics ++ (metadata_diagnostic path e ∷ []);
}
report_metadata path (ok rules) p = record p { rules = p.rules ++ rules }

module _ {S : Type 0} (t : Texts) (files : Files S) where
  unfoldable pub repository_relative_path : String → String → String
  repository_relative_path root source =
      if t.trim source == ""
      then ""
      else elim (if files.is_absolute source then ok source else files.absolute source) [
        | err _ ↦ ""
        | ok absolute ↦ elim (files.relative root (files.clean absolute)) [
          | err _ ↦ ""
          | ok relative ↦ if is_outside relative then "" else files.to_slash relative
        ]
      ]

  -- The error, if any.
  unfoldable pub ensure_repository_file : String → String → Option String
  ensure_repository_file root path = elim (files.eval_symlinks root) [
    | err e ↦ some (join "" ("resolve repository root: " ∷ e ∷ []))
    | ok resolved_root ↦ elim (files.eval_symlinks path) [
      | err e ↦ some (join "" ("resolve repository ownership path: " ∷ e ∷ []))
      | ok resolved_path ↦ elim (files.relative resolved_root resolved_path) [
        | err e ↦ some (join "" ("resolve repository-relative ownership path: " ∷ e ∷ []))
        | ok relative ↦
            if is_outside relative
            then some "ownership path resolves outside repository root"
            else none
      ]
    ]
  ]

  -- The rules of one opened file: the reader's error or that of closing it comes after that of parsing it.
  unfoldable pub read_metadata : String → Opened → Result String (List MetadataRule)
  read_metadata source opened =
      elim (parse_metadata t.trim t.quote t.show t.decode source opened.contents) [
        | err e ↦ err e
        | ok rules ↦ elim opened.close_error [ none ↦ ok rules | some e ↦ err e ]
      ]

  unfoldable pub load_metadata_file : String → String → S → S × Result String (List MetadataRule)
  load_metadata_file root path s =
      let r = files.read s path in
      elim (ensure_repository_file root path) [
        | some e ↦ (s, err e)
        | none ↦ elim r.1 [
          | err e ↦ (r.0, err e)
          | ok opened ↦ (r.0, read_metadata (repository_relative_path root path) opened)
        ]
      ]

  -- The body of the loop over the files.
  unfoldable pub load_next : String → String → Progress S → Progress S
  load_next root path p =
      let next = load_metadata_file root path p.state in
      if has path p.loaded
      then p
      else report_metadata path next.1 (record p { state = next.0; loaded = path ∷ p.loaded })

  unfoldable pub load_metadata_files : String → List String → Progress S → Progress S
  load_metadata_files root [] p = p
  load_metadata_files root (path ∷ paths) p = load_metadata_files root paths (load_next root path p)

  -- The body of the loop over the patterns, after the test of the context.
  unfoldable pub load_metadata_pattern : String → String → Progress S → Progress S
  load_metadata_pattern root pattern p =
      let rooted = files.joined root pattern in
      let r = files.expand p.state rooted in
      elim r.1 [
        | err e ↦ report_metadata rooted (err e) (record p { state = r.0 })
        | ok paths ↦
            if is_empty paths
            then report_metadata rooted (err "source pattern matched no files")
                (record p { state = r.0 })
            else load_metadata_files root paths (record p { state = r.0 })
      ]

  unfoldable pub load_metadata_patterns : String → List String → Progress S → Progress S
  load_metadata_patterns root [] p = p
  load_metadata_patterns root (pattern ∷ patterns) p =
      let r = files.poll p.state in
      elim r.1 [
        | some _ ↦ record p { state = r.0 }
        | none ↦
            load_metadata_patterns root patterns
              (load_metadata_pattern root pattern (record p { state = r.0 }))
      ]

  unfoldable pub load_metadata_rules : String → List String → S → Progress S
  load_metadata_rules root patterns s =
      load_metadata_patterns root patterns
        (record { state = s; loaded = []; rules = []; diagnostics = [] })
