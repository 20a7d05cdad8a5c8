-- ===== src/Ownership/Loading/Codeowners.antt =====
-- internal/ownership/ownership.go: finding and loading the CODEOWNERS file.
use telemetry_change_guard.Common.{
  String, Bool, true, false, Option, none, some, List, [], ◌∷◌, Result, ok, err, ◌==◌, map,
  if◌then◌else◌,
}
use telemetry_change_guard.Domain.{Diagnostic}
use telemetry_change_guard.Ownership.Rules.{CodeownersRule, parse_codeowners}
use telemetry_change_guard.Ownership.Outside.{
  Texts, Files, Opened, missing, unreadable, directory, regular,
}
use telemetry_change_guard.Ownership.Loading.{
  CodeownersConfig, ownership_diagnostic, repository_relative_path, ensure_repository_file,
}

pub record CodeownersEvidence : Type 0 where
  pub path : String
  pub rules : List CodeownersRule

abbrev codeowners_search_order : List String
codeowners_search_order = ".github/CODEOWNERS" ∷ "CODEOWNERS" ∷ "docs/CODEOWNERS" ∷ []

abbrev codeowners_diagnostic : String → String → Diagnostic
codeowners_diagnostic path message = ownership_diagnostic "codeowners" path 0 message

module _ {S : Type 0} (t : Texts) (files : Files S) where
  -- The path, and whether the file exists or the error.
  unfoldable pub search_codeowners : String → List String → String × Result String Bool
  search_codeowners root [] = (files.joined root ".github/CODEOWNERS", ok false)
  search_codeowners root (candidate ∷ candidates) =
      let path = files.joined root candidate in
      elim (files.stat path) [
        | missing ↦ search_codeowners root candidates
        | unreadable e ↦ (path, err e)
        | directory ↦ (path, err "CODEOWNERS candidate is a directory")
        | regular ↦ (path, ok true)
      ]

  unfoldable pub find_codeowners : String → String → String × Result String Bool
  find_codeowners root configured =
      let path = files.joined root configured in
      if configured == ""
      then search_codeowners root codeowners_search_order
      else elim (files.stat path) [
        | missing ↦ (path, ok false)
        | unreadable e ↦ (path, err e)
        | directory ↦ (path, err "configured CODEOWNERS path is a directory")
        | regular ↦ (path, ok true)
      ]

  -- What parsing and closing the opened file give.
  unfoldable pub read_codeowners :
      String → String → Opened → Option CodeownersEvidence × List Diagnostic
  read_codeowners root path opened =
      let (rules, issues, parse_error) =
        parse_codeowners t.trim t.quote t.show t.fields t.scan t.is_github_owner t.is_email_owner
          opened.contents in
      elim parse_error [
        | some e ↦ (none, codeowners_diagnostic path e ∷ [])
        | none ↦ elim opened.close_error [
          | some e ↦ (none, codeowners_diagnostic path e ∷ [])
          | none ↦ (
            some (record { path = repository_relative_path t files root path; rules = rules }),
            map (λ i. ownership_diagnostic "codeowners" path i.line i.message) issues,
          )
        ]
      ]

  unfoldable pub open_codeowners :
      String → String → S → S × Option CodeownersEvidence × List Diagnostic
  open_codeowners root path s =
      let r = files.read s path in
      elim r.1 [
        | err e ↦ (r.0, none, codeowners_diagnostic path e ∷ [])
        | ok opened ↦ let (found, issues) = read_codeowners root path opened in (r.0, found, issues)
      ]

  unfoldable pub secure_codeowners :
      String → String → S → S × Option CodeownersEvidence × List Diagnostic
  secure_codeowners root path s = elim files.budgeted [
    | false ↦ open_codeowners root path s
    | true ↦
        let r = files.register s path in
        elim r.1 [
          | err e ↦ (r.0, none, codeowners_diagnostic path e ∷ [])
          | ok secured ↦ open_codeowners root secured r.0
        ]
  ]

  -- The body after the test of the context.
  unfoldable pub load_found_codeowners :
      String → CodeownersConfig → S → S × Option CodeownersEvidence × List Diagnostic
  load_found_codeowners root config s =
      let (path, found) = find_codeowners root config.path in
      elim found [
        | err e ↦ (s, none, codeowners_diagnostic path e ∷ [])
        | ok exists ↦ elim exists [
          | false ↦ (
            s,
            none,
            if config.path == ""
                then []
                else codeowners_diagnostic path "CODEOWNERS file was not found" ∷ [],
          )
          | true ↦ elim (ensure_repository_file t files root path) [
            | some e ↦ (s, none, codeowners_diagnostic path e ∷ [])
            | none ↦ secure_codeowners root path s
          ]
        ]
      ]

  unfoldable pub load_codeowners :
      String → CodeownersConfig → S → S × Option CodeownersEvidence × List Diagnostic
  load_codeowners root config s = elim config.enabled [
    | false ↦ (s, none, [])
    | true ↦
        let r = files.poll s in
        elim r.1 [ some _ ↦ (r.0, none, []) | none ↦ load_found_codeowners root config r.0 ]
  ]
