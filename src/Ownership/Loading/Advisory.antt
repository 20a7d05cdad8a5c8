-- ===== src/Ownership/Loading/Advisory.antt =====
-- internal/ownership/ownership.go: the diagnostics of loading the rules.
use telemetry_change_guard.Common.{
  String, false, List, [], ◌∷◌, ◌++◌, Result, ok, err, ◌≡◌, refl, ◌==◌, any, has, is_empty, map,
  any-append, arith, Bool-cases, Option-cases, Result-cases, inl, inr,
}
use telemetry_change_guard.Domain.{Diagnostic}
use telemetry_change_guard.Ownership.Rules.{parse_codeowners, ParseIssue}
use telemetry_change_guard.Ownership.Metadata.{MetadataRule}
use telemetry_change_guard.Ownership.Outside.{Texts, Files, Opened}
use telemetry_change_guard.Ownership.Loading.{
  Progress, CodeownersConfig, ownership_diagnostic, report_metadata, load_metadata_file,
  load_metadata_files, load_next, load_metadata_pattern, load_metadata_patterns,
  load_metadata_rules, ensure_repository_file,
}
use telemetry_change_guard.Ownership.Loading.Codeowners.{
  find_codeowners, read_codeowners, open_codeowners, secure_codeowners, load_found_codeowners,
  load_codeowners,
}

-- No diagnostic is required.
abbrev pub IsAdvisory : List Diagnostic → Type 0
IsAdvisory ds = any (λ d. d.required) ds ≡ false

pub append-IsAdvisory :
    (ds es : List Diagnostic) → IsAdvisory ds → IsAdvisory es → IsAdvisory (ds ++ es)
append-IsAdvisory ds es h k = ground (arith, any-append (λ d. d.required) ds es)

module _ {S : Type 0} (t : Texts) (files : Files S) where
  report_metadata-IsAdvisory :
      (path : String) (r : Result String (List MetadataRule)) (p : Progress S)
      → IsAdvisory p.diagnostics
      → IsAdvisory (report_metadata path r p).diagnostics
  unfolding ownership_diagnostic
  report_metadata-IsAdvisory path (err e) p h = append-IsAdvisory p.diagnostics _ h refl
  report_metadata-IsAdvisory path (ok rules) p h = h

  load_next-IsAdvisory :
      (root path : String) (p : Progress S)
      → IsAdvisory p.diagnostics
      → IsAdvisory (load_next t files root path p).diagnostics
  unfolding load_next
  load_next-IsAdvisory root path p h = elim (Bool-cases (has path p.loaded)) [
    | inl e ↦ rw e h
    | inr e ↦
        let next = load_metadata_file t files root path p.state in
        rw e (
          report_metadata-IsAdvisory path next.1
            (record p { state = next.0; loaded = path ∷ p.loaded }) h)
  ]

  load_metadata_files-IsAdvisory :
      (root : String) (paths : List String) (p : Progress S)
      → IsAdvisory p.diagnostics
      → IsAdvisory (load_metadata_files t files root paths p).diagnostics
  unfolding load_metadata_files
  load_metadata_files-IsAdvisory root [] p h = h
  load_metadata_files-IsAdvisory root (path ∷ paths) p h =
      load_metadata_files-IsAdvisory root paths (load_next t files root path p)
        (load_next-IsAdvisory root path p h)

  load_metadata_pattern-IsAdvisory :
      (root pattern : String) (p : Progress S)
      → IsAdvisory p.diagnostics
      → IsAdvisory (load_metadata_pattern t files root pattern p).diagnostics
  unfolding load_metadata_pattern
  load_metadata_pattern-IsAdvisory root pattern p h =
      let rooted = files.joined root pattern in
      let r = files.expand p.state rooted in
      elim (Result-cases r.1) [
        | inl (e, q) ↦
            rw (q, load_metadata_pattern)
              (report_metadata-IsAdvisory rooted (err e) (record p { state = r.0 }) h)
        | inr (paths, q) ↦ elim (Bool-cases (is_empty paths)) [
          | inl z ↦
              rw (q, z, load_metadata_pattern)
                (report_metadata-IsAdvisory rooted (err "source pattern matched no files")
                  (record p { state = r.0 }) h)
          | inr z ↦
              rw (q, z, load_metadata_pattern)
                (load_metadata_files-IsAdvisory root paths (record p { state = r.0 }) h)
        ]
      ]

  load_metadata_patterns-IsAdvisory :
      (root : String) (patterns : List String) (p : Progress S)
      → IsAdvisory p.diagnostics
      → IsAdvisory (load_metadata_patterns t files root patterns p).diagnostics
  unfolding load_metadata_patterns
  load_metadata_patterns-IsAdvisory root [] p h = h
  load_metadata_patterns-IsAdvisory root (pattern ∷ patterns) p h =
      let r = files.poll p.state in
      elim (Option-cases r.1) [
        | inl q ↦
            rw (q, load_metadata_patterns)
              (load_metadata_patterns-IsAdvisory root patterns
                (load_metadata_pattern t files root pattern (record p { state = r.0 }))
                (load_metadata_pattern-IsAdvisory root pattern (record p { state = r.0 }) h))
        | inr (e, q) ↦ rw (q, load_metadata_patterns) h
      ]

  pub load_metadata_rules-IsAdvisory :
      (root : String) (patterns : List String) (s : S)
      → IsAdvisory (load_metadata_rules t files root patterns s).diagnostics
  unfolding load_metadata_rules
  load_metadata_rules-IsAdvisory root patterns s =
      load_metadata_patterns-IsAdvisory root patterns _ refl

  issues-IsAdvisory :
      (path : String) (issues : List ParseIssue)
      → IsAdvisory (map (λ i. ownership_diagnostic "codeowners" path i.line i.message) issues)
  unfolding ownership_diagnostic
  issues-IsAdvisory path [] = refl
  issues-IsAdvisory path (i ∷ is) = issues-IsAdvisory path is

  read_codeowners-IsAdvisory :
      (root path : String) (o : Opened) → IsAdvisory (read_codeowners t files root path o).1
  unfolding read_codeowners ownership_diagnostic
  read_codeowners-IsAdvisory root path o =
      let parsed =
        parse_codeowners t.trim t.quote t.show t.fields t.scan t.is_github_owner t.is_email_owner
          o.contents in
      elim (Option-cases parsed.2) [
        | inl q ↦ elim (Option-cases o.close_error) [
          | inl z ↦ rw (q, z, read_codeowners) (issues-IsAdvisory path parsed.1)
          | inr (e, z) ↦ rw (q, z, read_codeowners) refl
        ]
        | inr (e, q) ↦ rw (q, read_codeowners) refl
      ]

  open_codeowners-IsAdvisory :
      (root path : String) (s : S) → IsAdvisory (open_codeowners t files root path s).2
  unfolding open_codeowners ownership_diagnostic
  open_codeowners-IsAdvisory root path s = elim (Result-cases (files.read s path).1) [
    | inl (e, q) ↦ rw (q, open_codeowners) refl
    | inr (o, q) ↦ rw (q, open_codeowners) (read_codeowners-IsAdvisory root path o)
  ]

  secure_codeowners-IsAdvisory :
      (root path : String) (s : S) → IsAdvisory (secure_codeowners t files root path s).2
  unfolding secure_codeowners ownership_diagnostic
  secure_codeowners-IsAdvisory root path s = elim (Bool-cases files.budgeted) [
    | inl b ↦ elim (Result-cases (files.register s path).1) [
      | inl (e, q) ↦ rw (b, q, secure_codeowners) refl
      | inr (secured, q) ↦
          rw (b, q, secure_codeowners)
            (open_codeowners-IsAdvisory root secured (files.register s path).0)
    ]
    | inr b ↦ rw (b, secure_codeowners) (open_codeowners-IsAdvisory root path s)
  ]

  load_found_codeowners-IsAdvisory :
      (root : String) (config : CodeownersConfig) (s : S)
      → IsAdvisory (load_found_codeowners t files root config s).2
  unfolding load_found_codeowners ownership_diagnostic
  load_found_codeowners-IsAdvisory root config s =
      let found = find_codeowners t files root config.path in
      elim (Result-cases found.1) [
        | inl (e, q) ↦ rw (q, load_found_codeowners) refl
        | inr (exists, q) ↦ elim (Bool-cases exists) [
          | inl x ↦ elim (Option-cases (ensure_repository_file t files root found.0)) [
            | inl z ↦
                rw (q, x, z, load_found_codeowners) (secure_codeowners-IsAdvisory root found.0 s)
            | inr (e, z) ↦ rw (q, x, z, load_found_codeowners) refl
          ]
          | inr x ↦ elim (Bool-cases (config.path == "")) [
            | inl z ↦ rw (q, x, z, load_found_codeowners) refl
            | inr z ↦ rw (q, x, z, load_found_codeowners) refl
          ]
        ]
      ]

  pub load_codeowners-IsAdvisory :
      (root : String) (config : CodeownersConfig) (s : S)
      → IsAdvisory (load_codeowners t files root config s).2
  unfolding load_codeowners
  load_codeowners-IsAdvisory root config s = elim (Bool-cases config.enabled) [
    | inr b ↦ rw (b, load_codeowners) refl
    | inl b ↦ elim (Option-cases (files.poll s).1) [
      | inl q ↦
          rw (b, q, load_codeowners) (load_found_codeowners-IsAdvisory root config (files.poll s).0)
      | inr (e, q) ↦ rw (b, q, load_codeowners) refl
    ]
  ]
