-- ===== src/Manifest/Migrations/Kept.antt =====
-- internal/config/migration.go: ParseMigration as a whole.
use telemetry_change_guard.Common.{
  ℕ, ◌+◌, String, Bool, true, List, [], ◌∷◌, map, ◌≡◌, refl, sym, ap, ◌∙◌, subst, inl, inr, ok,
  >>=-eq-ok, List-cases, All, ◌≤◌,
}
use telemetry_change_guard.Domain.{Migration}
use telemetry_change_guard.Config.{is_supported_change_kind, validate_migration, bytes}
use telemetry_change_guard.Config.Accepts.{append-eq-nil, IsChange}
use telemetry_change_guard.Config.Normalize.{IsMigration, validate_migration_iff}
use telemetry_change_guard.Manifest.{
  Decoding, only, max_manifest_bytes, read_document, read_document_iff,
}
use telemetry_change_guard.Manifest.Migrations.{
  ChangeDocument, MigrationDocument, change_to_domain, migration_to_domain, check_fields,
  validate_document_shape, document_issues, parse_migration,
}
use telemetry_change_guard.Manifest.Migrations.Shape.{Keeps, fields-Keeps}
use telemetry_change_guard.Manifest.Migrations.Written.{change_document, migration_document}

change_document-change_to_domain :
    (path : String) (c : ChangeDocument)
    → is_supported_change_kind c.kind ≡ true
    → check_fields path c.kind c.metric c.from c.to ≡ []
    → change_document (change_to_domain c) ≡ c
unfolding change_document change_to_domain Keeps
change_document-change_to_domain path c known h =
    let (parent, from, to) = fields-Keeps path c.domain c.metric c.from c.to c.kind known h in
    λ i. record {
      id = c.id;
      kind = c.kind;
      domain = c.domain;
      metric = parent i;
      from = from i;
      to = to i;
    }

module _ (is_blank : String → Bool) (show : ℕ → String) (quote : String → String) where
  changes-kept :
      (index : ℕ) (changes : List ChangeDocument)
      → All (IsChange is_blank) (map change_to_domain changes)
      → validate_document_shape is_blank show quote index changes ≡ []
      → map change_document (map change_to_domain changes) ≡ changes
  unfolding validate_document_shape change_to_domain
  changes-kept index [] formed h = refl
  changes-kept index (c ∷ changes) (f, formed) h =
      let (a, b) = (append-eq-nil (check_fields _ c.kind c.metric c.from c.to) _).0 h in
      λ i.
        change_document-change_to_domain _ c f.known_kind a i
        ∷ changes-kept (index + 1) changes formed b i

  -- A migration that `ParseMigration` returns is valid and has lost nothing of its manifest: the text
  -- keeps the bound on its size, and its only document is the one that the migration is written as.
  pub migration_document-parse_migration :
      (decode : String → Decoding MigrationDocument) (contents : String) (m : Migration)
      → parse_migration is_blank show quote decode contents ≡ ok m
      → (bytes contents ≤ max_manifest_bytes)
        × IsMigration is_blank m
        × (decode contents ≡ only (migration_document m))
  unfolding parse_migration document_issues migration_document migration_to_domain
  migration_document-parse_migration decode contents m h =
      let (d, read, rest) = >>=-eq-ok (read_document decode contents) _ h in
      let (fits, single) = (read_document_iff decode contents d).0 read in
      elim (List-cases (document_issues is_blank show quote d)) [
        | inr (x, xs, e) ↦ cc (rw e at rest)
        | inl e ↦
            let same : migration_to_domain d ≡ m = cc (rw e at rest) in
            let (valid, shaped) =
              (append-eq-nil (validate_migration is_blank show quote (migration_to_domain d)) _).0
                e in
            let v = (validate_migration_iff is_blank show quote (migration_to_domain d)).0 valid in
            let kept : migration_document (migration_to_domain d) ≡ d = λ i. record {
              api_version = d.api_version;
              kind = d.kind;
              name = d.name;
              description = d.description;
              changes = changes-kept 0 d.changes v.changes.formed shaped i;
            } in
            (
              fits,
              subst (IsMigration is_blank) same v,
              single ∙ ap only (sym kept ∙ ap migration_document same),
            )
      ]
