-- ===== src/Manifest/Migrations/Written.antt =====
-- internal/config/migration.go: the document that a migration is written as.
use telemetry_change_guard.Common.{
  String, true, map, ◌≡◌, sym, subst, ◌⊎◌, inl, inr, arith, eq_iff, if◌then◌else◌,
}
use mathlib.Core.Option.{map as option_map}
use telemetry_change_guard.Domain.{Symbol, Change, Migration}
use telemetry_change_guard.Domain.ChangeKind
use telemetry_change_guard.Config.{is_supported_change_kind}
use telemetry_change_guard.Manifest.Migrations.{
  SymbolDocument, ChangeDocument, MigrationDocument, is_metric_change, is_label_change,
  is_attribute_change,
}

-- The document that a migration is written as.
unfoldable pub symbol_document : String → Symbol → SymbolDocument
symbol_document kind s = record {
  metric = if is_metric_change kind then s.name else "";
  label = if is_label_change kind then s.name else "";
  attribute = if is_attribute_change kind then s.name else "";
}

unfoldable pub change_document : Change → ChangeDocument
change_document c = record {
  id = c.id;
  kind = c.kind;
  domain = c.domain;
  metric = if is_label_change c.kind then c.from.parent else "";
  from = symbol_document c.kind c.from;
  to = option_map (symbol_document c.kind) c.to;
}

unfoldable pub migration_document : Migration → MigrationDocument
migration_document m = record {
  api_version = m.api_version;
  kind = m.kind;
  name = m.name;
  description = m.description;
  changes = map change_document m.changes;
}

-- A kind that is supported is one of the eight.
supported_kinds :
    (kind : String)
    → is_supported_change_kind kind ≡ true
    → (kind ≡ ChangeKind.metric_rename)
      ⊎ (kind ≡ ChangeKind.metric_remove)
      ⊎ (kind ≡ ChangeKind.label_rename)
      ⊎ (kind ≡ ChangeKind.label_remove)
      ⊎ (kind ≡ ChangeKind.span_attribute_rename)
      ⊎ (kind ≡ ChangeKind.span_attribute_remove)
      ⊎ (kind ≡ ChangeKind.resource_attribute_rename)
      ⊎ (kind ≡ ChangeKind.resource_attribute_remove)
unfolding is_supported_change_kind
supported_kinds kind known = ground (
  arith,
  eq_iff kind ChangeKind.metric_rename,
  eq_iff kind ChangeKind.metric_remove,
  eq_iff kind ChangeKind.label_rename,
  eq_iff kind ChangeKind.label_remove,
  eq_iff kind ChangeKind.span_attribute_rename,
  eq_iff kind ChangeKind.span_attribute_remove,
  eq_iff kind ChangeKind.resource_attribute_rename,
  eq_iff kind ChangeKind.resource_attribute_remove,
)

pub by_kind :
    (P : String → Type 0)
    → P ChangeKind.metric_rename
    → P ChangeKind.metric_remove
    → P ChangeKind.label_rename
    → P ChangeKind.label_remove
    → P ChangeKind.span_attribute_rename
    → P ChangeKind.span_attribute_remove
    → P ChangeKind.resource_attribute_rename
    → P ChangeKind.resource_attribute_remove
    → (kind : String) → is_supported_change_kind kind ≡ true
    → P kind
by_kind P a b c d e f g h kind known =
    let r0 = supported_kinds kind known in
    elim r0 [
      | inl q ↦ subst P (sym q) a
      | inr r1 ↦ elim r1 [
        | inl q ↦ subst P (sym q) b
        | inr r2 ↦ elim r2 [
          | inl q ↦ subst P (sym q) c
          | inr r3 ↦ elim r3 [
            | inl q ↦ subst P (sym q) d
            | inr r4 ↦ elim r4 [
              | inl q ↦ subst P (sym q) e
              | inr r5 ↦ elim r5 [
                | inl q ↦ subst P (sym q) f
                | inr r6 ↦ elim r6 [ inl q ↦ subst P (sym q) g | inr q ↦ subst P (sym q) h ]
              ]
            ]
          ]
        ]
      ]
    ]
