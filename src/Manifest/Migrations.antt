-- ===== src/Manifest/Migrations.antt =====
-- internal/config/migration.go: ParseMigration, with the fields that each kind of change may set.
pub mod Written
pub mod Shape
pub mod Kept
use telemetry_change_guard.Common.{
  ℕ, ◌+◌, String, Bool, true, false, not, ◌&&◌, ◌||◌, Option, none, some, List, [], ◌∷◌, ◌++◌, ◌==◌,
  map, Result, ok, err, ◌>>=◌, is_empty, if◌then◌else◌, join,
}
use mathlib.Core.Option.{map as option_map}
use telemetry_change_guard.Domain.{Symbol, Change, Migration}
use telemetry_change_guard.Domain.SymbolKind
use telemetry_change_guard.Domain.ChangeKind
use telemetry_change_guard.Config.{
  FieldError, add_if, text, validate_migration, expected_symbol_kind,
}
use telemetry_change_guard.Manifest.{ManifestError, invalid, Decoding, read_document}

pub record SymbolDocument : Type 0 where
  pub metric : String
  pub label : String
  pub attribute : String

pub record ChangeDocument : Type 0 where
  pub id : String
  pub kind : String
  pub domain : String
  pub metric : String
  pub from : SymbolDocument
  pub to : Option SymbolDocument

pub record MigrationDocument : Type 0 where
  pub api_version : String
  pub kind : String
  pub name : String
  pub description : String
  pub changes : List ChangeDocument

unfoldable pub document_name : String → SymbolDocument → String
document_name kind d =
    if kind == SymbolKind.label
    then d.label
    else if kind == SymbolKind.span_attribute || kind == SymbolKind.resource_attribute
    then d.attribute
    else d.metric

unfoldable pub symbol_to_domain : String → String → String → SymbolDocument → Symbol
symbol_to_domain domain kind parent_metric d = record {
  domain = domain;
  kind = kind;
  name = document_name kind d;
  parent = if kind == SymbolKind.label then parent_metric else "";
}

unfoldable pub change_to_domain : ChangeDocument → Change
change_to_domain c = record {
  id = c.id;
  kind = c.kind;
  domain = c.domain;
  from = symbol_to_domain c.domain (expected_symbol_kind c.kind) c.metric c.from;
  to = option_map (symbol_to_domain c.domain (expected_symbol_kind c.kind) c.metric) c.to;
  metadata = [];
}

unfoldable pub migration_to_domain : MigrationDocument → Migration
migration_to_domain d = record {
  api_version = d.api_version;
  kind = d.kind;
  name = d.name;
  description = d.description;
  changes = map change_to_domain d.changes;
}

-- `change.To != nil && change.To.Label != ""`, for one of the fields.
unfoldable pub is_set : (SymbolDocument → String) → Option SymbolDocument → Bool
is_set field none = false
is_set field (some d) = not (field d == "")

unfoldable pub is_metric_change : String → Bool
is_metric_change k = k == ChangeKind.metric_rename || k == ChangeKind.metric_remove

unfoldable pub is_label_change : String → Bool
is_label_change k = k == ChangeKind.label_rename || k == ChangeKind.label_remove

unfoldable pub is_attribute_change : String → Bool
is_attribute_change k =
    k == ChangeKind.span_attribute_rename
    || k == ChangeKind.span_attribute_remove
    || k == ChangeKind.resource_attribute_rename
    || k == ChangeKind.resource_attribute_remove

abbrev for_labels : String
for_labels = "is only valid for a label change"

abbrev for_metrics : String
for_metrics = "is only valid for a metric change"

abbrev for_attributes : String
for_attributes = "is only valid for an attribute change"

-- The three cases of the `switch`.
unfoldable pub check_metric_fields :
    String → String → SymbolDocument → Option SymbolDocument → List FieldError
check_metric_fields path metric from to =
    add_if (not (metric == "")) (text (path ∷ ".metric" ∷ [])) for_labels
    ++ add_if (not (from.label == "")) (text (path ∷ ".from.label" ∷ [])) for_labels
    ++ add_if (is_set (λ d. d.label) to) (text (path ∷ ".to.label" ∷ [])) for_labels
    ++ add_if (not (from.attribute == "")) (text (path ∷ ".from.attribute" ∷ [])) for_attributes
    ++ add_if (is_set (λ d. d.attribute) to) (text (path ∷ ".to.attribute" ∷ [])) for_attributes

unfoldable pub check_label_fields :
    String → SymbolDocument → Option SymbolDocument → List FieldError
check_label_fields path from to =
    add_if (not (from.metric == "")) (text (path ∷ ".from.metric" ∷ [])) for_metrics
    ++ add_if (is_set (λ d. d.metric) to) (text (path ∷ ".to.metric" ∷ [])) for_metrics
    ++ add_if (not (from.attribute == "")) (text (path ∷ ".from.attribute" ∷ [])) for_attributes
    ++ add_if (is_set (λ d. d.attribute) to) (text (path ∷ ".to.attribute" ∷ [])) for_attributes

unfoldable pub check_attribute_fields :
    String → String → SymbolDocument → Option SymbolDocument → List FieldError
check_attribute_fields path metric from to =
    add_if (not (metric == "")) (text (path ∷ ".metric" ∷ [])) for_labels
    ++ add_if (not (from.metric == "")) (text (path ∷ ".from.metric" ∷ [])) for_metrics
    ++ add_if (not (from.label == "")) (text (path ∷ ".from.label" ∷ [])) for_labels
    ++ add_if (is_set (λ d. d.metric) to) (text (path ∷ ".to.metric" ∷ [])) for_metrics
    ++ add_if (is_set (λ d. d.label) to) (text (path ∷ ".to.label" ∷ [])) for_labels

unfoldable pub check_fields :
    String → String → String → SymbolDocument → Option SymbolDocument → List FieldError
check_fields path kind metric from to =
    if is_metric_change kind
    then check_metric_fields path metric from to
    else if is_label_change kind
    then check_label_fields path from to
    else if is_attribute_change kind
    then check_attribute_fields path metric from to
    else []

module _ (is_blank : String → Bool) (show : ℕ → String) (quote : String → String) where
  unfoldable pub validate_document_shape : ℕ → List ChangeDocument → List FieldError
  validate_document_shape index [] = []
  validate_document_shape index (c ∷ changes) =
      check_fields (text ("spec.changes[" ∷ show index ∷ "]" ∷ [])) c.kind c.metric c.from c.to
      ++ validate_document_shape (index + 1) changes

  -- The issues of the migration, then those of its document.
  unfoldable pub document_issues : MigrationDocument → List FieldError
  document_issues d =
      validate_migration is_blank show quote (migration_to_domain d)
      ++ validate_document_shape 0 d.changes

  unfoldable pub parse_migration :
      (String → Decoding MigrationDocument) → String → Result ManifestError Migration
  parse_migration decode contents = do
    document ← read_document decode contents
    if is_empty (document_issues document)
        then ok (migration_to_domain document)
        else err (invalid (document_issues document))
