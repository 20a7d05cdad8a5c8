-- ===== src/Examples/Manifests.antt =====
-- The theorems on the manifests at concrete inputs.
use telemetry_change_guard.Common.{
  ℕ, String, Bool, Option, some, [], ◌≡◌, ◌≤◌, refl, ok, arith, lookup, assign, join, insert_by,
  sort_by, codes_ltb, str_ltb, ◌==◌,
}
use telemetry_change_guard.Config.{
  bytes, validate_change_set, validate_migration, add_if, validate_changes, check_id, seen_as,
  check_change, is_supported_domain, is_supported_change_kind, check_symbols, domain_supports_kind,
  expected_symbol_kind, validate_symbol, check_destination, is_rename, see_id, see_new,
  symbol_field_name, validate_change_set_metadata, check_entries, check_entry, check_metadata,
  metadata_at,
}
use telemetry_change_guard.Config.Normalize.{IsMigration}
use telemetry_change_guard.Manifest.{Decoding, only, max_manifest_bytes, read_document}
use telemetry_change_guard.Manifest.ChangeSets.{
  valid_change_set, ChangeSetDocument, change_set_document, marshal_change_set, parse_change_set,
  parse-marshal_change_set,
}
use telemetry_change_guard.Manifest.Migrations.{
  MigrationDocument, parse_migration, document_issues, migration_to_domain, change_to_domain,
  symbol_to_domain, document_name, check_attribute_fields, check_fields, check_label_fields,
  check_metric_fields, is_attribute_change, is_label_change, is_metric_change, is_set,
  validate_document_shape,
}
use telemetry_change_guard.Manifest.Migrations.Written.{
  migration_document, change_document, symbol_document,
}
use telemetry_change_guard.Manifest.Migrations.Kept.{migration_document-parse_migration}
use telemetry_change_guard.Examples.{removals, plan}

abbrev pub is_blank : String → Bool
is_blank s = s == ""

abbrev pub show : ℕ → String
show n = "0"

abbrev pub quote : String → String
quote s = s

-- A library that writes and reads the one document.
abbrev encode : ChangeSetDocument → Option String
encode d = some "removals"

abbrev decode : String → Decoding ChangeSetDocument
decode text = only (change_set_document removals)

pub removals_valid : validate_change_set is_blank show quote removals ≡ []
unfolding validate_change_set add_if validate_changes check_id seen_as lookup check_change
    is_supported_domain is_supported_change_kind check_symbols domain_supports_kind
    expected_symbol_kind validate_symbol check_destination is_rename assign join see_id see_new
    symbol_field_name validate_change_set_metadata insert_by sort_by codes_ltb str_ltb bytes
    check_entries check_entry check_metadata metadata_at
removals_valid = refl

written : marshal_change_set is_blank show quote encode removals ≡ ok "removals"
unfolding marshal_change_set valid_change_set
written = rw (removals_valid, valid_change_set) refl

small : bytes "removals" ≤ max_manifest_bytes
unfolding bytes
small = omega arith

parse-marshal_change_set_example :
    parse_change_set is_blank show quote decode "removals" ≡ ok removals
parse-marshal_change_set_example =
    parse-marshal_change_set is_blank show quote encode decode removals "removals" (λ t h. refl)
      written small

abbrev decode_plan : String → Decoding MigrationDocument
decode_plan text = only (migration_document plan)

parsed : parse_migration is_blank show quote decode_plan "plan" ≡ ok plan
unfolding parse_migration read_document bytes document_issues migration_to_domain migration_document
    change_to_domain change_document symbol_to_domain symbol_document document_name
    expected_symbol_kind validate_migration add_if validate_changes check_id seen_as lookup
    check_change is_supported_domain is_supported_change_kind check_symbols domain_supports_kind
    validate_symbol check_destination is_rename assign join see_id see_new symbol_field_name
    check_attribute_fields check_fields check_label_fields check_metric_fields is_attribute_change
    is_label_change is_metric_change is_set validate_document_shape
parsed = refl

migration_document-parse_migration_example :
    (bytes "plan" ≤ max_manifest_bytes)
    × IsMigration is_blank plan
    × (decode_plan "plan" ≡ only (migration_document plan))
migration_document-parse_migration_example =
    migration_document-parse_migration is_blank show quote decode_plan "plan" plan parsed
