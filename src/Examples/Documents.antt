-- ===== src/Examples/Documents.antt =====
-- The theorems on the validation of documents at concrete inputs.
use telemetry_change_guard.Common.{◌≡◌, ◌↔◌, ℕ, String, Bool, [], All, ok, ◌==◌, ◌||◌, concat}
use telemetry_change_guard.Config.{validate_change_set, validate_migration, normalize_migration}
use telemetry_change_guard.Config.Documents.{IsMetadata}
use telemetry_change_guard.Config.Normalize.{
  IsChangeSet, IsMigration, change_set_of, validate_change_set_iff, validate_migration_iff,
  normalize_migration_iff,
}
use telemetry_change_guard.Examples.{removals, plan}

-- Stand-ins for `strings.TrimSpace(value) == ""`, %d and %q.
abbrev is_blank : String → Bool
is_blank s = s == "" || s == " "

abbrev show : ℕ → String
show n = "0"

abbrev quote : String → String
quote s = concat "\"" (concat s "\"")

validate_change_set_iff_example :
    (validate_change_set is_blank show quote removals ≡ []) ↔ IsChangeSet is_blank removals
validate_change_set_iff_example = validate_change_set_iff is_blank show quote removals

validate_migration_iff_example :
    (validate_migration is_blank show quote plan ≡ []) ↔ IsMigration is_blank plan
validate_migration_iff_example = validate_migration_iff is_blank show quote plan

normalize_migration_iff_example : (normalize_migration is_blank show quote plan ≡ ok removals) ↔ (
    IsMigration is_blank plan
    × All (λ c. IsMetadata is_blank c.metadata) plan.changes
    × (removals ≡ change_set_of plan))
normalize_migration_iff_example = normalize_migration_iff is_blank show quote plan removals
