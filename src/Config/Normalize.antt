-- ===== src/Config/Normalize.antt =====
-- internal/config/validation.go and changeset.go: which documents are accepted, and what the
-- normalization of a migration returns.
use mathlib.Core.Bool.{false≢true}
use telemetry_change_guard.Common.{
  ℕ, String, Bool, true, false, List, [], ◌∷◌, ◌≡◌, refl, ap, sym, ◌∙◌, ◌↔◌, ◌≢◌, inl, inr, All,
  Bool-cases, ok, is_empty,
}
use telemetry_change_guard.Domain.{
  Change, ChangeSet, Migration, change_set_api_version, change_set_kind, migration_api_version,
  migration_kind,
}
use telemetry_change_guard.Config.{validate_change_set, validate_migration, normalize_migration}
use telemetry_change_guard.Config.Accepts.{append_iff, not_same_iff, add_if_iff, iff_map}
use telemetry_change_guard.Config.Documents.{
  AreChanges, IsMetadata, validate_changes_iff, All-metadata_iff,
}

-- A change set whose validation finds no issue.
pub record IsChangeSet (is_blank : String → Bool) (s : ChangeSet) : Type 0 where
  pub api_version : s.api_version ≡ change_set_api_version
  pub kind : s.kind ≡ change_set_kind
  pub named : is_blank s.name ≡ false
  pub changes : AreChanges is_blank s.changes
  pub metadata : All (λ c. IsMetadata is_blank c.metadata) s.changes

pub record IsMigration (is_blank : String → Bool) (m : Migration) : Type 0 where
  pub api_version : m.api_version ≡ migration_api_version
  pub kind : m.kind ≡ migration_kind
  pub named : is_blank m.name ≡ false
  pub some_change : m.changes ≢ []
  pub changes : AreChanges is_blank m.changes

-- The change set of a migration.
abbrev pub change_set_of : Migration → ChangeSet
change_set_of m = record {
  api_version = change_set_api_version;
  kind = change_set_kind;
  name = m.name;
  description = m.description;
  changes = m.changes;
}

is_empty_iff {ℓ} : {A : Type ℓ} (xs : List A) → (is_empty xs ≡ true) ↔ (xs ≡ [])
is_empty_iff [] = (λ h. refl, λ h. refl)
is_empty_iff (x ∷ xs) = (λ h. cc h, λ h. cc h)

some_change_iff : (changes : List Change) → (is_empty changes ≡ false) ↔ (changes ≢ [])
some_change_iff [] = (λ h. cc h, λ n. absurd (n refl))
some_change_iff (c ∷ changes) = (λ h k. cc k, λ n. refl)

module _ (is_blank : String → Bool) (show : ℕ → String) (quote : String → String) where
  -- The validation finds no issue in a change set exactly if its envelope is as required, each change is
  -- well formed under an identifier of its own, and the metadata of each change keeps the bounds.
  pub validate_change_set_iff :
      (s : ChangeSet) → (validate_change_set is_blank show quote s ≡ []) ↔ IsChangeSet is_blank s
  unfolding validate_change_set
  validate_change_set_iff s =
      iff_map
        (append_iff
          (append_iff
            (append_iff
              (append_iff (add_if_iff _ _ (not_same_iff s.api_version change_set_api_version))
                (add_if_iff _ _ (not_same_iff s.kind change_set_kind)))
              (add_if_iff _ _ (λ n. n, λ n. n)))
            (validate_changes_iff is_blank show quote s.changes))
          (All-metadata_iff is_blank show quote 0 s.changes))
        (λ ((((a, b), c), d), e). record {
          api_version = a;
          kind = b;
          named = c;
          changes = d;
          metadata = e;
        })
        (λ k. ((((k.api_version, k.kind), k.named), k.changes), k.metadata))

  -- The validation finds no issue in a migration exactly if its envelope is as required, it has a
  -- change, and each change is well formed under an identifier of its own.
  pub validate_migration_iff :
      (m : Migration) → (validate_migration is_blank show quote m ≡ []) ↔ IsMigration is_blank m
  unfolding validate_migration
  validate_migration_iff m =
      iff_map
        (append_iff
          (append_iff
            (append_iff
              (append_iff (add_if_iff _ _ (not_same_iff m.api_version migration_api_version))
                (add_if_iff _ _ (not_same_iff m.kind migration_kind)))
              (add_if_iff _ _ (λ n. n, λ n. n)))
            (add_if_iff _ _ (some_change_iff m.changes)))
          (validate_changes_iff is_blank show quote m.changes))
        (λ ((((a, b), c), d), e). record {
          api_version = a;
          kind = b;
          named = c;
          some_change = d;
          changes = e;
        })
        (λ k. ((((k.api_version, k.kind), k.named), k.some_change), k.changes))

  -- `NormalizeMigration` succeeds exactly on a valid migration whose metadata keeps the bounds of change
  -- sets, and returns the change set with the migration's name, description and changes.
  pub normalize_migration_iff :
      (m : Migration) (s : ChangeSet)
      → (normalize_migration is_blank show quote m ≡ ok s) ↔ (
          IsMigration is_blank m
          × All (λ c. IsMetadata is_blank c.metadata) m.changes
          × (s ≡ change_set_of m))
  unfolding normalize_migration
  normalize_migration_iff m s =
      elim (Bool-cases (is_empty (validate_migration is_blank show quote m))) [
        | inr bad ↦ rw bad (
          λ h. cc h,
          λ (k, _, _).
              absurd (false≢true (sym bad ∙ (is_empty_iff _).1 ((validate_migration_iff m).1 k))),
        )
        | inl good ↦
            let k = (validate_migration_iff m).0 ((is_empty_iff _).0 good) in
            elim (Bool-cases
              (is_empty (validate_change_set is_blank show quote (change_set_of m)))) [
                | inr bad ↦
                    rw (good, bad)
                      (
                        λ h. cc h,
                        λ (_, a, _). absurd (
                            false≢true (
                              sym bad
                              ∙ (is_empty_iff _).1 (
                                  (validate_change_set_iff (change_set_of m)).1 (record {
                                    api_version = refl;
                                    kind = refl;
                                    named = k.named;
                                    changes = k.changes;
                                    metadata = a;
                                  })))),
                      )
                | inl fine ↦
                    rw (good, fine)
                      (
                        λ h. (
                          k,
                          ((validate_change_set_iff (change_set_of m)).0
                              ((is_empty_iff _).0 fine)).metadata,
                          cc h,
                        ),
                        λ (_, _, e). ap ok (sym e),
                      )
              ]
      ]
