-- ===== src/Config.antt =====
-- internal/config/validation.go: the validation of change sets and migrations. The formats %d and %q
-- and the test `strings.TrimSpace(value) == ""` are parameters. The pointer to the collector of issues
-- is explicit: each function returns the issues that it adds, in order.
pub mod Accepts
pub mod Documents
pub mod Normalize
use telemetry_change_guard.Common.{
  ℕ, ◌+◌, String, Bool, true, false, not, ◌&&◌, ◌||◌, Option, none, some, List, [], ◌∷◌, ◌++◌, ◌==◌,
  map, if◌then◌else◌, ltb, str_ltb, sort_by, lookup, assign, join, length, is_empty, codes, Result,
  ok, err,
}
use telemetry_change_guard.Domain.{
  Symbol, Change, ChangeSet, Migration, Metadata, change_set_api_version, change_set_kind,
  migration_api_version, migration_kind,
}
use telemetry_change_guard.Domain.Signal
use telemetry_change_guard.Domain.SymbolKind
use telemetry_change_guard.Domain.ChangeKind

pub record FieldError : Type 0 where
  pub path : String
  pub message : String

abbrev pub max_change_metadata_entries : ℕ
max_change_metadata_entries = 64

abbrev pub max_change_metadata_key_bytes : ℕ
max_change_metadata_key_bytes = 128

abbrev pub max_change_metadata_val_bytes : ℕ
max_change_metadata_val_bytes = 4096

-- `len` of a text: the bytes of its UTF-8.
abbrev code_bytes : ℕ → ℕ
code_bytes c = if ltb c 128 then 1 else if ltb c 2048 then 2 else if ltb c 65536 then 3 else 4

abbrev codes_bytes : List ℕ → ℕ
codes_bytes [] = 0
codes_bytes (c ∷ cs) = code_bytes c + codes_bytes cs

unfoldable pub bytes : String → ℕ
bytes s = codes_bytes (codes s)

unfoldable pub is_supported_domain : String → Bool
is_supported_domain v = v == Signal.prometheus || v == Signal.opentelemetry || v == Signal.tempo

unfoldable pub is_supported_change_kind : String → Bool
is_supported_change_kind v =
    v == ChangeKind.metric_rename
    || v == ChangeKind.metric_remove
    || v == ChangeKind.label_rename
    || v == ChangeKind.label_remove
    || v == ChangeKind.span_attribute_rename
    || v == ChangeKind.span_attribute_remove
    || v == ChangeKind.resource_attribute_rename
    || v == ChangeKind.resource_attribute_remove

unfoldable pub is_rename : String → Bool
is_rename v =
    v == ChangeKind.metric_rename
    || v == ChangeKind.label_rename
    || v == ChangeKind.span_attribute_rename
    || v == ChangeKind.resource_attribute_rename

unfoldable pub expected_symbol_kind : String → String
expected_symbol_kind v =
    if v == ChangeKind.label_rename || v == ChangeKind.label_remove
    then SymbolKind.label
    else if v == ChangeKind.span_attribute_rename || v == ChangeKind.span_attribute_remove
    then SymbolKind.span_attribute
    else if v == ChangeKind.resource_attribute_rename || v == ChangeKind.resource_attribute_remove
    then SymbolKind.resource_attribute
    else SymbolKind.metric

unfoldable pub domain_supports_kind : String → String → Bool
domain_supports_kind d kind =
    if kind == SymbolKind.metric || kind == SymbolKind.label
    then d == Signal.prometheus
    else if kind == SymbolKind.span_attribute || kind == SymbolKind.resource_attribute
    then d == Signal.opentelemetry || d == Signal.tempo
    else false

unfoldable pub symbol_field_name : String → String
symbol_field_name kind =
    if kind == SymbolKind.metric
    then "metric"
    else if kind == SymbolKind.label
    then "label"
    else "attribute"

-- `if test { issues.add(path, message) }`
unfoldable pub add_if : Bool → String → String → List FieldError
add_if true path message = record { path = path; message = message } ∷ []
add_if false path message = []

abbrev pub text : List String → String
text = join ""

module _ (is_blank : String → Bool) (show : ℕ → String) (quote : String → String) where
  unfoldable pub validate_symbol : String → Symbol → String → String → List FieldError
  validate_symbol path s domain kind =
      add_if (not (s.domain == domain)) (text (path ∷ ".domain" ∷ []))
        "must match the change domain"
      ++ add_if (not (s.kind == kind)) (text (path ∷ ".kind" ∷ []))
          (text ("must be " ∷ quote kind ∷ []))
      ++ add_if (is_blank s.name) (text (path ∷ "." ∷ symbol_field_name kind ∷ [])) "is required"
      ++ add_if (not (kind == SymbolKind.label) && not (s.parent == ""))
          (text (path ∷ ".parent" ∷ [])) "must be empty for this change kind"

  unfoldable pub seen_as : String → Option ℕ → List FieldError
  seen_as path none = []
  seen_as path (some previous) =
      add_if true (text (path ∷ ".id" ∷ []))
        (text ("duplicates spec.changes[" ∷ show previous ∷ "].id" ∷ []))

  -- The issues of the first test of the loop, and `seenIDs` after it.
  unfoldable pub check_id : String → Change → List (String × ℕ) → List FieldError
  check_id path c seen =
      if is_blank c.id
      then add_if true (text (path ∷ ".id" ∷ [])) "is required"
      else seen_as path (lookup c.id seen)

  unfoldable pub see_new : String → ℕ → Option ℕ → List (String × ℕ) → List (String × ℕ)
  see_new id index none seen = assign id index seen
  see_new id index (some previous) seen = seen

  unfoldable pub see_id : Change → ℕ → List (String × ℕ) → List (String × ℕ)
  see_id c index seen = if is_blank c.id then seen else see_new c.id index (lookup c.id seen) seen

  unfoldable pub check_destination :
      String → Change → String → Bool → Option Symbol → List FieldError
  check_destination path c kind true none =
      add_if true (text (path ∷ ".to" ∷ [])) "is required for a rename"
  check_destination path c kind true (some to) =
      validate_symbol (text (path ∷ ".to" ∷ [])) to c.domain kind
      ++ add_if (c.from.name == to.name && not (is_blank c.from.name)) (text (path ∷ ".to" ∷ []))
          "must differ from the source of a rename"
      ++ add_if (kind == SymbolKind.label && not (c.from.parent == to.parent))
          (text (path ∷ ".to.parent" ∷ [])) "must match the source parent metric"
  check_destination path c kind false (some to) =
      add_if true (text (path ∷ ".to" ∷ [])) "must be omitted for a removal"
  check_destination path c kind false none = []

  unfoldable pub check_symbols : String → Change → String → List FieldError
  check_symbols path c kind =
      add_if (not (domain_supports_kind c.domain kind)) (text (path ∷ ".domain" ∷ []))
        (text ("domain " ∷ quote c.domain ∷ " does not support change kind " ∷ quote c.kind ∷ []))
      ++ validate_symbol (text (path ∷ ".from" ∷ [])) c.from c.domain kind
      ++ add_if (kind == SymbolKind.label && is_blank c.from.parent) (text (path ∷ ".metric" ∷ []))
          "parent metric is required for a label change"
      ++ check_destination path c kind (is_rename c.kind) c.to

  -- The body of the loop after the identifier.
  unfoldable pub check_change : String → Change → List FieldError
  check_change path c =
      add_if (not (is_supported_domain c.domain)) (text (path ∷ ".domain" ∷ [])) (
        text (
          "unsupported domain "
          ∷ quote c.domain
          ∷ "; supported domains: prometheus, opentelemetry, tempo"
          ∷ []))
      ++ (if is_supported_change_kind c.kind
          then check_symbols path c (expected_symbol_kind c.kind)
          else add_if true (text (path ∷ ".kind" ∷ []))
              (text ("unsupported change kind " ∷ quote c.kind ∷ [])))

  unfoldable pub validate_changes : ℕ → List (String × ℕ) → List Change → List FieldError
  validate_changes index seen [] = []
  validate_changes index seen (c ∷ changes) =
      let path = text ("spec.changes[" ∷ show index ∷ "]" ∷ []) in
      check_id path c seen
      ++ check_change path c
      ++ validate_changes (index + 1) (see_id c index seen) changes

  -- `change.Metadata[key]`, the empty text for a missing key.
  unfoldable pub metadata_at : String → Option String → String
  metadata_at key (some v) = v
  metadata_at key none = ""

  unfoldable pub check_entry : String → String → String → List FieldError
  check_entry path key value =
      (if is_blank key
        then add_if true path "keys must not be blank"
        else add_if (ltb max_change_metadata_key_bytes (bytes key)) (text (path ∷ "." ∷ key ∷ []))
            (text ("key exceeds " ∷ show max_change_metadata_key_bytes ∷ " bytes" ∷ [])))
      ++ add_if (ltb max_change_metadata_val_bytes (bytes value)) (text (path ∷ "." ∷ key ∷ []))
          (text ("value exceeds " ∷ show max_change_metadata_val_bytes ∷ " bytes" ∷ []))

  unfoldable pub check_entries : String → Metadata → List String → List FieldError
  check_entries path m [] = []
  check_entries path m (key ∷ keys) =
      check_entry path key (metadata_at key (lookup key m)) ++ check_entries path m keys

  unfoldable pub check_metadata : String → Metadata → List FieldError
  check_metadata path m =
      add_if (ltb max_change_metadata_entries (length m)) path
        (text ("must contain no more than " ∷ show max_change_metadata_entries ∷ " entries" ∷ []))
      ++ check_entries path m (sort_by str_ltb (map (λ e. e.0) m))

  unfoldable pub validate_change_set_metadata : ℕ → List Change → List FieldError
  validate_change_set_metadata index [] = []
  validate_change_set_metadata index (c ∷ changes) =
      check_metadata (text ("spec.changes[" ∷ show index ∷ "].metadata" ∷ [])) c.metadata
      ++ validate_change_set_metadata (index + 1) changes

  -- The issues that `ValidateChangeSet` collects; `errOrNil` makes nil of none.
  unfoldable pub validate_change_set : ChangeSet → List FieldError
  validate_change_set s =
      add_if (not (s.api_version == change_set_api_version)) "apiVersion"
        (text ("must be " ∷ quote change_set_api_version ∷ []))
      ++ add_if (not (s.kind == change_set_kind)) "kind"
          (text ("must be " ∷ quote change_set_kind ∷ []))
      ++ add_if (is_blank s.name) "metadata.name" "is required"
      ++ validate_changes 0 [] s.changes
      ++ validate_change_set_metadata 0 s.changes

  unfoldable pub validate_migration : Migration → List FieldError
  validate_migration m =
      add_if (not (m.api_version == migration_api_version)) "apiVersion"
        (text ("must be " ∷ quote migration_api_version ∷ []))
      ++ add_if (not (m.kind == migration_kind)) "kind"
          (text ("must be " ∷ quote migration_kind ∷ []))
      ++ add_if (is_blank m.name) "metadata.name" "is required"
      ++ add_if (is_empty m.changes) "spec.changes" "must contain at least one change"
      ++ validate_changes 0 [] m.changes

  -- `NormalizeMigration`, with the issues of the validation that fails as its error.
  unfoldable pub normalize_migration : Migration → Result (List FieldError) ChangeSet
  normalize_migration m =
      let s : ChangeSet = record {
        api_version = change_set_api_version;
        kind = change_set_kind;
        name = m.name;
        description = m.description;
        changes = m.changes;
      } in
      if is_empty (validate_migration m)
      then (if is_empty (validate_change_set s) then ok s else err (validate_change_set s))
      else err (validate_migration m)
