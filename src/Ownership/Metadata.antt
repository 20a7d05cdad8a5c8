-- ===== src/Ownership/Metadata.antt =====
-- internal/ownership/metadata.go: the rules of a metadata document. `trim` is strings.TrimSpace, `quote` the
-- verb %q, `show` the verb %d.
use telemetry_change_guard.Common.{
  ℕ, suc, String, Bool, true, not, ◌&&◌, ◌||◌, Option, none, some, List, [], ◌∷◌, Result, ok, err,
  ◌>>=◌, ◌>>◌, refuse, ◌==◌, if◌then◌else◌, ltb, is_empty, has, codes, join,
}
use telemetry_change_guard.Config.{bytes}
use telemetry_change_guard.Domain.{Owner, Consumer}
use telemetry_change_guard.Domain.ConsumerKind
use telemetry_change_guard.Manifest.{Decoding, at_end, broken, only, followed, spoiled}
use telemetry_change_guard.Ownership.Patterns.{
  Part, compile_path_matcher, match_path, utf8, pattern_message,
}

abbrev pub metadata_api_version : String
metadata_api_version = "tmr.ownership/v1alpha1"

abbrev pub metadata_kind : String
metadata_kind = "Ownership"

abbrev pub max_metadata_bytes : ℕ
max_metadata_bytes = 1048576

pub record MetadataMatchDocument : Type 0 where
  pub path : String
  pub consumer_id : String
  pub consumer_kind : String
  pub dashboard_tag : String

pub record MetadataRuleDocument : Type 0 where
  pub id : String
  pub selectors : MetadataMatchDocument
  pub owner : Owner

pub record MetadataDocument : Type 0 where
  pub api_version : String
  pub kind : String
  pub rules : List MetadataRuleDocument

pub record MetadataRule : Type 0 where
  pub id : String
  pub path : Option (List Part)
  pub consumer_id : String
  pub consumer_kind : String
  pub dashboard_tag : String
  pub owner : Owner
  pub source : String

unfoldable pub valid_consumer_kind : String → Bool
valid_consumer_kind kind = has kind (
    ConsumerKind.dashboard ∷ ConsumerKind.dashboard_panel ∷ ConsumerKind.alert_rule
    ∷ ConsumerKind.recording_rule ∷ ConsumerKind.slo ∷ ConsumerKind.collector ∷ ConsumerKind.query
    ∷ ConsumerKind.source_code ∷ ConsumerKind.runbook ∷ ConsumerKind.autoscaler
    ∷ ConsumerKind.deployment_gate ∷ ConsumerKind.automation ∷ [])

-- `containsExact`
unfoldable pub contains_exact : List String → String → Bool
contains_exact values expected = has expected values

-- The path of a rule; no path is no matcher.
unfoldable pub rule_path : String → String → Result String (Option (List Part))
rule_path prefix path = if path == "" then ok none else elim (compile_path_matcher (utf8 path)) [
  | err e ↦ err (join "" (prefix ∷ ".match.path: " ∷ pattern_message e ∷ []))
  | ok matcher ↦ ok (some matcher)
]

module _ (trim quote : String → String) (show : ℕ → String) where
  -- One turn of the loop over the rules, given the identifiers of the rules before.
  unfoldable pub parse_rule :
      String → ℕ → List String → MetadataRuleDocument → Result String MetadataRule
  parse_rule source index ids d =
      let prefix = join "" ("spec.rules[" ∷ show index ∷ "]" ∷ []) in
      let id = trim d.id in
      let path = trim d.selectors.path in
      let consumer_id = trim d.selectors.consumer_id in
      let kind = trim d.selectors.consumer_kind in
      let tag = trim d.selectors.dashboard_tag in
      let name = trim d.owner.name in
      do
        refuse (id == "") (join "" (prefix ∷ ".id is required" ∷ []))
        refuse (has id ids) (join "" (prefix ∷ ".id " ∷ quote id ∷ " is duplicated" ∷ []))
        refuse (path == "" && consumer_id == "" && kind == "" && tag == "")
            (join "" (prefix ∷ ".match must configure at least one selector" ∷ []))
        matcher ← rule_path prefix path
        refuse (not (kind == "") && not (valid_consumer_kind kind))
            (join "" (prefix ∷ ".match.consumerKind " ∷ quote kind ∷ " is not supported" ∷ []))
        refuse (name == "") (join "" (prefix ∷ ".owner.name is required" ∷ []))
        ok (record {
          id = id;
          path = matcher;
          consumer_id = consumer_id;
          consumer_kind = kind;
          dashboard_tag = tag;
          owner = record { name = name; email = trim d.owner.email };
          source = source;
        })

  unfoldable pub parse_rules :
      String → ℕ → List String → List MetadataRuleDocument → Result String (List MetadataRule)
  parse_rules source index ids [] = ok []
  parse_rules source index ids (d ∷ ds) = do
    r ← parse_rule source index ids d
    rs ← parse_rules source (suc index) (r.id ∷ ids) ds
    ok (r ∷ rs)

  unfoldable pub check_document : String → MetadataDocument → Result String (List MetadataRule)
  check_document source d = do
    refuse (not (d.api_version == metadata_api_version))
        (join "" ("apiVersion must be " ∷ quote metadata_api_version ∷ []))
    refuse (not (d.kind == metadata_kind)) (join "" ("kind must be " ∷ quote metadata_kind ∷ []))
    refuse (is_empty d.rules) "spec.rules must contain at least one rule"
    parse_rules source 0 [] d.rules

  -- The two calls of Decode; `reason` is the text of the decoder's error.
  unfoldable pub sole_document : String → Decoding MetadataDocument → Result String MetadataDocument
  sole_document reason at_end = err "ownership metadata is empty"
  sole_document reason broken = err (join "" ("decode ownership metadata: " ∷ reason ∷ []))
  sole_document reason (only d) = ok d
  sole_document reason (followed d) =
      err "ownership metadata must contain exactly one YAML document"
  sole_document reason (spoiled d) =
      err (join "" ("decode trailing ownership metadata: " ∷ reason ∷ []))

  -- The second argument is what the reader gives, the first the decoder and the text of its error.
  unfoldable pub parse_metadata :
      (String → Decoding MetadataDocument × String)
      → String
      → Result String String
      → Result String (List MetadataRule)
  parse_metadata decode source (err e) = err (join "" ("read ownership metadata: " ∷ e ∷ []))
  parse_metadata decode source (ok contents) = do
    refuse (ltb max_metadata_bytes (bytes contents)) (
        join ""
          ("ownership metadata exceeds the " ∷ show max_metadata_bytes ∷ "-byte size limit" ∷ []))
    d ← sole_document (decode contents).1 (decode contents).0
    check_document source d

unfoldable pub matches :
    (List Part → List ℕ → Bool) → MetadataRule → Consumer → String → List String → Bool
matches run r c path tags =
    elim r.path [ none ↦ true | some matcher ↦ match_path run matcher (codes path) ]
    && (r.consumer_id == "" || r.consumer_id == c.id)
    && (r.consumer_kind == "" || r.consumer_kind == c.kind)
    && (r.dashboard_tag == "" || contains_exact tags r.dashboard_tag)
