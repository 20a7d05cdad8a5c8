-- ===== src/Ownership/Evidence.antt =====
-- internal/ownership/ownership.go: evidence of an owner, the choice between two pieces of it, and what
-- it changes of a consumer.
use telemetry_change_guard.Common.{
  ℕ, zero, suc, String, Bool, false, not, ◌||◌, Option, none, some, List, [], ◌∷◌, ◌==◌,
  if◌then◌else◌, ltb, length, is_empty, keep, has, str_ltb, sort_by, assign, join, codes,
}
use telemetry_change_guard.Domain.{Owner, Consumer, Metadata}
use telemetry_change_guard.Ownership.Patterns.{starts_with}

abbrev pub metadata_source_key : String
metadata_source_key = "ownership.source"

abbrev pub metadata_confidence_key : String
metadata_confidence_key = "ownership.confidence"

abbrev pub metadata_rule_key : String
metadata_rule_key = "ownership.rule"

abbrev pub metadata_candidates_key : String
metadata_candidates_key = "ownership.candidates"

abbrev pub metadata_ambiguous_key : String
metadata_ambiguous_key = "ownership.ambiguous"

abbrev pub metadata_unassigned_key : String
metadata_unassigned_key = "ownership.unassigned"

abbrev pub dashboard_tags_key : String
dashboard_tags_key = "dashboard_tags"

abbrev pub source_explicit_metadata : String
source_explicit_metadata = "tmr_metadata"

abbrev pub source_codeowners : String
source_codeowners = "github_codeowners"

abbrev pub source_dashboard_tags : String
source_dashboard_tags = "grafana_tags"

abbrev pub source_adapter : String
source_adapter = "adapter"

abbrev pub confidence_confirmed : String
confidence_confirmed = "confirmed"

abbrev pub confidence_high : String
confidence_high = "high"

abbrev pub confidence_medium : String
confidence_medium = "medium"

-- `evidence`
pub record Selected : Type 0 where
  pub owner : Option Owner
  pub candidates : List String
  pub source : String
  pub confidence : String
  pub rule : String
  pub ambiguous : Bool
  pub unassigned : Bool
  pub rank : ℕ

-- The zero value.
abbrev pub no_evidence : Selected
no_evidence = record {
  owner = none;
  candidates = [];
  source = "";
  confidence = "";
  rule = "";
  ambiguous = false;
  unassigned = false;
  rank = 0;
}

unfoldable pub choose_evidence : Selected → Selected → Selected
choose_evidence current candidate = if ltb current.rank candidate.rank then candidate else current

unfoldable pub existing_owner_evidence : Option Owner → Selected
existing_owner_evidence none = no_evidence
existing_owner_evidence (some owner) = record no_evidence {
  owner = some owner;
  source = source_adapter;
  confidence = confidence_confirmed;
  rank = 3;
}

-- The owner that a list of names stands for.
unfoldable pub sole_owner : List String → Option Owner
sole_owner (name ∷ []) = some (record { name = name; email = "" })
sole_owner _ = none

-- `delete(m, key)`
unfoldable pub delete : String → Metadata → Metadata
delete key m = keep (λ e. not (e.0 == key)) m

unfoldable pub delete_all : List String → Metadata → Metadata
delete_all [] m = m
delete_all (key ∷ keys) m = delete_all keys (delete key m)

abbrev pub ownership_keys : List String
ownership_keys =
    metadata_source_key ∷ metadata_confidence_key ∷ metadata_rule_key ∷ metadata_candidates_key
    ∷ metadata_ambiguous_key ∷ metadata_unassigned_key ∷ []

-- `if test { m[key] = value }`
unfoldable pub assign_if : Bool → String → String → Metadata → Metadata
assign_if test key value m = if test then assign key value m else m

-- A text without its first characters. The prefixes that are cut off are ASCII.
unfoldable pub drop : ℕ → String → String
drop zero s = s
drop (suc n) String.[] = ""
drop (suc n) (String.◌∷◌ c s) = drop n s

module _ (trim lower : String → String) where
  -- The first prefix that a tag has, cut off; the prefixes are tried in order.
  unfoldable pub without_prefix : String → List String → Option String
  without_prefix tag [] = none
  without_prefix tag (prefix ∷ prefixes) =
      let rest = without_prefix tag prefixes in
      if starts_with (codes (lower tag)) (codes prefix)
      then some (trim (drop (length (codes prefix)) tag))
      else rest

  -- `owners[name] = struct{}{}`, for a tag that names an owner.
  unfoldable pub add_name : Option String → List String → List String
  add_name none names = names
  add_name (some name) names = if name == "" || has name names then names else name ∷ names

  unfoldable pub tag_names : List String → List String
  tag_names [] = []
  tag_names (tag ∷ tags) =
      add_name (without_prefix (trim tag) ("team:" ∷ "owner:" ∷ "owned-by:" ∷ [])) (tag_names tags)

  unfoldable pub tag_evidence : List String → Selected
  tag_evidence tags =
      let candidates = sort_by str_ltb (tag_names tags) in
      if is_empty candidates then no_evidence else record {
        owner = sole_owner candidates;
        candidates = candidates;
        source = source_dashboard_tags;
        confidence = confidence_medium;
        rule = join ", " candidates;
        ambiguous = ltb 1 (length candidates);
        unassigned = false;
        rank = 1;
      }

module _ (encode : List String → String) where
  -- The metadata after `applyEvidence`.
  unfoldable pub evidence_metadata : Selected → Metadata → Metadata
  evidence_metadata e m = assign_if e.unassigned metadata_unassigned_key "true" (
      assign_if e.ambiguous metadata_ambiguous_key "true" (
        assign_if (ltb 1 (length e.candidates) || e.ambiguous) metadata_candidates_key
          (encode e.candidates)
          (assign_if (not (e.rule == "")) metadata_rule_key e.rule (
            assign metadata_confidence_key e.confidence
              (assign metadata_source_key e.source (delete_all ownership_keys m))))))

  unfoldable pub apply_evidence : Consumer → Selected → Consumer
  apply_evidence c e =
      if ltb 0 e.rank
      then record c { owner = e.owner; metadata = evidence_metadata e c.metadata }
      else record c { metadata = delete_all ownership_keys c.metadata }
