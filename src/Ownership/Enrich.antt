-- ===== src/Ownership/Enrich.antt =====
-- internal/ownership/ownership.go: `Enrich` and `EnrichWithBudget`, for a discovery that is present, and
-- what reads the evidence later.
pub mod Precedence
pub mod Keeps
use telemetry_change_guard.Common.{
  String, Bool, true, false, ◌||◌, Option, none, some, List, [], ◌∷◌, ◌++◌, ok, err, ◌==◌, map,
  if◌then◌else◌, has, lookup, sort_by, str_ltb, join,
}
use telemetry_change_guard.Domain.{Consumer, Discovery, Metadata}
use telemetry_change_guard.Ownership.Evidence.{
  Selected, metadata_candidates_key, metadata_ambiguous_key, metadata_unassigned_key,
  dashboard_tags_key, source_explicit_metadata, confidence_confirmed, delete, choose_evidence,
  existing_owner_evidence, tag_evidence, apply_evidence,
}
use telemetry_change_guard.Ownership.Rules.{matching_codeowners_rule, evidence_from_codeowners}
use telemetry_change_guard.Ownership.Metadata.{MetadataRule, matches}
use telemetry_change_guard.Ownership.Outside.{Texts, Files}
use telemetry_change_guard.Ownership.Loading.{
  OwnershipConfig, ownership_diagnostic, repository_relative_path, load_metadata_rules,
}
use telemetry_change_guard.Ownership.Loading.Codeowners.{CodeownersEvidence, load_codeowners}

-- `m[key]`, the empty text for a key that is missing
abbrev value_at : String → Metadata → String
value_at key m = elim (lookup key m) [ none ↦ "" | some v ↦ v ]

-- The loop that trims names and drops blank and repeated ones, given the names before.
unfoldable pub distinct : (String → String) → List String → List String → List String
distinct trim seen [] = []
distinct trim seen (raw ∷ raws) =
    let name = trim raw in
    let skip = distinct trim seen raws in
    let take = distinct trim (name ∷ seen) raws in
    if name == "" || has name seen then skip else name ∷ take

-- `delete(consumer.Metadata, DashboardTagsKey)`
unfoldable pub forget_tags : Consumer → Consumer
forget_tags c = record c { metadata = delete dashboard_tags_key c.metadata }

abbrev pub metadata_evidence : MetadataRule → Selected
metadata_evidence r = record {
  owner = some r.owner;
  candidates = [];
  source = source_explicit_metadata;
  confidence = confidence_confirmed;
  rule = join "" (r.source ∷ "#" ∷ r.id ∷ []);
  ambiguous = false;
  unassigned = false;
  rank = 4;
}

module _ (t : Texts) where
  unfoldable pub dashboard_tags : Consumer → List String
  dashboard_tags c =
      if value_at dashboard_tags_key c.metadata == ""
      then []
      else elim (t.decode_names (value_at dashboard_tags_key c.metadata)) [
        | none ↦ []
        | some tags ↦ sort_by str_ltb (distinct t.trim [] tags)
      ]

  unfoldable pub candidates : Consumer → List String
  candidates c = elim (t.decode_names (value_at metadata_candidates_key c.metadata)) [
    | none ↦ []
    | some names ↦ sort_by str_ltb (distinct t.trim [] names)
  ]

  unfoldable pub metadata_bool : Consumer → String → Bool
  metadata_bool c key = elim (t.parse_bool (value_at key c.metadata)) [ none ↦ false | some b ↦ b ]

  unfoldable pub is_ambiguous : Consumer → Bool
  is_ambiguous c = metadata_bool c metadata_ambiguous_key

  unfoldable pub is_unassigned : Consumer → Bool
  is_unassigned c = metadata_bool c metadata_unassigned_key

  -- The loop over the metadata rules.
  unfoldable pub select_metadata :
      Selected → List MetadataRule → Consumer → String → List String → Selected
  select_metadata e [] c path tags = e
  select_metadata e (r ∷ rs) c path tags =
      select_metadata (if matches t.run r c path tags then metadata_evidence r else e) rs c path
        tags

  unfoldable pub select_codeowners : Selected → Option CodeownersEvidence → String → Selected
  select_codeowners e none path = e
  select_codeowners e (some o) path =
      if path == "" then e else elim (matching_codeowners_rule t.run o.rules path) [
        | none ↦ e
        | some r ↦ choose_evidence e (evidence_from_codeowners t.show o.path r)
      ]

  -- The evidence that the body of the loop over the consumers selects.
  unfoldable pub select_evidence :
      Bool → Option CodeownersEvidence → List MetadataRule → String → Consumer → Selected
  select_evidence with_tags codeowners rules path c =
      let tags = dashboard_tags c in
      let own = existing_owner_evidence c.owner in
      let tagged =
        if with_tags then choose_evidence own (tag_evidence t.trim t.lower tags) else own in
      select_metadata (select_codeowners tagged codeowners path) rules c path tags

  module _ {S : Type 0} (files : Files S) where
    unfoldable pub enrich_consumer :
        OwnershipConfig
        → String
        → Option CodeownersEvidence
        → List MetadataRule
        → Consumer
        → Consumer
    enrich_consumer config root codeowners rules c = apply_evidence t.encode_names c (
        select_evidence config.dashboard_tags codeowners rules
          (repository_relative_path t files root c.source.file) c)

    -- The state and the consumers after the loop, and its error.
    unfoldable pub enrich_consumers :
        OwnershipConfig
        → String
        → Option CodeownersEvidence
        → List MetadataRule
        → S
        → List Consumer
        → S × List Consumer × Option String
    enrich_consumers config root codeowners rules s [] = (s, [], none)
    enrich_consumers config root codeowners rules s (c ∷ cs) =
        let r = files.poll s in
        let rest = enrich_consumers config root codeowners rules r.0 cs in
        elim r.1 [
          | some e ↦ (r.0, c ∷ cs, some e)
          | none ↦ (rest.0, enrich_consumer config root codeowners rules c ∷ rest.1, rest.2)
        ]

    unfoldable pub enrich_in :
        OwnershipConfig → String → S → Discovery → S × Discovery × Option String
    enrich_in config root s d =
        let loaded = load_metadata_rules t files root config.metadata s in
        let (s', codeowners, issues) =
          load_codeowners t files root config.codeowners loaded.state in
        let enriched = enrich_consumers config root codeowners loaded.rules s' d.consumers in
        (
          enriched.0,
          record d {
            consumers = enriched.1;
            diagnostics = d.diagnostics ++ loaded.diagnostics ++ issues;
          },
          enriched.2,
        )

    -- The state and the discovery after `EnrichWithBudget`, and its error.
    unfoldable pub enrich : OwnershipConfig → S → Discovery → S × Discovery × Option String
    enrich config s d =
        let r = files.poll s in
        elim config.enabled [
          | false ↦ (s, record d { consumers = map forget_tags d.consumers }, none)
          | true ↦ elim r.1 [
            | some e ↦ (r.0, d, some e)
            | none ↦ elim (files.absolute config.repository_root) [
              | err e ↦ (
                r.0,
                record d {
                  diagnostics =
                      d.diagnostics
                      ++ (ownership_diagnostic "ownership" config.repository_root 0 e ∷ []);
                },
                none,
              )
              | ok root ↦ enrich_in config (files.clean root) r.0 d
            ]
          ]
        ]
