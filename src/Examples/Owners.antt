-- ===== src/Examples/Owners.antt =====
-- The theorems on ownership at concrete inputs.
use telemetry_change_guard.Common.{
  ℕ, String, true, false, Option, some, none, List, [], ◌∷◌, ◌++◌, ◌≡◌, ◌↔◌, ◌||◌, refl, ok, err,
  any, ◌<◌, All, arith,
}
use telemetry_change_guard.Graph.{Graph}
use telemetry_change_guard.Impact.Build.{build_graph}
use telemetry_change_guard.Impact.Findings.{analyze}
use telemetry_change_guard.Safety.Policy.{default_policy}
use telemetry_change_guard.Safety.Evaluate.{evaluate, exit_code}
use telemetry_change_guard.Manifest.{at_end}
use telemetry_change_guard.Ownership.Patterns.{
  optional_directories, optional_below, expression, has_slash, is_wildcard, codes_utf8,
}
use telemetry_change_guard.Ownership.Patterns.Literal.{Language, IsOf, expression-literal_iff}
use telemetry_change_guard.Ownership.Evidence.{existing_owner_evidence, tag_evidence}
use telemetry_change_guard.Ownership.Rules.{CodeownersRule, evidence_from_codeowners}
use telemetry_change_guard.Ownership.Metadata.{MetadataRule, matches}
use telemetry_change_guard.Ownership.Outside.{Texts, Files, missing}
use telemetry_change_guard.Ownership.Loading.{OwnershipConfig}
use telemetry_change_guard.Ownership.Loading.Codeowners.{CodeownersEvidence}
use telemetry_change_guard.Ownership.Enrich.{
  enrich, select_evidence, dashboard_tags, metadata_evidence,
}
use telemetry_change_guard.Ownership.Enrich.Precedence.{
  last_match, or_else, owning_rule, select_evidence_lem,
}
use telemetry_change_guard.Neutral.Verdict.{enrich-exit_code}
use telemetry_change_guard.Examples.{alert, removals, site, site_graph}
use telemetry_change_guard.Examples.Graphs.{built}

abbrev same_text : String → String
same_text s = s

abbrev pub texts : Texts
texts = record {
  trim = same_text;
  lower = same_text;
  quote = same_text;
  show = λ n. "0";
  fields = λ s. s ∷ [];
  scan = λ s. (s ∷ [], none);
  is_github_owner = λ s. true;
  is_email_owner = λ s. false;
  run = λ parts s. true;
  decode = λ s. (at_end, "");
  encode_names = λ names. "[]";
  decode_names = λ s. none;
  parse_bool = λ s. none;
}

-- An empty repository.
abbrev pub files : Files Unit
files = record {
  poll = λ s. (s, none);
  absolute = λ s. ok s;
  clean = same_text;
  is_absolute = λ s. true;
  relative = λ root s. ok s;
  to_slash = same_text;
  eval_symlinks = λ s. ok s;
  joined = λ root s. s;
  stat = λ s. missing;
  budgeted = false;
  expand = λ s pattern. (s, ok []);
  read = λ s path. (s, err "no file");
  register = λ s path. (s, ok path);
}

abbrev pub owners : OwnershipConfig
owners = record {
  enabled = true;
  repository_root = "repository";
  metadata = "owners.yaml" ∷ [];
  codeowners = record { enabled = true; path = "CODEOWNERS" };
  dashboard_tags = true;
}

abbrev alert_rules : MetadataRule
alert_rules = record {
  id = "alerts";
  path = none;
  consumer_id = "alert";
  consumer_kind = "";
  dashboard_tag = "";
  owner = record { name = "observability"; email = "" };
  source = "owners.yaml";
}

abbrev team_rule : CodeownersRule
team_rule = record {
  pattern = "*";
  matcher = [];
  owners = (record { name = "@team"; email = "" }) ∷ [];
  line = 1;
}

abbrev codeowners : Option CodeownersEvidence
codeowners = some (record { path = "CODEOWNERS"; rules = team_rule ∷ [] })

select_evidence_lem_example :
    select_evidence texts true codeowners (alert_rules ∷ []) "rules/alert.yaml" alert
    ≡ or_else
        (last_match
          (λ r. matches texts.run r alert "rules/alert.yaml" (dashboard_tags texts alert))
          (alert_rules ∷ []))
        metadata_evidence
        (or_else alert.owner
          (λ o. existing_owner_evidence (some o))
          (or_else
            (owning_rule texts codeowners "rules/alert.yaml")
            (λ r. evidence_from_codeowners texts.show r.0 r.1)
            (tag_evidence same_text same_text (dashboard_tags texts alert))))
select_evidence_lem_example =
    select_evidence_lem texts true codeowners (alert_rules ∷ []) "rules/alert.yaml" alert

enrich-exit_code_example :
    (g : Graph) × (build_graph (enrich texts files owners tt site).1 ≡ ok g)
    × (analyze removals (enrich texts files owners tt site).1 (some g) true
        ≡ analyze removals site (some site_graph) true)
    × (exit_code
          (evaluate same_text removals
            (analyze removals (enrich texts files owners tt site).1 (some g) true).0
            (enrich texts files owners tt site).1.diagnostics
            default_policy).0.status
        ≡ exit_code
            (evaluate same_text removals
              (analyze removals site (some site_graph) true).0
              []
              default_policy).0.status)
enrich-exit_code_example =
    enrich-exit_code texts files owners tt same_text removals site site_graph true default_policy
      built

-- The pattern `ab`.
plain : any is_wildcard (97 ∷ 98 ∷ []) ≡ false
plain = refl

ascii : All (λ c. c < 128) (97 ∷ 98 ∷ [])
ascii = omega arith

expression-literal_iff_example :
    Language (expression false false (codes_utf8 (97 ∷ 98 ∷ []))) (99 ∷ 47 ∷ 97 ∷ 98 ∷ []) ↔ (
      (directories : List ℕ) × (below : List ℕ) × (99 ∷ 47 ∷ 97 ∷ 98 ∷ []
        ≡ directories ++ (97 ∷ 98 ∷ []) ++ below)
      × IsOf optional_directories directories
      × IsOf optional_below below
      × (false || has_slash (97 ∷ 98 ∷ []) ≡ true → directories ≡ []))
expression-literal_iff_example =
    expression-literal_iff false false (97 ∷ 98 ∷ []) (99 ∷ 47 ∷ 97 ∷ 98 ∷ []) ascii plain
