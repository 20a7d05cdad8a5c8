-- ===== src/Examples/Safe.antt =====
-- The theorems on the safety policy at concrete inputs.
use telemetry_change_guard.Common.{
  ◌≡◌, refl, ◌↔◌, ◌≢◌, String, true, false, none, some, List, [], ◌∷◌, Permᴰ, All, Distinct, lookup,
  sort_by, insert_by, str_ltb, codes_ltb,
}
use telemetry_change_guard.Domain.{Diagnostic}
use telemetry_change_guard.Impact.Kind
use telemetry_change_guard.Impact.Findings.{Finding}
use telemetry_change_guard.Safety.Status
use telemetry_change_guard.Safety.Mode
use telemetry_change_guard.Safety.Policy.{
  ImpactRule, default_policy, validate_policy, valid_mode, valid_impact_type, valid_criticality,
  check_rule, check_rules, rule_at,
}
use telemetry_change_guard.Safety.Policy.Accepts.{IsUsable, validate_policy_iff}
use telemetry_change_guard.Safety.Evaluate.{validate_findings, finding_key, evaluate, exit_code}
use telemetry_change_guard.Safety.Evaluate.Orderless.{IsSound, validate_findings-perm_iff}
use telemetry_change_guard.Safety.Evaluate.Verdict.{result, IsAccepted}
use telemetry_change_guard.Safety.Evaluate.Statuses.{
  IsUnproven, HasBlocked, evaluate_incomplete_iff, evaluate_block_iff, evaluate_pass_iff,
}
use telemetry_change_guard.Safety.Evaluate.Keeps.{
  Keeps, evaluate-Keeps, evaluate-error_iff, exit_code_zero, evaluate-status_perm,
}
use telemetry_change_guard.Examples.{no_source, alert, removal, removals, reads}

abbrev same_text : String → String
same_text s = s

abbrev risk : Finding
risk = record {
  change = removal;
  consumer = record {
    id = alert.id;
    kind = alert.kind;
    name = alert.name;
    criticality = alert.criticality;
    source = alert.source;
  };
  impact = Kind.alerting_risk;
  criticality = alert.criticality;
  uncertain = false;
  references = reads ∷ [];
  paths = [];
}

abbrev other_risk : Finding
other_risk = record risk { change = record removal { id = "drop-again" } }

abbrev lost_file : Diagnostic
lost_file = record {
  adapter = "grafana";
  source = no_source;
  message = "unreadable";
  required = true;
}

abbrev no_diagnostics : List Diagnostic
no_diagnostics = []

validate_policy_iff_example : (validate_policy default_policy ≡ none) ↔ (
    (valid_mode default_policy.mode ≡ true)
    × ((k : String) (r : ImpactRule) → lookup k default_policy.impacts ≡ some r → IsUsable k r))
validate_policy_iff_example = validate_policy_iff default_policy

swapped : Permᴰ (risk ∷ other_risk ∷ []) (other_risk ∷ risk ∷ [])
swapped = Permᴰ.swap refl refl

validate_findings-perm_iff_example :
    (validate_findings (other_risk ∷ risk ∷ []) ≡ none)
    ↔ (All IsSound (risk ∷ other_risk ∷ []) × Distinct finding_key (risk ∷ other_risk ∷ []))
validate_findings-perm_iff_example =
    validate_findings-perm_iff (risk ∷ other_risk ∷ []) (other_risk ∷ risk ∷ []) swapped

evaluate_incomplete_iff_example :
    ((result same_text removals (risk ∷ []) (lost_file ∷ []) default_policy).status
      ≡ Status.incomplete)
    ↔ (IsAccepted same_text removals (risk ∷ []) (lost_file ∷ []) default_policy
        × IsUnproven (risk ∷ []) (lost_file ∷ []))
evaluate_incomplete_iff_example =
    evaluate_incomplete_iff same_text removals (risk ∷ []) (lost_file ∷ []) default_policy

evaluate_block_iff_example :
    ((result same_text removals (risk ∷ []) [] default_policy).status ≡ Status.block) ↔ (
      IsAccepted same_text removals (risk ∷ []) [] default_policy
      × (¬ IsUnproven (risk ∷ []) [])
      × (default_policy.mode ≡ Mode.enforce)
      × HasBlocked same_text default_policy (risk ∷ []))
evaluate_block_iff_example = evaluate_block_iff same_text removals (risk ∷ []) [] default_policy

evaluate_pass_iff_example :
    ((result same_text removals (risk ∷ []) no_diagnostics default_policy).status ≡ Status.pass) ↔ (
      IsAccepted same_text removals (risk ∷ []) no_diagnostics default_policy
      × ((risk ∷ []) ≡ [])
      × (no_diagnostics ≡ []))
evaluate_pass_iff_example =
    evaluate_pass_iff same_text removals (risk ∷ []) no_diagnostics default_policy

evaluate-Keeps_example :
    Keeps
      (risk ∷ [])
      (lost_file ∷ [])
      (result same_text removals (risk ∷ []) (lost_file ∷ []) default_policy)
evaluate-Keeps_example =
    evaluate-Keeps same_text removals (risk ∷ []) (lost_file ∷ []) default_policy

evaluate-error_iff_example :
    (((evaluate same_text removals (risk ∷ risk ∷ []) [] default_policy).1 ≢ none)
      ↔ ((result same_text removals (risk ∷ risk ∷ []) [] default_policy).status ≡ Status.error))
    × (((result same_text removals (risk ∷ risk ∷ []) [] default_policy).status ≡ Status.error)
        ↔ (¬ IsAccepted same_text removals (risk ∷ risk ∷ []) [] default_policy))
evaluate-error_iff_example =
    evaluate-error_iff same_text removals (risk ∷ risk ∷ []) [] default_policy

accepts_default : validate_policy default_policy ≡ none
unfolding validate_policy valid_mode valid_impact_type valid_criticality check_rule check_rules
    rule_at lookup sort_by insert_by str_ltb codes_ltb
accepts_default = refl

no_findings_pass : (result same_text removals [] [] default_policy).status ≡ Status.pass
no_findings_pass =
    (evaluate_pass_iff same_text removals [] [] default_policy).1
      ((accepts_default, (tt, tt)), refl, refl)

exit_code_zero_example :
    IsAccepted same_text removals [] [] default_policy
    × (¬ IsUnproven [] [])
    × (default_policy.mode ≡ Mode.enforce → ¬ HasBlocked same_text default_policy [])
unfolding exit_code
exit_code_zero_example =
    exit_code_zero same_text removals [] [] default_policy (rw no_findings_pass refl)

evaluate-status_perm_example :
    (result same_text removals (risk ∷ other_risk ∷ []) [] default_policy).status
    ≡ (result same_text removals (other_risk ∷ risk ∷ []) [] default_policy).status
evaluate-status_perm_example =
    evaluate-status_perm same_text removals default_policy (Permᴰ.swap refl refl) Permᴰ.nil
