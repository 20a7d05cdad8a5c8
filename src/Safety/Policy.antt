-- ===== src/Safety/Policy.antt =====
-- internal/safety/evaluator.go: policies, their validation, and the decision on one finding. The
-- map of impact rules is an association list.
pub mod Accepts
use telemetry_change_guard.Common.{
  ℕ, String, Bool, true, false, not, ◌&&◌, ◌||◌, Option, none, some, List, [], ◌∷◌, ◌==◌, map,
  if◌then◌else◌, ltb, str_ltb, sort_by, lookup, ◌≡◌,
}
use telemetry_change_guard.Domain.Criticality
use telemetry_change_guard.Impact.Kind
use telemetry_change_guard.Impact.Findings.{Finding}
use telemetry_change_guard.Safety.Action
use telemetry_change_guard.Safety.Mode

pub record ImpactRule : Type 0 where
  pub minimum_criticality : String
  pub action : String

pub record Policy : Type 0 where
  pub mode : String
  pub impacts : List (String × ImpactRule)

-- Which of the three formats the reason's text has, with what is put in.
pub data Reason : Type 0 where
  configured : String → String → Reason
  below_threshold : String → String → Reason
  not_enforced : String → Reason

pub record Decision : Type 0 where
  pub change_id : String
  pub consumer_id : String
  pub impact : String
  pub configured_action : String
  pub effective_action : String
  pub reason : Reason

pub data PolicyError : Type 0 where
  unsupported_mode unsupported_impact_rule : String → PolicyError
  unsupported_action unsupported_minimum : String → String → PolicyError

abbrev rule : String → String → ImpactRule
rule minimum action = record { minimum_criticality = minimum; action = action }

abbrev pub default_policy : Policy
default_policy = record {
  mode = Mode.enforce;
  impacts =
      (Kind.visibility_loss, rule Criticality.low Action.warn)
      ∷ (Kind.alerting_risk, rule Criticality.high Action.block)
      ∷ (Kind.slo_risk, rule Criticality.high Action.block)
      ∷ (Kind.scaling_risk, rule Criticality.high Action.block)
      ∷ (Kind.deployment_gate_risk, rule Criticality.high Action.block)
      ∷ (Kind.automation_risk, rule Criticality.high Action.block)
      ∷ (Kind.semantic_risk, rule Criticality.low Action.warn)
      ∷ [];
}

unfoldable pub valid_mode : String → Bool
valid_mode mode = mode == Mode.audit || mode == Mode.warn || mode == Mode.enforce

unfoldable pub valid_impact_type : String → Bool
valid_impact_type t =
    t == Kind.visibility_loss
    || t == Kind.alerting_risk
    || t == Kind.slo_risk
    || t == Kind.scaling_risk
    || t == Kind.deployment_gate_risk
    || t == Kind.automation_risk
    || t == Kind.semantic_risk

unfoldable pub valid_criticality : String → Bool
valid_criticality c =
    c == Criticality.low
    || c == Criticality.medium
    || c == Criticality.high
    || c == Criticality.critical

-- The body of the loop over the sorted keys.
unfoldable pub check_rule : String → ImpactRule → Option PolicyError
check_rule key r =
    if not (valid_impact_type key)
    then some (unsupported_impact_rule key)
    else if not (r.action == Action.warn) && not (r.action == Action.block)
    then some (unsupported_action key r.action)
    else if not (valid_criticality r.minimum_criticality)
    then some (unsupported_minimum key r.minimum_criticality)
    else none

abbrev no_rule : ImpactRule
no_rule = record { minimum_criticality = ""; action = "" }

-- `policy.Impacts[key]`, the zero rule for a missing key.
unfoldable pub rule_at : Policy → String → ImpactRule
rule_at p key = elim (lookup key p.impacts) [ some r ↦ r | none ↦ no_rule ]

unfoldable pub check_rules : Policy → List String → Option PolicyError
check_rules p [] = none
check_rules p (key ∷ keys) =
    let rest = check_rules p keys in
    elim (check_rule key (rule_at p key)) [ some e ↦ some e | none ↦ rest ]

unfoldable pub validate_policy : Policy → Option PolicyError
validate_policy p =
    if not (valid_mode p.mode)
    then some (unsupported_mode p.mode)
    else check_rules p (sort_by str_ltb (map (λ e. e.0) p.impacts))

-- `strings.ToLower` is a parameter of the standard library's text functions: `lower`.
module _ (lower : String → String) where
  unfoldable pub criticality_rank : String → ℕ
  criticality_rank value =
      if lower value == Criticality.critical
      then 4
      else if lower value == Criticality.high
      then 3
      else if lower value == Criticality.medium
      then 2
      else if lower value == Criticality.low
      then 1
      else 0

  abbrev pub default_rule : ImpactRule
  default_rule = rule Criticality.low Action.warn

  unfoldable pub rule_for : Policy → String → ImpactRule
  rule_for p impact = elim (lookup impact p.impacts) [ some r ↦ r | none ↦ default_rule ]

  -- The first of the two tests that can lower a rule's action.
  unfoldable pub threshold_step : ImpactRule → Finding → String × Reason
  threshold_step r f =
      if ltb (criticality_rank f.criticality) (criticality_rank r.minimum_criticality)
      then (Action.warn, below_threshold f.criticality r.minimum_criticality)
      else (r.action, configured r.action f.impact)

  unfoldable pub decide : Policy → Finding → Decision
  decide p f =
      let r = rule_for p f.impact in
      let (action, why) = threshold_step r f in
      let softened = not (p.mode == Mode.enforce) && action == Action.block in
      record {
        change_id = f.change.id;
        consumer_id = f.consumer.id;
        impact = f.impact;
        configured_action = r.action;
        effective_action = if softened then Action.warn else action;
        reason = if softened then not_enforced p.mode else why;
      }
