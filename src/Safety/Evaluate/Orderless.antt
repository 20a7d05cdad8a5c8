-- ===== src/Safety/Evaluate/Orderless.antt =====
-- internal/safety/evaluator.go, `validateFindings`: which findings it accepts, in whatever order they come.
use telemetry_change_guard.Common.{
  String, Bool, true, false, none, List, ◌≡◌, ◌≢◌, refl, ◌↔◌, ◌⊎◌, inl, inr, arith, Permᴰ,
  Permᴰ-sym, All, Distinct, eq_iff, Result, ok, err, Result-cases, if◌then◌else◌, ◌==◌, ◌||◌, ◌&&◌,
  All_member, All-of_members,
}
use telemetry_change_guard.Domain.Criticality
use telemetry_change_guard.Impact.{ImpactError, unmapped_kind}
use telemetry_change_guard.Impact.Findings.{Finding, type_for_consumer}
use telemetry_change_guard.Impact.Kind
use telemetry_change_guard.Safety.Policy.{valid_impact_type, valid_criticality}
use telemetry_change_guard.Safety.Evaluate.{check_finding, validate_findings, finding_key}
use telemetry_change_guard.Safety.Evaluate.Validation.{AreValid-perm, accepted_iff}

-- What a finding has to say: its change and its consumer, the impact of the consumer's kind, the criticality
-- of the consumer, and one of the four criticalities unless it is uncertain and has none.
pub record IsSound (f : Finding) : Type 0 where
  pub change_named : f.change.id ≢ ""
  pub consumer_named : f.consumer.id ≢ ""
  pub impact_of_kind : type_for_consumer f.consumer.kind ≡ ok f.impact
  pub same_criticality : f.consumer.criticality ≡ f.criticality
  pub known_criticality :
      (f.criticality ≡ Criticality.low)
      ⊎ (f.criticality ≡ Criticality.medium)
      ⊎ (f.criticality ≡ Criticality.high)
      ⊎ (f.criticality ≡ Criticality.critical)
      ⊎ ((f.criticality ≡ "") × (f.uncertain ≡ true))

-- One branch of a chain of tests whose results are valid.
branch :
    (test : Bool) (impact answer : String) (rest : Result ImpactError String)
    → valid_impact_type impact ≡ true
    → (rest ≡ ok answer → valid_impact_type answer ≡ true)
    → (if test then ok impact else rest) ≡ ok answer
    → valid_impact_type answer ≡ true
branch true impact answer rest v f h = let same : impact ≡ answer = cc h in rw same at v
branch false impact answer rest v f h = f h

type_for_consumer-valid :
    (kind answer : String) → type_for_consumer kind ≡ ok answer → valid_impact_type answer ≡ true
unfolding type_for_consumer valid_impact_type
type_for_consumer-valid kind answer = branch _ Kind.visibility_loss answer _ refl (
    branch _ Kind.alerting_risk answer _ refl (
      branch _ Kind.slo_risk answer _ refl (
        branch _ Kind.scaling_risk answer _ refl (
          branch _ Kind.deployment_gate_risk answer _ refl (
            branch _ Kind.automation_risk answer _ refl
              (branch _ Kind.semantic_risk answer (err (unmapped_kind kind)) refl (λ h. cc h)))))))

known_iff :
    (c : String) (uncertain : Bool)
    → ((valid_criticality c || (c == "" && uncertain)) ≡ true) ↔ (
        (c ≡ Criticality.low)
        ⊎ (c ≡ Criticality.medium)
        ⊎ (c ≡ Criticality.high)
        ⊎ (c ≡ Criticality.critical)
        ⊎ ((c ≡ "") × (uncertain ≡ true)))
unfolding valid_criticality
known_iff c uncertain = ground (
  arith,
  eq_iff c Criticality.low,
  eq_iff c Criticality.medium,
  eq_iff c Criticality.high,
  eq_iff c Criticality.critical,
  eq_iff c "",
)

check_finding_known :
    (f : Finding)
    → type_for_consumer f.consumer.kind ≡ ok f.impact
    → (check_finding f ≡ none) ↔ (
        (f.change.id ≢ "")
        × (f.consumer.id ≢ "")
        × (f.consumer.criticality ≡ f.criticality)
        × ((valid_criticality f.criticality || (f.criticality == "" && f.uncertain)) ≡ true))
unfolding check_finding
check_finding_known f q =
    rw (q, type_for_consumer-valid f.consumer.kind f.impact q)
      (ground (
        arith,
        eq_iff f.change.id "",
        eq_iff f.consumer.id "",
        eq_iff f.impact f.impact,
        eq_iff f.consumer.criticality f.criticality,
      ))

check_finding-impact :
    (f : Finding) → check_finding f ≡ none → type_for_consumer f.consumer.kind ≡ ok f.impact
unfolding check_finding
check_finding-impact f h = elim (Result-cases (type_for_consumer f.consumer.kind)) [
  | inl (e, q) ↦ absurd (ground (arith, h, q))
  | inr (impact, q) ↦
      let same : impact ≡ f.impact = ground (arith, h, q, eq_iff impact f.impact) in rw same at q
]

check_finding_iff : (f : Finding) → (check_finding f ≡ none) ↔ IsSound f
check_finding_iff f = (
  λ h.
      let q = check_finding-impact f h in
      let (a, b, c, d) = (check_finding_known f q).0 h in
      record {
        change_named = a;
        consumer_named = b;
        impact_of_kind = q;
        same_criticality = c;
        known_criticality = (known_iff f.criticality f.uncertain).0 d;
      },
  λ s. (check_finding_known f s.impact_of_kind).1 (
    s.change_named,
    s.consumer_named,
    s.same_criticality,
    (known_iff f.criticality f.uncertain).1 s.known_criticality,
  ),
)

-- Whatever the order in which findings come, they are accepted exactly if each of them is sound and no two
-- have the same key, which is made of change, consumer and impact; so the order does not matter.
pub validate_findings-perm_iff :
    (fs gs : List Finding)
    → Permᴰ fs gs
    → (validate_findings gs ≡ none) ↔ (All IsSound fs × Distinct finding_key fs)
validate_findings-perm_iff fs gs h = (
  λ run.
      let (a, d) = AreValid-perm (Permᴰ-sym h) ((accepted_iff gs).0 run) in
      (All-of_members IsSound fs (λ f m. (check_finding_iff f).0 (All_member _ fs a m)), d),
  λ (a, d). (accepted_iff gs).1 (
      AreValid-perm h
        (All-of_members _ fs (λ f m. (check_finding_iff f).1 (All_member IsSound fs a m)), d)),
)
