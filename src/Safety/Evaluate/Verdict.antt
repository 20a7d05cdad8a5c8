-- ===== src/Safety/Evaluate/Verdict.antt =====
-- internal/safety/evaluator.go, `Evaluate`: what each status means, whatever the order of the input.
use telemetry_change_guard.Common.{
  String, Bool, true, false, some, none, Option, List, [], ◌≡◌, refl, sym, ap, ◌∙◌, ◌↔◌, ◌≢◌, inl,
  inr, ◌⊎◌, arith, Permᴰ, map, any-map, any-perm, is_empty-perm, not, Option-cases, Bool-cases,
  ◌==◌, ◌≤◌, eq_iff, sort_by-perm, ◌&&◌, ltb, if◌then◌else◌,
}
use mathlib.Core.Bool.{false≢true}
use telemetry_change_guard.Domain.{ChangeSet, Diagnostic}
use telemetry_change_guard.Impact.Findings.{Finding}
use telemetry_change_guard.Safety.Action
use telemetry_change_guard.Safety.Mode
use telemetry_change_guard.Safety.Status
use telemetry_change_guard.Safety.Policy.{
  Policy, Decision, ImpactRule, validate_policy, decide, rule_for, criticality_rank, threshold_step,
}
use telemetry_change_guard.Safety.Evaluate.{
  SafetyResult, SafetyError, policy, finding, evaluate, error_result, aggregate_status,
  validate_findings, sort_findings, sort_diagnostics, diagnostic_before,
}
use telemetry_change_guard.Safety.Evaluate.Validation.{
  AreValid, sort_findings-perm, validate_findings_iff,
}

pub sort_diagnostics-perm : (ds : List Diagnostic) → Permᴰ (sort_diagnostics ds) ds
unfolding sort_diagnostics
sort_diagnostics-perm ds = sort_by-perm diagnostic_before ds

abbrev pub is_required : Diagnostic → Bool
is_required d = d.required

abbrev pub is_unsure : Finding → Bool
is_unsure f = f.uncertain

abbrev pub blocks : Decision → Bool
blocks d = d.effective_action == Action.block

pub aggregate_status-perm :
    (d : Finding → Decision) {fs gs : List Finding} {ds es : List Diagnostic}
    → Permᴰ fs gs
    → Permᴰ ds es
    → aggregate_status fs (map d fs) ds ≡ aggregate_status gs (map d gs) es
unfolding aggregate_status
aggregate_status-perm d {fs} {gs} {ds} {es} h k = ground (
  arith,
  any-perm is_required k,
  any-perm is_unsure h,
  any-map blocks d fs,
  any-map blocks d gs,
  any-perm (λ f. blocks (d f)) h,
  is_empty-perm h,
  is_empty-perm k,
)

-- The rule of a finding asks for a block, and its criticality reaches the threshold.
pub record IsBlocked (lower : String → String) (p : Policy) (f : Finding) : Type 0 where
  pub rule_blocks : (rule_for lower p f.impact).action ≡ Action.block
  pub reaches :
      criticality_rank lower (rule_for lower p f.impact).minimum_criticality
      ≤ criticality_rank lower f.criticality

block-ne-warn : Action.block ≢ Action.warn
block-ne-warn = ground (arith, eq_iff Action.block Action.warn)

threshold_blocks_iff :
    (lower : String → String) (r : ImpactRule) (f : Finding)
    → ((threshold_step lower r f).0 == Action.block ≡ true) ↔ (
        (r.action ≡ Action.block)
        × (criticality_rank lower r.minimum_criticality ≤ criticality_rank lower f.criticality))
unfolding threshold_step
threshold_blocks_iff lower r f =
    elim (Bool-cases
      (ltb (criticality_rank lower f.criticality) (criticality_rank lower r.minimum_criticality))) [
        | inl low ↦ rw low (
          λ h. absurd (block-ne-warn (sym ((eq_iff Action.warn Action.block).0 h))),
          λ (e, le). absurd (ground arith),
        )
        | inr high ↦ rw high (
          λ h. ((eq_iff r.action Action.block).0 h, ground arith),
          λ (e, le). (eq_iff r.action Action.block).1 e,
        )
      ]

softened_blocks_iff :
    (mode action : String)
    → ((if not (mode == Mode.enforce) && action == Action.block then Action.warn else action)
          == Action.block
        ≡ true)
      ↔ ((mode ≡ Mode.enforce) × (action == Action.block ≡ true))
softened_blocks_iff mode action = elim (Bool-cases (mode == Mode.enforce)) [
  | inl same ↦ rw same (λ h. ((eq_iff mode Mode.enforce).0 same, h), λ p. p.1)
  | inr other ↦ elim (Bool-cases (action == Action.block)) [
    | inl b ↦
        rw (other, b)
          (
            λ h. absurd (block-ne-warn (sym ((eq_iff Action.warn Action.block).0 h))),
            λ p. absurd (not_enforce other p.0),
          )
    | inr b ↦ rw (other, b) (λ h. absurd (false≢true (sym b ∙ h)), λ p. absurd (false≢true p.1))
  ]
]
  where
    not_enforce : mode == Mode.enforce ≡ false → mode ≡ Mode.enforce → ⊥
    not_enforce f e = cc (f, (eq_iff mode Mode.enforce).1 e)

-- A decision blocks exactly in the mode `enforce`, for a finding that the policy blocks.
pub decide-blocks_iff :
    (lower : String → String) (p : Policy) (f : Finding)
    → (blocks (decide lower p f) ≡ true) ↔ ((p.mode ≡ Mode.enforce) × IsBlocked lower p f)
unfolding decide
decide-blocks_iff lower p f =
    let (to, from) =
      softened_blocks_iff p.mode (threshold_step lower (rule_for lower p f.impact) f).0 in
    let (to', from') = threshold_blocks_iff lower (rule_for lower p f.impact) f in
    (
      λ h.
          let (m, b) = to h in let (e, le) = to' b in (m, record { rule_blocks = e; reaches = le }),
      λ (m, b). from (m, from' (b.rule_blocks, b.reaches)),
    )

-- What one evaluation receives.
module _ (lower : String → String) (cs : ChangeSet) (fs : List Finding) (ds : List Diagnostic)
    (p : Policy) where
  abbrev pub result : SafetyResult SafetyError
  result = (evaluate lower cs fs ds p).0

  -- The policy and the findings pass their validation.
  abbrev pub IsAccepted : Type 0
  IsAccepted = (validate_policy p ≡ none) × AreValid fs

  abbrev pub accepted_result : SafetyResult SafetyError
  accepted_result = record {
    change_set = cs;
    status =
        aggregate_status (sort_findings fs) (map (decide lower p) (sort_findings fs))
          (sort_diagnostics ds);
    findings = sort_findings fs;
    decisions = map (decide lower p) (sort_findings fs);
    diagnostics = sort_diagnostics ds;
    errors = [];
  }

  pub evaluate-eq-accepted : IsAccepted → evaluate lower cs fs ds p ≡ (accepted_result, none)
  unfolding evaluate
  evaluate-eq-accepted (h, v) =
      let q : validate_findings (sort_findings fs) ≡ none = (validate_findings_iff fs).1 v in
      rw (h, q, evaluate) refl

  -- An accepted evaluation returns no error, and its status is that of the unsorted input.
  pub evaluate_accepted :
      IsAccepted
      → ((evaluate lower cs fs ds p).1 ≡ none)
        × (result.status ≡ aggregate_status fs (map (decide lower p) fs) ds)
  evaluate_accepted a =
      let e = evaluate-eq-accepted a in
      (
        ap (λ (x : SafetyResult SafetyError × Option SafetyError). x.1) e,
        ap (λ (x : SafetyResult SafetyError × Option SafetyError). x.0.status) e
            ∙ aggregate_status-perm (decide lower p) (sort_findings-perm fs)
                (sort_diagnostics-perm ds),
      )

  refused_with :
      (e : SafetyError)
      → evaluate lower cs fs ds p ≡ (error_result cs fs ds (some e), some e)
      → ((evaluate lower cs fs ds p).1 ≢ none) × (result.status ≡ Status.error)
  unfolding error_result
  refused_with e h = (
    λ b. cc (ap (λ (x : SafetyResult SafetyError × Option SafetyError). x.1) h, b),
    ap (λ (x : SafetyResult SafetyError × Option SafetyError). x.0.status) h,
  )

  -- Any other evaluation returns an error and the result that carries it.
  pub evaluate_shape :
      IsAccepted
      ⊎ ((e : SafetyError) × (evaluate lower cs fs ds p ≡ (error_result cs fs ds (some e), some e)))
  unfolding evaluate
  evaluate_shape = elim (Option-cases (validate_policy p)) [
    | inr (e, h) ↦ inr (policy e, rw (h, evaluate) refl)
    | inl h ↦ elim (Option-cases (validate_findings (sort_findings fs))) [
      | inr (e, q) ↦ inr (finding e, rw (h, q, evaluate) refl)
      | inl q ↦ inl (h, (validate_findings_iff fs).0 q)
    ]
  ]

  pub evaluate_refused :
      IsAccepted ⊎ (((evaluate lower cs fs ds p).1 ≢ none) × (result.status ≡ Status.error))
  evaluate_refused = elim evaluate_shape [ inl a ↦ inl a | inr (e, h) ↦ inr (refused_with e h) ]
