-- ===== src/Safety/Evaluate/Keeps.antt =====
-- internal/safety/evaluator.go, `Evaluate` and `ExitCode`: what every result keeps, and what a
-- process that exits with 0 has shown.
use telemetry_change_guard.Common.{
  String, some, none, Option, List, ◌≡◌, sym, ◌∙◌, ◌↔◌, ◌≢◌, inl, inr, ◌⊎◌, arith, Permᴰ, eq_iff,
  Permᴰ-sym, subst,
}
use telemetry_change_guard.Domain.{ChangeSet, Diagnostic}
use telemetry_change_guard.Impact.Findings.{Finding}
use telemetry_change_guard.Safety.Mode
use telemetry_change_guard.Safety.Status
use telemetry_change_guard.Safety.Policy.{Policy, decide}
use telemetry_change_guard.Safety.Evaluate.{
  SafetyResult, SafetyError, evaluate, error_result, exit_code,
}
use telemetry_change_guard.Safety.Evaluate.Apart.{statuses_apart}
use telemetry_change_guard.Safety.Evaluate.Validation.{AreValid-perm, sort_findings-perm}
use telemetry_change_guard.Safety.Evaluate.Verdict.{
  IsAccepted, result, sort_diagnostics-perm, evaluate-eq-accepted, evaluate_accepted,
  evaluate_refused, evaluate_shape, aggregate_status-perm,
}
use telemetry_change_guard.Safety.Evaluate.Statuses.{
  IsUnproven, HasBlocked, ladder_ne_error, status_accepted, evaluate_block_iff,
  evaluate_incomplete_iff,
}

-- A result holds the findings and the diagnostics that it was given, in some order.
pub record Keeps {E : Type 0} (fs : List Finding) (ds : List Diagnostic) (r : SafetyResult E)
    : Type 0 where
  pub all_findings : Permᴰ r.findings fs
  pub all_diagnostics : Permᴰ r.diagnostics ds

module _ (lower : String → String) (cs : ChangeSet) (fs : List Finding) (ds : List Diagnostic)
    (p : Policy) where
  error_result-Keeps : (e : Option SafetyError) → Keeps fs ds (error_result cs fs ds e)
  unfolding error_result
  error_result-Keeps e = record {
    all_findings = sort_findings-perm fs;
    all_diagnostics = sort_diagnostics-perm ds;
  }

  -- No finding and no diagnostic is lost or made up, whether the policy and the findings pass their
  -- validation or not.
  pub evaluate-Keeps : Keeps fs ds (result lower cs fs ds p)
  evaluate-Keeps = elim (evaluate_shape lower cs fs ds p) [
    | inl a ↦ kept (sym (evaluate-eq-accepted lower cs fs ds p a)) (record {
      all_findings = sort_findings-perm fs;
      all_diagnostics = sort_diagnostics-perm ds;
    })
    | inr (e, h) ↦ kept (sym h) (error_result-Keeps (some e))
  ]
    where
      kept :
          {r : SafetyResult SafetyError × Option SafetyError}
          → r ≡ evaluate lower cs fs ds p
          → Keeps fs ds r.0
          → Keeps fs ds (result lower cs fs ds p)
      kept h k = subst (λ (x : SafetyResult SafetyError × Option SafetyError). Keeps fs ds x.0) h k

  -- An error is returned exactly with the status ERROR, and exactly for input that is not accepted.
  pub evaluate-error_iff :
      (((evaluate lower cs fs ds p).1 ≢ none) ↔ ((result lower cs fs ds p).status ≡ Status.error))
      × (((result lower cs fs ds p).status ≡ Status.error) ↔ (¬ IsAccepted lower cs fs ds p))
  evaluate-error_iff = (
    (
      λ ne. elim (evaluate_refused lower cs fs ds p) [
        | inl a ↦ absurd (ne (evaluate_accepted lower cs fs ds p a).0)
        | inr (_, e) ↦ e
      ],
      λ e. elim (evaluate_refused lower cs fs ds p) [
        | inl a ↦ absurd (not_error a e)
        | inr (ne, _) ↦ ne
      ],
    ),
    (
      λ e a. not_error a e,
      λ n. elim (evaluate_refused lower cs fs ds p) [ inl a ↦ absurd (n a) | inr (_, e) ↦ e ],
    ),
  )
    where
      not_error : IsAccepted lower cs fs ds p → (result lower cs fs ds p).status ≢ Status.error
      not_error a e = ladder_ne_error _ _ _ _ (sym (status_accepted lower cs fs ds p a) ∙ e)

  exit_code_cases : (s : String) → exit_code s ≡ 0 → (s ≡ Status.pass) ⊎ (s ≡ Status.warn)
  unfolding exit_code
  exit_code_cases s h = ground (arith, eq_iff s Status.pass, eq_iff s Status.warn)

  -- Exit code 0 is only given to accepted input with no required diagnostic, no uncertain finding and,
  -- in the mode `enforce`, no finding that the policy blocks.
  pub exit_code_zero :
      exit_code (result lower cs fs ds p).status ≡ 0
      → IsAccepted lower cs fs ds p
        × (¬ IsUnproven fs ds)
        × (p.mode ≡ Mode.enforce → ¬ HasBlocked lower p fs)
  exit_code_zero h = elim (evaluate_refused lower cs fs ds p) [
    | inr (_, e) ↦
        absurd (not_status Status.error (search statuses_apart) (search statuses_apart) e)
    | inl a ↦
        let proven : ¬ IsUnproven fs ds = λ u.
          not_status Status.incomplete (search statuses_apart) (search statuses_apart)
            ((evaluate_incomplete_iff lower cs fs ds p).1 (a, u)) in
        (
          a,
          proven,
          λ m b.
              not_status Status.block (search statuses_apart) (search statuses_apart)
                ((evaluate_block_iff lower cs fs ds p).1 (a, proven, m, b)),
        )
  ]
    where
      not_status :
          (s : String) → Status.pass ≢ s → Status.warn ≢ s → (result lower cs fs ds p).status ≢ s
      not_status s np nw e = elim (exit_code_cases _ h) [
        | inl is_pass ↦ np (sym is_pass ∙ e)
        | inr is_warn ↦ nw (sym is_warn ∙ e)
      ]

-- The status does not depend on the order in which findings and diagnostics are given.
pub evaluate-status_perm :
    (lower : String → String) (cs : ChangeSet) {fs gs : List Finding} {ds es : List Diagnostic}
    (p : Policy)
    → Permᴰ fs gs
    → Permᴰ ds es
    → (result lower cs fs ds p).status ≡ (result lower cs gs es p).status
evaluate-status_perm lower cs {fs} {gs} {ds} {es} p h k = elim (evaluate_refused lower cs fs ds p) [
  | inl (v, a) ↦
      (evaluate_accepted lower cs fs ds p (v, a)).1
      ∙ aggregate_status-perm (decide lower p) h k
      ∙ sym (evaluate_accepted lower cs gs es p (v, AreValid-perm h a)).1
  | inr (ne, e) ↦ elim (evaluate_refused lower cs gs es p) [
    | inl (v, a) ↦
        absurd (ne (evaluate_accepted lower cs fs ds p (v, AreValid-perm (Permᴰ-sym h) a)).0)
    | inr (_, e') ↦ e ∙ sym e'
  ]
]
