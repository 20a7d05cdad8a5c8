-- ===== src/Guarantee.antt =====
-- internal/impact/finding.go and internal/safety/evaluator.go together: what a PASS of the analysis of a
-- set of changes stands for.
use mathlib.Core.List.Memᴰ
use telemetry_change_guard.Common.{String, Bool, none, some, Memᴰ, ◌≡◌, subst}
use telemetry_change_guard.Domain.{Change, ChangeSet, Consumer, Discovery}
use telemetry_change_guard.Graph.{Graph}
use telemetry_change_guard.Impact.Findings.{analyze}
use telemetry_change_guard.Impact.Findings.Analyzed.{IsAffected}
use telemetry_change_guard.Impact.Findings.Reports.{analyze_reports}
use telemetry_change_guard.Safety.Policy.{Policy}
use telemetry_change_guard.Safety.Status
use telemetry_change_guard.Safety.Evaluate.Verdict.{result}
use telemetry_change_guard.Safety.Evaluate.Statuses.{evaluate_pass_iff}

-- If the analysis returns no error and the evaluation of its findings, with the diagnostics of the
-- discovery, gives PASS, then for each change and each discovered consumer `ImpactedConsumers` records no
-- path from the changed symbol to the consumer, and the consumer's evidence is not uncertain.
pub pass-unaffected :
    (lower : String → String) (s : ChangeSet) (d : Discovery) (g : Graph) (transitive : Bool)
    (p : Policy)
    → (analyze s d (some g) transitive).1 ≡ none
    → (result lower s (analyze s d (some g) transitive).0 d.diagnostics p).status ≡ Status.pass
    → (change : Change) (c : Consumer) → Memᴰ change s.changes
    → Memᴰ c d.consumers
    → ¬ IsAffected g transitive d.references change c
pass-unaffected lower s d g transitive p run pass change c mc m affected =
    let (_, none_found, _) =
      (evaluate_pass_iff lower s (analyze s d (some g) transitive).0 d.diagnostics p).0 pass in
    let (f, listed, _) = analyze_reports s d g transitive change c run mc m affected in
    Memᴰ.not-nil (subst (λ fs. Memᴰ f fs) none_found listed)
