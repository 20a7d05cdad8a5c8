-- ===== src/Neutral/Verdict.antt =====
-- internal/ownership, internal/impact and internal/safety together: the verdict on a discovery that was
-- enriched with owners.
use mathlib.Core.Path.{ap₂}
use telemetry_change_guard.Common.{
  String, Bool, true, false, some, List, ◌≡◌, refl, sym, ◌∙◌, ap, ok, ◌++◌, any, any-append,
  any-perm, Bool-cases, Option-cases, inl, inr, is_empty, not, ◌||◌, arith, map, if◌then◌else◌,
}
use telemetry_change_guard.Domain.{ChangeSet, Discovery, Diagnostic}
use telemetry_change_guard.Graph.{Graph}
use telemetry_change_guard.Impact.Build.{build_graph}
use telemetry_change_guard.Impact.Findings.{Finding, analyze}
use telemetry_change_guard.Safety.Status
use telemetry_change_guard.Safety.Policy.{Policy, Decision, decide, validate_policy}
use telemetry_change_guard.Safety.Evaluate.{
  aggregate_status, exit_code, evaluate, validate_findings, sort_findings, sort_diagnostics,
  error_result,
}
use telemetry_change_guard.Safety.Evaluate.Verdict.{
  is_required, is_unsure, blocks, sort_diagnostics-perm,
}
use telemetry_change_guard.Ownership.Outside.{Texts, Files}
use telemetry_change_guard.Ownership.Loading.{OwnershipConfig}
use telemetry_change_guard.Ownership.Loading.Advisory.{IsAdvisory}
use telemetry_change_guard.Ownership.Enrich.{enrich}
use telemetry_change_guard.Ownership.Enrich.Keeps.{enrich-Keeps}
use telemetry_change_guard.Neutral.Findings.{graph-Keeps, analyze-Keeps}

quiet : (b : Bool) → exit_code (if b then Status.warn else Status.pass) ≡ 0
unfolding exit_code
quiet true = refl
quiet false = refl

-- The exit code of a status depends on its diagnostics by whether one is required.
exit_code-aggregate_status :
    (fs : List Finding) (decisions : List Decision) (ds es : List Diagnostic)
    → any is_required es ≡ any is_required ds
    → exit_code (aggregate_status fs decisions es) ≡ exit_code (aggregate_status fs decisions ds)
unfolding aggregate_status exit_code
exit_code-aggregate_status fs decisions ds es h = elim (Bool-cases (any is_required ds)) [
  | inl a ↦ rw (h, a) refl
  | inr a ↦ elim (Bool-cases (any is_unsure fs)) [
    | inl b ↦ rw (h, a, b) refl
    | inr b ↦ elim (Bool-cases (any blocks decisions)) [
      | inl c ↦ rw (h, a, b, c) refl
      | inr c ↦
          rw (h, a, b, c)
            (quiet (not (is_empty fs) || not (is_empty es))
              ∙ sym (quiet (not (is_empty fs) || not (is_empty ds))))
    ]
  ]
]

required-append :
    (ds added : List Diagnostic)
    → IsAdvisory added
    → any is_required (sort_diagnostics (ds ++ added)) ≡ any is_required (sort_diagnostics ds)
required-append ds added h = ground (
  arith,
  any-perm is_required (sort_diagnostics-perm (ds ++ added)),
  any-perm is_required (sort_diagnostics-perm ds),
  any-append is_required ds added,
)

pub exit_code-advisory :
    (lower : String → String) (s : ChangeSet) (fs : List Finding) (ds added : List Diagnostic)
    (p : Policy)
    → IsAdvisory added
    → exit_code (evaluate lower s fs (ds ++ added) p).0.status
      ≡ exit_code (evaluate lower s fs ds p).0.status
unfolding evaluate error_result
exit_code-advisory lower s fs ds added p h = elim (Option-cases (validate_policy p)) [
  | inr (e, q) ↦ rw (q, evaluate) refl
  | inl q ↦ elim (Option-cases (validate_findings (sort_findings fs))) [
    | inr (e, z) ↦ rw (q, z, evaluate) refl
    | inl z ↦
        rw (q, z, evaluate)
          (exit_code-aggregate_status (sort_findings fs) (map (decide lower p) (sort_findings fs))
            (sort_diagnostics ds) (sort_diagnostics (ds ++ added)) (required-append ds added h))
  ]
]

-- Let a discovery be enriched with owners, whatever the configuration, the files and the context. If the
-- graph of the discovery can be built, so can that of the enriched one; the two analyses give the same
-- findings and the same error, and the evaluations of these findings, each with the diagnostics of its
-- discovery, have statuses with the same exit code.
pub enrich-exit_code :
    {S : Type 0} (t : Texts) (files : Files S) (config : OwnershipConfig) (state : S)
    (lower : String → String) (s : ChangeSet) (d : Discovery) (g : Graph) (transitive : Bool)
    (p : Policy)
    → build_graph d ≡ ok g
    → (g' : Graph) × (build_graph (enrich t files config state d).1 ≡ ok g')
      × (analyze s (enrich t files config state d).1 (some g') transitive
          ≡ analyze s d (some g) transitive)
      × (exit_code
            (evaluate lower s
              (analyze s (enrich t files config state d).1 (some g') transitive).0
              (enrich t files config state d).1.diagnostics
              p).0.status
          ≡ exit_code
              (evaluate lower s (analyze s d (some g) transitive).0 d.diagnostics p).0.status)
enrich-exit_code t files config state lower s d g transitive p h =
    let d' = (enrich t files config state d).1 in
    let k = enrich-Keeps t files config state d in
    let (g', built, same) = graph-Keeps d d' k h in
    let found = analyze-Keeps s d d' g g' transitive k same in
    (
      g',
      built,
      found,
      ap₂ (λ fs ds. exit_code (evaluate lower s fs ds p).0.status) (ap (λ r. r.0) found)
            k.diagnostics
          ∙ exit_code-advisory lower s (analyze s d (some g) transitive).0 d.diagnostics k.added p
              k.advisory,
    )
