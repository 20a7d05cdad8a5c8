-- ===== src/Impact/Findings/Reports.antt =====
-- internal/impact/finding.go, `Analyze`: the consumers that a change affects.
use mathlib.Core.List.Memᴰ
use telemetry_change_guard.Common.{
  String, Bool, true, false, none, some, List, [], ◌∷◌, ◌≡◌, refl, sym, subst, ◌⊎◌, inl, inr, ◌≢◌,
  arith, Memᴰ, Memᴰ-perm, Permᴰ-sym, Option-cases, sort_by, sort_by-perm, is_empty, Result, ok, err,
}
use telemetry_change_guard.Domain.{Change, ChangeSet, Consumer, Reference, Discovery}
use telemetry_change_guard.Graph.{Graph}
use telemetry_change_guard.Impact.{ImpactError}
use telemetry_change_guard.Impact.Findings.{
  Finding, PathMap, Turn, skip, add, stop, finding, assess, assess_consumers, assess_changes,
  analyze, impacted_consumers, type_for_consumer, check_consumers, consumer_before, change_before,
}
use telemetry_change_guard.Impact.Findings.Analyzed.{
  IsAffected, IsFindingOf, IsFinding, analyze_iff, Turn-cases, changes-cons, here, refs, paths,
}

module _ (references : List Reference) (change : Change) (impacted : PathMap) where
  -- A loop that ends without an error has stopped at no consumer.
  no_stop :
      (cs : List Consumer) (c : Consumer)
      → (assess_consumers references change impacted cs).1 ≡ none
      → Memᴰ c cs
      → (e : ImpactError) → assess references change impacted c ≢ stop e
  unfolding assess_consumers
  no_stop [] c h m e = absurd (Memᴰ.not-nil m)
  no_stop (x ∷ cs) c h m e =
      elim (Turn-cases references change impacted (assess references change impacted x)) [
        | inl k ↦ elim (Memᴰ.cases_cons m) [
          | inl same ↦ λ s. cc (k, subst (λ y. assess references change impacted y ≡ stop e) same s)
          | inr later ↦ no_stop cs c (rw (k, assess_consumers) at h) later e
        ]
        | inr (inl (f, k)) ↦ elim (Memᴰ.cases_cons m) [
          | inl same ↦ λ s. cc (k, subst (λ y. assess references change impacted y ≡ stop e) same s)
          | inr later ↦ no_stop cs c (rw (k, assess_consumers) at h) later e
        ]
        | inr (inr (e', k)) ↦ cc (rw (k, assess_consumers) at h)
      ]

  -- An affected consumer gets a finding, or the loop stops at it.
  affected_turn :
      (c : Consumer)
      → ((is_empty (paths references change impacted c) ≡ false)
          ⊎ (telemetry_change_guard.Impact.Findings.is_uncertain c
                (refs references change impacted c)
              ≡ true))
      → ((f : Finding) × IsFindingOf references change impacted c f)
        ⊎ ((e : ImpactError) × (assess references change impacted c ≡ stop e))
  unfolding assess
  affected_turn c a = type_cases (type_for_consumer c.kind) refl
    where
      type_cases :
          (t : Result ImpactError String)
          → type_for_consumer c.kind ≡ t
          → ((f : Finding) × IsFindingOf references change impacted c f)
            ⊎ ((e : ImpactError) × (assess references change impacted c ≡ stop e))
      type_cases (ok impact) k = inl (
        finding change c impact (refs references change impacted c)
            (paths references change impacted c),
        (a, (impact, k, refl)),
      )
      type_cases (err e) k = inr (e, ground (arith, a, k))

abbrev Loop : Graph → Bool → List Reference → List Consumer → List Change → Type 0
Loop g transitive references cs changes =
    (assess_changes g transitive references cs changes).1 ≡ none

no_stop_changes :
    (g : Graph) (transitive : Bool) (references : List Reference) (cs : List Consumer)
    (changes : List Change) (change : Change)
    → Loop g transitive references cs changes
    → Memᴰ change changes
    → (assess_consumers references change (impacted_consumers (some g) change.from transitive) cs).1
      ≡ none
no_stop_changes g transitive references cs [] change h m = absurd (Memᴰ.not-nil m)
no_stop_changes g transitive references cs (x ∷ changes) change h m =
    let (a, b, _) = changes-cons g transitive references cs x changes h in
    elim (Memᴰ.cases_cons m) [
      | inl same ↦ subst (λ y. (here g transitive references cs y).1 ≡ none) (sym same) a
      | inr later ↦ no_stop_changes g transitive references cs changes change b later
    ]

-- If `Analyze` returns no error, each consumer that a change affects has a finding for that change.
pub analyze_reports :
    (s : ChangeSet) (d : Discovery) (g : Graph) (transitive : Bool) (change : Change) (c : Consumer)
    → (analyze s d (some g) transitive).1 ≡ none
    → Memᴰ change s.changes
    → Memᴰ c d.consumers
    → IsAffected g transitive d.references change c
    → (f : Finding) × Memᴰ f (analyze s d (some g) transitive).0
      × IsFinding g transitive d.references change c f
unfolding analyze
analyze_reports s d g transitive change c h mc m a =
    elim (affected_turn d.references change (impacted_consumers (some g) change.from transitive) c
      a) [
        | inl (f, k) ↦ (f, (analyze_iff s d g transitive f h).1 (change, c, mc, m, k), k)
        | inr (e, k) ↦
            elim (Option-cases (check_consumers [] (sort_by consumer_before d.consumers))) [
              | inr (x, q) ↦ cc (rw (q, analyze) at h)
              | inl q ↦ absurd (
                  no_stop d.references change (impacted_consumers (some g) change.from transitive)
                    (sort_by consumer_before d.consumers) c
                    (no_stop_changes g transitive d.references (sort_by consumer_before d.consumers)
                      (sort_by change_before s.changes) change (rw (q, analyze) at h)
                      (Memᴰ-perm (Permᴰ-sym (sort_by-perm change_before s.changes)) mc))
                    (Memᴰ-perm (Permᴰ-sym (sort_by-perm consumer_before d.consumers)) m) e k)
            ]
      ]
