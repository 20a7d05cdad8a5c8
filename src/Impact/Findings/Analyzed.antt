-- ===== src/Impact/Findings/Analyzed.antt =====
-- internal/impact/finding.go, `Analyze`: which findings it returns.
use mathlib.Core.List.Memᴰ
use telemetry_change_guard.Common.{
  String, Bool, true, false, none, some, List, [], ◌∷◌, ◌++◌, ◌≡◌, refl, sym, ap, ◌∙◌, subst, ◌↔◌,
  ◌⊎◌, inl, inr, arith, Memᴰ, Memᴰ-perm, Permᴰ-sym, entries, Option-cases, sort_by, sort_by-perm,
  ok, is_empty,
}
use telemetry_change_guard.Domain.{Change, ChangeSet, Consumer, Reference, Discovery}
use telemetry_change_guard.Graph.{Graph}
use telemetry_change_guard.Impact.{ImpactError}
use telemetry_change_guard.Impact.Matching.{source_references}
use telemetry_change_guard.Impact.Findings.{
  Finding, Findings, PathMap, Turn, skip, add, stop, finding, assess, assess_consumers,
  assess_changes, analyze, impacted_consumers, type_for_consumer, is_uncertain, check_consumers,
  consumer_before, change_before,
}

-- A consumer is affected by a change, or its evidence leaves that open.
abbrev pub IsAffected : Graph → Bool → List Reference → Change → Consumer → Type 0
IsAffected g transitive references change c =
    (is_empty (entries c.id (impacted_consumers (some g) change.from transitive)) ≡ false)
    ⊎ (is_uncertain c (source_references references c.id change) ≡ true)

module _ (references : List Reference) (change : Change) (impacted : PathMap) where
  abbrev pub paths : Consumer → List telemetry_change_guard.Graph.Route
  paths c = entries c.id impacted

  abbrev pub refs : Consumer → List Reference
  refs c = source_references references c.id change

  -- The finding of a consumer, whose kind has an impact.
  abbrev pub IsFindingOf : Consumer → Finding → Type 0
  IsFindingOf c f =
      ((is_empty (paths c) ≡ false) ⊎ (is_uncertain c (refs c) ≡ true))
      × ((impact : String) × (type_for_consumer c.kind ≡ ok impact)
          × (f ≡ finding change c impact (refs c) (paths c)))

  assess_add :
      (c : Consumer) (f : Finding) → (assess references change impacted c ≡ add f) ↔ IsFindingOf c f
  unfolding assess
  assess_add c f = ground (arith)

  pub Turn-cases :
      (t : Turn) → (t ≡ skip) ⊎ ((f : Finding) × (t ≡ add f)) ⊎ ((e : ImpactError) × (t ≡ stop e))
  Turn-cases skip = inl refl
  Turn-cases (add f) = inr (inl (f, refl))
  Turn-cases (stop e) = inr (inr (e, refl))

  -- A loop that ends without an error has returned the findings of the consumers, and no others.
  assess_consumers_iff :
      (cs : List Consumer) (f : Finding)
      → (assess_consumers references change impacted cs).1 ≡ none
      → Memᴰ f (assess_consumers references change impacted cs).0
        ↔ ((c : Consumer) × Memᴰ c cs × IsFindingOf c f)
  unfolding assess_consumers
  assess_consumers_iff [] f h = (λ m. absurd (Memᴰ.not-nil m), λ (c, m, _). absurd (Memᴰ.not-nil m))
  assess_consumers_iff (c ∷ cs) f h = elim (Turn-cases (assess references change impacted c)) [
    | inl e ↦
        let (to, from) = assess_consumers_iff cs f (rw (e, assess_consumers) at h) in
        rw (e, assess_consumers)
          (
            λ m. let (d, n, k) = to m in (d, Memᴰ.tail n, k),
            λ (d, n, k). elim (Memᴰ.cases_cons n) [
              | inl same ↦ cc (e, (assess_add c f).1 (subst (λ x. IsFindingOf x f) same k))
              | inr later ↦ from (d, later, k)
            ],
          )
    | inr (inl (f', e)) ↦
        let (to, from) = assess_consumers_iff cs f (rw (e, assess_consumers) at h) in
        rw (e, assess_consumers)
          (
            λ m. elim (Memᴰ.cases_cons m) [
              | inl same ↦ (c, Memᴰ.head refl, (assess_add c f).0 (e ∙ ap add (sym same)))
              | inr old ↦ let (d, n, k) = to old in (d, Memᴰ.tail n, k)
            ],
            λ (d, n, k). elim (Memᴰ.cases_cons n) [
              | inl same ↦
                  Memᴰ.head (cc (e, (assess_add c f).1 (subst (λ x. IsFindingOf x f) same k)))
              | inr later ↦ Memᴰ.tail (from (d, later, k))
            ],
          )
    | inr (inr (e', e)) ↦ cc (rw (e, assess_consumers) at h)
  ]

-- A finding of a change and a consumer.
abbrev pub IsFinding : Graph → Bool → List Reference → Change → Consumer → Finding → Type 0
IsFinding g transitive references change c f =
    IsFindingOf references change (impacted_consumers (some g) change.from transitive) c f

module _ (g : Graph) (transitive : Bool) (references : List Reference) (cs : List Consumer) where
  abbrev pub all : List Change → Findings
  all = assess_changes g transitive references cs

  abbrev pub here : Change → Findings
  here change =
      assess_consumers references change (impacted_consumers (some g) change.from transitive) cs

  pub changes-cons :
      (change : Change) (changes : List Change)
      → (all (change ∷ changes)).1 ≡ none
      → ((here change).1 ≡ none)
        × ((all changes).1 ≡ none)
        × ((all (change ∷ changes)).0 ≡ (here change).0 ++ (all changes).0)
  unfolding assess_changes
  changes-cons change changes h = elim (Option-cases (here change).1) [
    | inl e ↦ (e, rw (e, assess_changes) at h, rw (e, assess_changes) refl)
    | inr (x, e) ↦ cc (e, rw (e, assess_changes) at h)
  ]

  assess_changes_iff :
      (changes : List Change) (f : Finding)
      → (all changes).1 ≡ none
      → Memᴰ f (all changes).0 ↔ (
          (change : Change) × (c : Consumer) × Memᴰ change changes
          × Memᴰ c cs
          × IsFinding g transitive references change c f)
  assess_changes_iff [] f h =
      unfold assess_changes in
      (λ m. absurd (Memᴰ.not-nil m), λ (_, _, m, _, _). absurd (Memᴰ.not-nil m))
  assess_changes_iff (change ∷ changes) f h =
      let (a, b, e) = changes-cons change changes h in
      let (to, from) = assess_changes_iff changes f b in
      let (to', from') =
        assess_consumers_iff references change (impacted_consumers (some g) change.from transitive)
          cs f a in
      rw e (
        λ m. elim (Memᴰ.append_cases _ m) [
          | inl now ↦ let (c, n, k) = to' now in (change, c, Memᴰ.head refl, n, k)
          | inr later ↦ let (x, c, n, p, k) = to later in (x, c, Memᴰ.tail n, p, k)
        ],
        λ (x, c, n, p, k). elim (Memᴰ.cases_cons n) [
          | inl same ↦
              Memᴰ.append_left _
                (from' (c, p, subst (λ y. IsFinding g transitive references y c f) same k))
          | inr later ↦ Memᴰ.append_right _ (from (x, c, later, p, k))
        ],
      )

-- If `Analyze` returns no error, its findings are exactly those of each change and each consumer that
-- the change affects or whose evidence is uncertain.
pub analyze_iff :
    (s : ChangeSet) (d : Discovery) (g : Graph) (transitive : Bool) (f : Finding)
    → (analyze s d (some g) transitive).1 ≡ none
    → Memᴰ f (analyze s d (some g) transitive).0 ↔ (
        (change : Change) × (c : Consumer) × Memᴰ change s.changes
        × Memᴰ c d.consumers
        × IsFinding g transitive d.references change c f)
unfolding analyze
analyze_iff s d g transitive f h =
    let consumers = sort_by consumer_before d.consumers in
    let changes = sort_by change_before s.changes in
    elim (Option-cases (check_consumers [] consumers)) [
      | inr (e, k) ↦ cc (rw (k, analyze) at h)
      | inl k ↦
          let (to, from) =
            assess_changes_iff g transitive d.references consumers changes f
              (rw (k, analyze) at h) in
          rw (k, analyze)
            (
              λ m.
                  let (x, c, n, p, q) = to m in
                  (
                    x,
                    c,
                    Memᴰ-perm (sort_by-perm change_before s.changes) n,
                    Memᴰ-perm (sort_by-perm consumer_before d.consumers) p,
                    q,
                  ),
              λ (x, c, n, p, q). from (
                x,
                c,
                Memᴰ-perm (Permᴰ-sym (sort_by-perm change_before s.changes)) n,
                Memᴰ-perm (Permᴰ-sym (sort_by-perm consumer_before d.consumers)) p,
                q,
              ),
            )
    ]
