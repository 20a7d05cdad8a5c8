-- ===== src/Analysis/Discover/Built.antt =====
-- internal/analysis/engine.go: the graph that `Discover` returns.
use telemetry_change_guard.Common.{
  ℕ, String, Bool, true, none, ok, ◌≡◌, subst, Bool-cases, Option-cases, Result-cases, ok_injective,
  inl, inr, is_empty,
}
use telemetry_change_guard.Config.{validate_change_set}
use telemetry_change_guard.Domain.{ChangeSet, Discovery}
use telemetry_change_guard.Graph.{Graph}
use telemetry_change_guard.Impact.Build.{build_graph}
use telemetry_change_guard.Ownership.Loading.{OwnershipConfig}
use telemetry_change_guard.Ownership.Enrich.{enrich}
use telemetry_change_guard.Analysis.{Configuration}
use telemetry_change_guard.Analysis.Limits.{validate_graph_limits, validate_discovery_limits}
use telemetry_change_guard.Analysis.Discover.{
  Outcome, Adapters, and_then, empty_discovery, collect, ownership_config, limited_graph, finish,
  bounded, discover, analyze_change_set,
}

-- The graph is that of the discovery, and within the limits.
abbrev pub IsBuilt : Configuration → Discovery → Graph → Type 0
IsBuilt config d g = (build_graph d ≡ ok g) × (validate_graph_limits config.execution g ≡ none)

and_then-eq-ok {ℓ κ} :
    {S : Type 0} {A : Type ℓ} {B : Type κ} (r : Outcome S A) (k : S → A → Outcome S B) {b : B}
    → (and_then r k).1 ≡ ok b
    → (a : A) × ((k r.0 a).1 ≡ ok b)
and_then-eq-ok r k h = elim (Result-cases r.1) [
  | inl (e, q) ↦ absurd (cc (rw q at h))
  | inr (a, q) ↦ (a, rw q at h)
]

module _ {S : Type 0} (adapters : Adapters S) (config : Configuration) where
  limited_graph-IsBuilt :
      (d d' : Discovery) (g : Graph)
      → limited_graph adapters config d ≡ ok (d', g)
      → IsBuilt config d' g
  unfolding limited_graph
  limited_graph-IsBuilt d d' g h = elim (Result-cases (build_graph d)) [
    | inl (e, q) ↦ absurd (cc (rw (q, limited_graph) at h))
    | inr (g', q) ↦ elim (Option-cases (validate_graph_limits config.execution g')) [
      | inr (e, z) ↦ absurd (cc (rw (q, z, limited_graph) at h))
      | inl z ↦
          let same = ok_injective (rw (q, z, limited_graph) at h) in
          (
            subst (λ x. build_graph x.0 ≡ ok x.1) same q,
            subst (λ x. validate_graph_limits config.execution x.1 ≡ none) same z,
          )
    ]
  ]

  finish-IsBuilt :
      (owners : OwnershipConfig) (s : S) (d d' : Discovery) (g : Graph)
      → (finish adapters config owners s d).1 ≡ ok (d', g)
      → IsBuilt config d' g
  unfolding finish
  finish-IsBuilt owners s d d' g h =
      let r = enrich adapters.texts adapters.files owners s d in
      elim (Option-cases r.2) [
        | inr (e, q) ↦ absurd (cc (rw (q, finish) at h))
        | inl q ↦ elim (Option-cases (adapters.sources.poll r.0).1) [
          | inr (e, z) ↦ absurd (cc (rw (q, z, finish) at h))
          | inl z ↦ limited_graph-IsBuilt r.1 d' g (rw (q, z, finish) at h)
        ]
      ]

  bounded-IsBuilt :
      (s : S) (found d : Discovery) (g : Graph)
      → (bounded adapters config s found).1 ≡ ok (d, g)
      → IsBuilt config d g
  unfolding bounded
  bounded-IsBuilt s found d g h =
      elim (Option-cases (validate_discovery_limits config.execution found)) [
        | inr (e, z) ↦ absurd (cc (rw (z, bounded) at h))
        | inl z ↦ elim (Result-cases (ownership_config adapters config)) [
          | inl (e, y) ↦ absurd (cc (rw (z, y, bounded) at h))
          | inr (owners, y) ↦ finish-IsBuilt owners s found d g (rw (z, y, bounded) at h)
        ]
      ]

  discover-IsBuilt :
      (s : S) (d : Discovery) (g : Graph)
      → (discover adapters config s).1 ≡ ok (d, g)
      → IsBuilt config d g
  unfolding discover
  discover-IsBuilt s d g h = elim (Option-cases (adapters.prepare s).1) [
    | inr (e, q) ↦ absurd (cc (rw (q, discover) at h))
    | inl q ↦
        let collected = collect adapters config (adapters.prepare s).0 empty_discovery in
        let (found, k) =
          and_then-eq-ok collected (bounded adapters config) (rw (q, discover) at h) in
        bounded-IsBuilt collected.0 found d g k
  ]

  module _ (is_blank : String → Bool) (show : ℕ → String) (quote : String → String) where
    -- If AnalyzeChangeSet succeeds, the set of changes is valid, and the graph is the graph of the discovery
    -- and within the limits.
    pub analyze_change_set-IsBuilt :
        (s : ChangeSet) (state : S) (d : Discovery) (g : Graph)
        → (analyze_change_set adapters config is_blank show quote s state).1 ≡ ok (d, g)
        → (is_empty (validate_change_set is_blank show quote s) ≡ true) × IsBuilt config d g
    unfolding analyze_change_set build_graph
    analyze_change_set-IsBuilt s state d g h =
        elim (Bool-cases (is_empty (validate_change_set is_blank show quote s))) [
          | inr v ↦ absurd (cc (rw (v, analyze_change_set) at h))
          | inl v ↦ elim (Result-cases (discover adapters config state).1) [
            | inl (e, q) ↦ absurd (cc (rw (v, q, analyze_change_set) at h))
            | inr (found, q) ↦
                let (b, l) = discover-IsBuilt state found.0 found.1 q in
                let changed = ok_injective (rw (v, q, analyze_change_set) at h) in
                (
                  v,
                  (
                    subst (λ x. build_graph x.0 ≡ ok x.1) changed b,
                    subst (λ x. validate_graph_limits config.execution x.1 ≡ none) changed l,
                  ),
                )
          ]
        ]
