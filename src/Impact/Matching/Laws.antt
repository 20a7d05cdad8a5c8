-- ===== src/Impact/Matching/Laws.antt =====
-- internal/impact/finding.go: what matching means.
use telemetry_change_guard.Common.{
  String, true, ◌≡◌, refl, ◌↔◌, ◌⊎◌, inl, inr, ◌≢◌, arith, Bool-cases, eq_iff, ◌==◌, Memᴰ,
  any_witness, any_member, concat,
}
use telemetry_change_guard.Domain.{Symbol}
use telemetry_change_guard.Domain.Signal
use telemetry_change_guard.Domain.SymbolKind
use telemetry_change_guard.Impact.Matching.{family_suffixes, metric_family_matches, symbol_matches}

-- The metric itself, or one of the series that Prometheus generates for it.
abbrev pub InFamily : String → String → Type 0
InFamily reference base =
    (reference ≡ base)
    ⊎ ((suffix : String) × Memᴰ suffix family_suffixes × (reference ≡ concat base suffix))

pub metric_family_matches_iff :
    (reference base : String)
    → (metric_family_matches reference base ≡ true) ↔ InFamily reference base
unfolding metric_family_matches
metric_family_matches_iff reference base = elim (Bool-cases (reference == base)) [
  | inl same ↦ rw same (λ h. inl ((eq_iff reference base).0 same), λ c. refl)
  | inr other ↦ rw other (
    λ h.
        let (s, m, e) = any_witness (λ suffix. reference == concat base suffix) family_suffixes h in
        inr (s, m, (eq_iff reference (concat base s)).0 e),
    λ c. elim c [
      | inl e ↦ cc (other, (eq_iff reference base).1 e)
      | inr (s, m, e) ↦
          any_member (λ suffix. reference == concat base suffix) family_suffixes m
            ((eq_iff reference (concat base s)).1 e)
    ],
  )
]

-- How the names of two symbols of one domain and one kind must agree.
abbrev pub NamesAgree : Symbol → Symbol → Type 0
NamesAgree s t =
    ((s.domain ≡ Signal.prometheus) × (s.kind ≡ SymbolKind.metric) × InFamily s.name t.name)
    ⊎ ((s.domain ≡ Signal.prometheus)
        × (s.kind ≡ SymbolKind.label)
        × (s.name ≡ t.name)
        × InFamily s.parent t.parent)
    ⊎ (¬ (
          (s.domain ≡ Signal.prometheus)
          × ((s.kind ≡ SymbolKind.metric) ⊎ (s.kind ≡ SymbolKind.label)))
        × (s.name ≡ t.name)
        × (s.parent ≡ t.parent))

metric-ne-label : SymbolKind.metric ≢ SymbolKind.label
metric-ne-label = ground (arith, eq_iff SymbolKind.metric SymbolKind.label)

-- Symbols match exactly if they agree in domain and kind, and in their names: up to the generated
-- suffixes for Prometheus metrics and for the parents of Prometheus labels, and literally otherwise.
pub symbol_matches_iff :
    (s t : Symbol)
    → (symbol_matches s t ≡ true) ↔ ((s.domain ≡ t.domain) × (s.kind ≡ t.kind) × NamesAgree s t)
unfolding symbol_matches
symbol_matches_iff s t = ground (
  arith,
  metric-ne-label,
  eq_iff s.domain t.domain,
  eq_iff s.kind t.kind,
  eq_iff s.domain Signal.prometheus,
  eq_iff s.kind SymbolKind.metric,
  eq_iff s.kind SymbolKind.label,
  eq_iff s.name t.name,
  eq_iff s.parent t.parent,
  metric_family_matches_iff s.name t.name,
  metric_family_matches_iff s.parent t.parent,
)
