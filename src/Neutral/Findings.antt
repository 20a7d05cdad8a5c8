-- ===== src/Neutral/Findings.antt =====
-- internal/impact/finding.go, `Analyze`: on a discovery without owners.
use mathlib.Core.Path.{ap₂}
use telemetry_change_guard.Common.{
  String, Bool, Option, none, some, List, [], ◌∷◌, map, ◌≡◌, refl, sym, ap, ◌∙◌, Result, ok, err,
  sort_by, ◌++◌,
}
use telemetry_change_guard.Domain.{Change, ChangeSet, Consumer, Reference, Discovery}
use telemetry_change_guard.Graph.{Graph}
use telemetry_change_guard.Impact.{ImpactError}
use telemetry_change_guard.Impact.Build.{build_graph}
use telemetry_change_guard.Impact.Findings.{
  PathMap, Findings, Turn, skip, add, stop, consumer_before, check_consumers, is_uncertain, assess,
  assess_consumers, assess_changes, impacted_consumers, analyze, change_before,
}
use telemetry_change_guard.Neutral.{bare, bare_discovery, map_ok, sort_by-map}
use telemetry_change_guard.Neutral.Graphs.{build_graph-bare}
use telemetry_change_guard.Neutral.Paths.{impacted_consumers-bare}
use telemetry_change_guard.Ownership.Enrich.Keeps.{unowned, Keeps}

check_consumers-bare :
    (seen : List String) (cs : List Consumer)
    → check_consumers seen (map unowned cs) ≡ check_consumers seen cs
unfolding check_consumers unowned
check_consumers-bare seen [] = refl
check_consumers-bare seen (c ∷ cs) = rw (check_consumers-bare (c.id ∷ seen) cs) refl

-- What the loops make of the result of the first member and that of the others.
abbrev after_turn : Turn → Findings → Findings
after_turn turn rest = elim turn [
  | skip ↦ rest
  | add f ↦ (f ∷ rest.0, rest.1)
  | stop e ↦ ([], some e)
]

abbrev after_change : Findings → Findings → Findings
after_change here rest = elim here.1 [ none ↦ (here.0 ++ rest.0, rest.1) | some e ↦ here ]

abbrev after_check : Option ImpactError → Findings → Findings
after_check check rest = elim check [ some e ↦ ([], some e) | none ↦ rest ]

assess_consumers-bare :
    (references : List Reference) (change : Change) (m : PathMap) (cs : List Consumer)
    → assess_consumers references change m (map unowned cs)
      ≡ assess_consumers references change m cs
unfolding assess_consumers assess unowned is_uncertain
assess_consumers-bare references change m [] = refl
assess_consumers-bare references change m (c ∷ cs) =
    ap (after_turn (assess references change m c)) (assess_consumers-bare references change m cs)

assess_changes-bare :
    (g : Graph) (transitive : Bool) (references : List Reference) (cs : List Consumer)
    (changes : List Change)
    → assess_changes (bare g) transitive references (map unowned cs) changes
      ≡ assess_changes g transitive references cs changes
unfolding assess_changes
assess_changes-bare g transitive references cs [] = refl
assess_changes-bare g transitive references cs (change ∷ changes) =
    let old = impacted_consumers (some g) change.from transitive in
    ap₂ after_change
      (ap (λ m. assess_consumers references change m (map unowned cs))
          (impacted_consumers-bare g change.from transitive)
        ∙ assess_consumers-bare references change old cs)
      (assess_changes-bare g transitive references cs changes)

sort_consumers-bare :
    (cs : List Consumer)
    → sort_by consumer_before (map unowned cs) ≡ map unowned (sort_by consumer_before cs)
unfolding consumer_before unowned
sort_consumers-bare cs = sort_by-map unowned consumer_before consumer_before cs (λ a b. refl)

analyze-bare :
    (s : ChangeSet) (d : Discovery) (g : Graph) (transitive : Bool)
    → analyze s (bare_discovery d) (some (bare g)) transitive ≡ analyze s d (some g) transitive
unfolding analyze
analyze-bare s d g transitive =
    let sorted = sort_by consumer_before d.consumers in
    let changes = sort_by change_before s.changes in
    ap
      (λ cs.
        after_check (check_consumers [] cs)
          (assess_changes (bare g) transitive d.references cs changes))
      (sort_consumers-bare d.consumers)
    ∙ ap₂ after_check (check_consumers-bare [] sorted)
        (assess_changes-bare g transitive d.references sorted changes)

bare-Keeps :
    {d d' : Discovery}
    → Keeps d d'
    → bare_discovery d' ≡ record (bare_discovery d) { diagnostics = d'.diagnostics }
bare-Keeps {d} {d'} k = λ i. record {
  consumers = k.consumers i;
  references = k.references i;
  productions = k.productions i;
  diagnostics = d'.diagnostics;
}

-- The graph of the second discovery, up to owners and metadata, is that of the first.
pub build_graph-Keeps :
    (d d' : Discovery) → Keeps d d' → map_ok bare (build_graph d') ≡ map_ok bare (build_graph d)
unfolding build_graph
build_graph-Keeps d d' k =
    sym (build_graph-bare d') ∙ ap build_graph (bare-Keeps k) ∙ build_graph-bare d

pub analyze-Keeps :
    (s : ChangeSet) (d d' : Discovery) (g g' : Graph) (transitive : Bool)
    → Keeps d d'
    → bare g' ≡ bare g
    → analyze s d' (some g') transitive ≡ analyze s d (some g) transitive
unfolding analyze
analyze-Keeps s d d' g g' transitive k h =
    sym (analyze-bare s d' g' transitive)
    ∙ ap₂ (λ x y. analyze s x (some y) transitive) (bare-Keeps k) h
    ∙ analyze-bare s d g transitive

ok_of :
    (r r' : Result ImpactError Graph) {g : Graph}
    → map_ok bare r' ≡ map_ok bare r
    → r ≡ ok g
    → (g' : Graph) × (r' ≡ ok g') × (bare g' ≡ bare g)
ok_of (ok g) (ok g') h e = (g', refl, cc)
ok_of (ok g) (err x) h e = cc
ok_of (err x) r' h e = cc

pub graph-Keeps :
    (d d' : Discovery) {g : Graph}
    → Keeps d d'
    → build_graph d ≡ ok g
    → (g' : Graph) × (build_graph d' ≡ ok g') × (bare g' ≡ bare g)
graph-Keeps d d' k e = ok_of (build_graph d) (build_graph d') (build_graph-Keeps d d' k) e
