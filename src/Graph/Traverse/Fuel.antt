-- ===== src/Graph/Traverse/Fuel.antt =====
-- internal/graph/graph.go, `ImpactPaths`: the fuel of the traversal.
use mathlib.Core.List.Memᴰ
use mathlib.Core.List.{flatten}
use telemetry_change_guard.Common.{
  ℕ, zero, suc, ◌+◌, ◌≤◌, String, false, some, List, [], ◌∷◌, map, ◌≡◌, refl, ap, arith, Memᴰ,
  Memᴰ-perm, Permᴰ-sym, length, length-append, List-cases, has, if◌then◌else◌, Bool-cases, inl, inr,
  ◌==◌, eq_iff, entries, sort_by-perm, subst, is_some,
}
use telemetry_change_guard.Graph.{Graph, Edge, Route, out_edges, sort_edges, edge_before, node}
use telemetry_change_guard.Graph.Traverse.{
  Item, Search, extend_route, visit, offer, scan, expand, traverse, stored_edges, start_search,
  traversal, impact_paths,
}

-- The edges that lead to a node which is not yet visited.
abbrev unseen : List String → List Edge → ℕ
unseen vs [] = 0
unseen vs (e ∷ es) = if has e.to vs then unseen vs es else suc (unseen vs es)

unseen-le-length : (vs : List String) (es : List Edge) → unseen vs es ≤ length es
unseen-le-length vs [] = omega arith
unseen-le-length vs (e ∷ es) = ground (arith, unseen-le-length vs es)

unseen-cons-le :
    (v : String) (vs : List String) (es : List Edge) → unseen (v ∷ vs) es ≤ unseen vs es
unfolding has
unseen-cons-le v vs [] = omega arith
unseen-cons-le v vs (e ∷ es) = ground (arith, unseen-cons-le v vs es)

-- A first visit of an edge's target leaves fewer edges unseen.
unseen-visit :
    (e : Edge) (vs : List String) (es : List Edge)
    → Memᴰ e es
    → has e.to vs ≡ false
    → suc (unseen (e.to ∷ vs) es) ≤ unseen vs es
unfolding has
unseen-visit e vs [] m h = absurd (Memᴰ.not-nil m)
unseen-visit e vs (f ∷ es) (Memᴰ.head same) h =
    let fresh : has f.to vs ≡ false = subst (λ (x : Edge). has x.to vs ≡ false) same h in
    let target : e.to ≡ f.to = ap (λ (x : Edge). x.to) same in
    ground (arith, eq_iff e.to f.to, unseen-cons-le e.to vs es)
unseen-visit e vs (f ∷ es) (Memᴰ.tail m) h = ground (arith, unseen-visit e vs es m h)

-- What the traversal has left to do.
abbrev work : Graph → Search → ℕ
work g s = unseen s.visited (stored_edges g) + length s.queue

work-offer :
    (g : Graph) (r : Route) (e : Edge) (s : Search)
    → Memᴰ e (stored_edges g)
    → work g (offer r e s) ≤ work g s
unfolding offer visit
work-offer g r e s m = ground (
  arith,
  unseen-visit e s.visited (stored_edges g) m,
  length-append s.queue (record { node = e.to; route = extend_route r e } ∷ []),
)

work-scan :
    (g : Graph) (r : Route) (es : List Edge) (s : Search)
    → ((e : Edge) → Memᴰ e es → Memᴰ e (stored_edges g))
    → work g (scan r es s) ≤ work g s
unfolding scan
work-scan g r [] s f = omega arith
work-scan g r (e ∷ es) s f = omega (
  arith,
  work-offer g r e s (f e (Memᴰ.head refl)),
  work-scan g r es (offer r e s) (λ d m. f d (Memᴰ.tail m)),
)

entries-stored :
    (k : String) (m : List (String × List Edge)) {e : Edge}
    → Memᴰ e (entries k m)
    → Memᴰ e (flatten (map (λ p. p.1) m))
unfolding entries flatten
entries-stored k [] h = absurd (Memᴰ.not-nil h)
entries-stored k ((j, es) ∷ m) h = elim (Bool-cases (j == k)) [
  | inl e ↦ Memᴰ.append_left _ (rw e at h)
  | inr e ↦ Memᴰ.append_right es (entries-stored k m (rw e at h))
]

-- Sorting keeps the edges.
pub mem-sort_edges : (es : List Edge) {e : Edge} → Memᴰ e (sort_edges es) → Memᴰ e es
unfolding sort_edges
mem-sort_edges es m = Memᴰ-perm (sort_by-perm edge_before es) m

pub sorted-mem : (es : List Edge) {e : Edge} → Memᴰ e es → Memᴰ e (sort_edges es)
unfolding sort_edges
sorted-mem es m = Memᴰ-perm (Permᴰ-sym (sort_by-perm edge_before es)) m

expand-work :
    (g : Graph) (i : Item) (rest : List Item) (s : Search)
    → s.queue ≡ i ∷ rest
    → suc (work g (expand g i rest s)) ≤ work g s
unfolding expand
expand-work g i rest s e = omega (
  arith,
  ap length e,
  work-scan g i.route (sort_edges (out_edges g i.node)) (record s { queue = rest })
      (λ d m. unfold out_edges in (entries-stored i.node g.out (mem-sort_edges _ m))),
)

traverse_total :
    (g : Graph) (fuel : ℕ) (s : Search)
    → work g s ≤ fuel
    → (rs : List Route) × (traverse g fuel s ≡ some rs)
unfolding traverse
traverse_total g zero s h = elim (List-cases s.queue) [
  | inl empty ↦ (s.routes, rw (empty, traverse))
  | inr (i, rest, e) ↦ absurd (omega (arith, ap length e))
]
traverse_total g (suc fuel) s h = elim (List-cases s.queue) [
  | inl empty ↦ (s.routes, rw (empty, traverse))
  | inr (i, rest, e) ↦
      let (rs, ends) =
        traverse_total g fuel (expand g i rest s) (omega (arith, expand-work g i rest s e)) in
      (rs, rw (e, traverse) ends)
]

pub traversal_total :
    (g : Graph) (start : String) → (rs : List Route) × (traversal g start ≡ some rs)
traversal_total g start =
    traverse_total g (suc (length (stored_edges g))) (start_search start)
      (omega (arith, unseen-le-length (start ∷ []) (stored_edges g)))

-- `ImpactPaths` returns on every graph, with cycles or without, and for every start.
pub impact_paths_total :
    (g : Graph) (start : String) → (rs : List Route) × (impact_paths g start ≡ some rs)
unfolding impact_paths
impact_paths_total g start = elim (Bool-cases (is_some (node g start))) [
  | inl found ↦ rw found (traversal_total g start)
  | inr missing ↦ rw missing ([], refl)
]
