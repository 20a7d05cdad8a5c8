-- ===== src/Neutral/Paths.antt =====
-- internal/graph/graph.go, `ImpactPaths`, and `ImpactedConsumers` of internal/impact/finding.go: on a graph
-- without owners.
use telemetry_change_guard.Common.{
  ℕ, zero, suc, String, Bool, Option, none, some, List, [], ◌∷◌, map, ◌≡◌, refl, ap, ◌∙◌, length,
  Option-cases, List-cases, inl, inr, not, ◌&&◌, ltb, str_ltb, sort_by, if◌then◌else◌,
}
use mathlib.Core.Option.{map as option_map}
use telemetry_change_guard.Domain.{Symbol}
use telemetry_change_guard.Graph.{Graph, Node, Route, node, all_nodes, out_edges}
use telemetry_change_guard.Graph.Traverse.{
  stored_edges, Search, traverse, impact_paths, expand, start_search,
}
use telemetry_change_guard.Graph.Traverse.Walks.{end_of}
use telemetry_change_guard.Impact.Findings.{
  PathMap, paths_from, record_path, record_for, record_paths, node_matches, impacted_from,
  impacted_consumers,
}
use telemetry_change_guard.Ownership.Enrich.Keeps.{unowned}
use telemetry_change_guard.Neutral.{bare_node, bare, map_values, sort_by-map}
use telemetry_change_guard.Neutral.Graphs.{node-bare, is_some-node-bare}

traverse-bare : (g : Graph) (fuel : ℕ) (s : Search) → traverse (bare g) fuel s ≡ traverse g fuel s
unfolding traverse bare expand out_edges
traverse-bare g zero s = refl
traverse-bare g (suc fuel) s = elim (List-cases s.queue) [
  | inl e ↦ rw e refl
  | inr (current, rest, e) ↦ rw e (traverse-bare g fuel (expand g current rest s))
]

impact_paths-bare :
    (g : Graph) (start : String) → impact_paths (bare g) start ≡ impact_paths g start
unfolding impact_paths bare
impact_paths-bare g start =
    rw
      (
        is_some-node-bare g start,
        traverse-bare g (suc (length (stored_edges g))) (start_search start),
      )
      refl

paths_from-bare : (g : Graph) (id : String) → paths_from (bare g) id ≡ paths_from g id
unfolding paths_from
paths_from-bare g id = rw (impact_paths-bare g id, paths_from) refl

record_path-bare :
    (end : Option Node) (path : Route) (m : PathMap)
    → record_path (option_map bare_node end) path m ≡ record_path end path m
unfolding record_path record_for unowned
record_path-bare none path m = refl
record_path-bare (some end) path m = elim (Option-cases end.consumer) [
  | inl e ↦ rw e refl
  | inr (c, e) ↦ rw e refl
]

record_paths-bare :
    (g : Graph) (transitive : Bool) (paths : List Route) (m : PathMap)
    → record_paths (bare g) transitive paths m ≡ record_paths g transitive paths m
unfolding record_paths
record_paths-bare g transitive [] m = refl
record_paths-bare g transitive (path ∷ paths) m =
    let skipped = not transitive && ltb 1 (length path.edges) in
    ap (λ n. record_paths (bare g) transitive paths (if skipped then m else record_path n path m))
      (node-bare g (end_of path))
    ∙ ap (λ m'. record_paths (bare g) transitive paths (if skipped then m else m'))
        (record_path-bare (node g (end_of path)) path m)
    ∙ record_paths-bare g transitive paths
        (if skipped then m else record_path (node g (end_of path)) path m)

values :
    (m : List (String × Node))
    → map (λ p. p.1) (map_values bare_node m) ≡ map bare_node (map (λ p. p.1) m)
values [] = refl
values (e ∷ m) = ap (λ rest. bare_node e.1 ∷ rest) (values m)

all_nodes-bare : (g : Graph) → all_nodes (bare g) ≡ map bare_node (all_nodes g)
unfolding all_nodes bare
all_nodes-bare g =
    ap (sort_by (λ a b. str_ltb a.id b.id)) (values g.nodes)
    ∙ sort_by-map bare_node (λ a b. str_ltb a.id b.id) (λ a b. str_ltb a.id b.id)
        (map (λ p. p.1) g.nodes) (λ a b. refl)

impacted_from-bare :
    (g : Graph) (changed : Symbol) (transitive : Bool) (ns : List Node) (m : PathMap)
    → impacted_from (bare g) changed transitive (map bare_node ns) m
      ≡ impacted_from g changed transitive ns m
unfolding impacted_from node_matches
impacted_from-bare g changed transitive [] m = refl
impacted_from-bare g changed transitive (n ∷ ns) m =
    let next =
      if node_matches changed n then record_paths g transitive (paths_from g n.id) m else m in
    ap
      (λ rs.
        impacted_from (bare g) changed transitive (map bare_node ns)
          (if node_matches changed n then record_paths (bare g) transitive rs m else m))
      (paths_from-bare g n.id)
    ∙ ap
        (λ m'.
          impacted_from (bare g) changed transitive (map bare_node ns)
            (if node_matches changed n then m' else m))
        (record_paths-bare g transitive (paths_from g n.id) m)
    ∙ impacted_from-bare g changed transitive ns next

-- The consumers that a changed symbol reaches, and their paths, do not depend on owners and metadata.
pub impacted_consumers-bare :
    (g : Graph) (changed : Symbol) (transitive : Bool)
    → impacted_consumers (some (bare g)) changed transitive
      ≡ impacted_consumers (some g) changed transitive
unfolding impacted_consumers
impacted_consumers-bare g changed transitive =
    ap (λ ns. impacted_from (bare g) changed transitive ns []) (all_nodes-bare g)
    ∙ impacted_from-bare g changed transitive (all_nodes g) []
