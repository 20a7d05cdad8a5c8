-- ===== src/Graph/Traverse.antt =====
-- internal/graph/graph.go, `ImpactPaths`: the breadth-first traversal. A round takes one item off
-- the queue; every item but the first is the target of an edge and is queued once, so one more round
-- than there are edges is enough fuel.
pub mod Fuel
pub mod Walks
pub mod Rounds
pub mod Shortest
use telemetry_change_guard.Common.{
  ℕ, zero, suc, String, Option, none, some, List, [], ◌∷◌, ◌++◌, map, if◌then◌else◌, has, length,
  is_some,
}
use telemetry_change_guard.Graph.{Graph, Edge, Route, node, out_edges, sort_edges}
use mathlib.Core.List.{flatten}

-- `queueItem`
pub record Item : Type 0 where
  pub node : String
  pub route : Route

pub record Search : Type 0 where
  pub visited : List String
  pub queue : List Item
  pub routes : List Route

-- The two calls of `appendCopy`.
unfoldable pub extend_route : Route → Edge → Route
extend_route r e = record { nodes = r.nodes ++ e.to ∷ []; edges = r.edges ++ e.kind ∷ [] }

unfoldable pub visit : Route → Edge → Search → Search
visit r e s = record {
  visited = e.to ∷ s.visited;
  queue = s.queue ++ (record { node = e.to; route = extend_route r e }) ∷ [];
  routes = s.routes ++ extend_route r e ∷ [];
}

-- The body of the inner loop.
unfoldable pub offer : Route → Edge → Search → Search
offer r e s = if has e.to s.visited then s else visit r e s

-- The inner loop, over the edges out of the current node.
unfoldable pub scan : Route → List Edge → Search → Search
scan r [] s = s
scan r (e ∷ es) s = scan r es (offer r e s)

-- One round of the outer loop, after `current` left the queue.
unfoldable pub expand : Graph → Item → List Item → Search → Search
expand g current rest s =
    scan current.route (sort_edges (out_edges g current.node)) (record s { queue = rest })

unfoldable pub traverse : Graph → ℕ → Search → Option (List Route)
traverse g zero s = elim s.queue [ [] ↦ some s.routes | _ ∷ _ ↦ none ]
traverse g (suc fuel) s = elim s.queue [
  | [] ↦ some s.routes
  | current ∷ rest ↦ traverse g fuel (expand g current rest s)
]

abbrev pub start_route : String → Route
start_route id = record { nodes = id ∷ []; edges = [] }

abbrev pub start_search : String → Search
start_search id = record {
  visited = id ∷ [];
  queue = (record { node = id; route = start_route id }) ∷ [];
  routes = [];
}

-- All edges of the graph.
abbrev pub stored_edges : Graph → List Edge
stored_edges g = flatten (map (λ p. p.1) g.out)

abbrev pub traversal : Graph → String → Option (List Route)
traversal g start = traverse g (suc (length (stored_edges g))) (start_search start)

-- `none` would mean that the fuel ran out.
unfoldable pub impact_paths : Graph → String → Option (List Route)
impact_paths g start = if is_some (node g start) then traversal g start else some []
