-- ===== src/Graph/Traverse/Walks.antt =====
-- internal/graph/graph.go: walks along the edges of a graph, the specification of `ImpactPaths`.
use telemetry_change_guard.Common.{
  ℕ, suc, String, List, [], ◌∷◌, ◌++◌, ◌≡◌, refl, arith, Memᴰ, length, length-append,
}
use telemetry_change_guard.Graph.{Graph, Edge, Route, out_edges}
use telemetry_change_guard.Graph.Traverse.{extend_route, start_route}

-- The routes along edges of the graph from `start`, with the node where each ends.
pub data Walk (g : Graph) (start : String) : String → Route → Type 0 where
  here : Walk g start start (start_route start)
  step :
      {u : String} {r : Route}
      → Walk g start u r
      → (e : Edge) → Memᴰ e (out_edges g u)
      → Walk g start e.to (extend_route r e)

abbrev pub last_text : List String → String
last_text [] = ""
last_text (s ∷ []) = s
last_text (s ∷ t ∷ ts) = last_text (t ∷ ts)

-- `path.Nodes[len(path.Nodes)-1]`
abbrev pub end_of : Route → String
end_of r = last_text r.nodes

-- The number of edges.
abbrev pub depth : Route → ℕ
depth r = length r.edges

last_text-append : (ss : List String) (s : String) → last_text (ss ++ s ∷ []) ≡ s
last_text-append [] s = refl
last_text-append (t ∷ []) s = refl
last_text-append (t ∷ u ∷ ss) s = last_text-append (u ∷ ss) s

pub end_of-extend_route : (r : Route) (e : Edge) → end_of (extend_route r e) ≡ e.to
unfolding extend_route
end_of-extend_route r e = last_text-append r.nodes e.to

pub depth-extend_route : (r : Route) (e : Edge) → depth (extend_route r e) ≡ suc (depth r)
unfolding extend_route
depth-extend_route r e = omega (arith, length-append r.edges (e.kind ∷ []))

pub Walk-end_of : {g : Graph} {start u : String} {r : Route} → Walk g start u r → end_of r ≡ u
Walk-end_of here = refl
Walk-end_of (step {r} w e m) = end_of-extend_route r e
