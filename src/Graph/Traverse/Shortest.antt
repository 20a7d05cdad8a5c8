-- ===== src/Graph/Traverse/Shortest.antt =====
-- internal/graph/graph.go, `ImpactPaths`: the recorded routes.
use mathlib.Core.List.Memᴰ
use telemetry_change_guard.Common.{
  ℕ, zero, suc, ◌≤◌, String, some, List, [], ◌∷◌, ◌≡◌, refl, ap, sym, ◌∙◌, arith, Memᴰ, length, inl,
  inr, ◌≢◌, subst, Distinct, All_member, List-cases,
}
use telemetry_change_guard.Graph.{Graph, Route}
use telemetry_change_guard.Graph.Invariant.{HasNode}
use telemetry_change_guard.Graph.Traverse.{
  Search, expand, traverse, start_search, start_route, impact_paths, stored_edges,
}
use telemetry_change_guard.Graph.Traverse.Fuel.{impact_paths_total}
use telemetry_change_guard.Graph.Traverse.Walks.{
  Walk, here, step, end_of, depth, depth-extend_route,
}
use telemetry_change_guard.Graph.Traverse.Rounds.{found, Inv, expand-Inv, start-Inv}

pub record IsShortestPaths (g : Graph) (start : String) (rs : List Route) : Type 0 where
  pub walks : (r : Route) → Memᴰ r rs → Walk g start (end_of r) r
  pub away : (r : Route) → Memᴰ r rs → end_of r ≢ start
  pub distinct : Distinct end_of rs
  pub complete :
      (v : String) (w : Route)
      → Walk g start v w
      → v ≢ start
      → (r : Route) × Memᴰ r rs × (end_of r ≡ v)
  pub shortest : (r w : Route) → Memᴰ r rs → Walk g start (end_of r) w → depth r ≤ depth w

-- When the traversal returns, the invariant holds of an empty queue.
traverse_rule :
    (g : Graph) (start : String) (fuel : ℕ) (s : Search) {rs : List Route}
    → Inv g start s
    → traverse g fuel s ≡ some rs
    → (t : Search) × Inv g start t × (t.queue ≡ []) × (t.routes ≡ rs)
unfolding traverse
traverse_rule g start zero s h e = elim (List-cases s.queue) [
  | inl empty ↦ (s, h, empty, ground arith)
  | inr (i, rest, q) ↦ absurd (ground arith)
]
traverse_rule g start (suc fuel) s h e = elim (List-cases s.queue) [
  | inl empty ↦ (s, h, empty, ground arith)
  | inr (i, rest, q) ↦
      traverse_rule g start fuel (expand g i rest s) (expand-Inv g start i rest s q h)
        (rw (q, traverse) at e)
]

module _ (g : Graph) (start : String) (t : Search) (h : Inv g start t) (empty : t.queue ≡ []) where
  -- Every walk has a recorded route to the same node that is no longer.
  recorded :
      {v : String} {w : Route}
      → Walk g start v w
      → (r : Route) × Memᴰ r (found start t) × (end_of r ≡ v) × (depth r ≤ depth w)
  recorded here = (start_route start, Memᴰ.head refl, refl, omega arith)
  recorded (step {u} {r = w} p e m) =
      let (q, f, ends, short) = recorded p in
      elim (h.settled q f) [
        | inl (i, waits, _) ↦ absurd (Memᴰ.not-nil (subst (Memᴰ i) empty waits))
        | inr done ↦
            let (r, f', ends', near) = done e (rw ends m) in
            (r, f', ends', omega (arith, depth-extend_route w e))
      ]

  Distinct-unique :
      (rs : List Route) (q r : Route)
      → Distinct end_of rs
      → Memᴰ q rs
      → Memᴰ r rs
      → end_of q ≡ end_of r
      → q ≡ r
  Distinct-unique [] q r d m n e = elim m [ ]
  Distinct-unique (x ∷ rs) q r (low, d) m n e = elim (Memᴰ.cases_cons m) [
    | inl a ↦ elim (Memᴰ.cases_cons n) [
      | inl b ↦ a ∙ sym b
      | inr b ↦ absurd (All_member _ rs low b (ap end_of (sym a) ∙ e))
    ]
    | inr a ↦ elim (Memᴰ.cases_cons n) [
      | inl b ↦ absurd (All_member _ rs low a (ap end_of (sym b) ∙ sym e))
      | inr b ↦ Distinct-unique rs q r d a b e
    ]
  ]

  routes-IsShortestPaths : IsShortestPaths g start t.routes
  routes-IsShortestPaths = record {
    walks = λ r m. h.sound.walks r (Memᴰ.tail m);
    away = λ r m e. All_member _ t.routes h.sound.distinct.0 m (sym e);
    distinct = h.sound.distinct.1;
    complete = λ v w p ne.
        let (r, f, ends, _) = recorded p in
        elim (Memᴰ.cases_cons f) [
          | inl is_start ↦ absurd (ne (sym ends ∙ ap end_of is_start))
          | inr m ↦ (r, m, ends)
        ];
    shortest = λ r w m p.
        let (q, f, ends, short) = recorded p in
        let same = Distinct-unique (found start t) q r h.sound.distinct f (Memᴰ.tail m) ends in
        subst (λ (x : Route). depth x ≤ depth w) same short;
  }

-- For a node of the graph `ImpactPaths` returns, and what it returns is one shortest walk to each
-- other node that can be reached from it, and nothing else.
pub impact_paths-IsShortestPaths :
    (g : Graph) (start : String)
    → HasNode g start
    → (rs : List Route) × (impact_paths g start ≡ some rs) × IsShortestPaths g start rs
unfolding impact_paths
impact_paths-IsShortestPaths g start present =
    let (rs, e) = impact_paths_total g start in
    let run = rw (present, impact_paths) at e in
    let (t, h, empty, same) =
      traverse_rule g start (suc (length (stored_edges g))) (start_search start) (start-Inv g start)
        run in
    (rs, e, subst (IsShortestPaths g start) same (routes-IsShortestPaths g start t h empty))
