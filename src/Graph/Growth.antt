-- ===== src/Graph/Growth.antt =====
-- internal/graph/graph.go: which nodes and edges a graph has after `AddNode` and `AddEdge`.
use mathlib.Core.List.Memᴰ
use telemetry_change_guard.Common.{
  String, Bool, true, false, Option, none, some, List, [], ◌∷◌, ◌++◌, ◌≡◌, refl, sym, ap, ◌∙◌,
  subst, ◌↔◌, ◌⊎◌, inl, inr, ◌==◌, if◌then◌else◌, eq_iff, arith, Memᴰ, Memᴰ-append, Memᴰ-cons, ok,
  lookup, assign, lookup-assign, has, Option-cases, is_some, IsFreeOf,
}
use telemetry_change_guard.Graph.{
  Node, Edge, Graph, node, out_edges, add_node, add_edge, edge_key, empty_graph,
}
use telemetry_change_guard.Graph.Identity.{nul, edge_key_injective}
use telemetry_change_guard.Graph.Invariant.{
  HasEdge, IsWellFormed, add_node_cases, add_edge_cases, add_node-IsWellFormed,
  add_edge-IsWellFormed, HasEdge-insert_edge, empty_graph-IsWellFormed, node-insert_edge,
}

-- Nodes stay as they are.
abbrev pub Extends : Graph → Graph → Type 0
Extends g g' = (id : String) (m : Node) → node g id ≡ some m → node g' id ≡ some m

-- Every node of the graph is in a list.
abbrev pub AreKnown : List Node → Graph → Type 0
AreKnown ns g = (id : String) (m : Node) → node g id ≡ some m → Memᴰ m ns

node-assign :
    (g : Graph) (n : Node) (id : String)
    → node (record g { nodes = assign n.id n g.nodes }) id
      ≡ (if n.id == id then some n else node g id)
unfolding node
node-assign g n id = lookup-assign n.id id n g.nodes

fresh-Extends :
    (g : Graph) (n : Node)
    → node g n.id ≡ none
    → Extends g (record g { nodes = assign n.id n g.nodes })
fresh-Extends g n e id m h = ground (arith, node-assign g n id, eq_iff n.id id)

pub add_node-Extends : (g : Graph) (n : Node) {g' : Graph} → add_node g n ≡ ok g' → Extends g g'
add_node-Extends g n h = elim (add_node_cases g n h) [
  | inl (old, _, _, _, e) ↦ subst (Extends g) (sym e) (λ id m k. k)
  | inr (fresh, e) ↦ subst (Extends g) (sym e) (fresh-Extends g n fresh)
]

-- The node of the ID has the kind and the name that were asked for.
pub add_node_present :
    (g : Graph) (n : Node) {g' : Graph}
    → add_node g n ≡ ok g'
    → (m : Node) × (node g' n.id ≡ some m) × (m.kind ≡ n.kind) × (m.name ≡ n.name)
add_node_present g n h = elim (add_node_cases g n h) [
  | inl (old, k, kind, name, e) ↦ (old, rw e k, kind, name)
  | inr (fresh, e) ↦
      (n, rw e (rw (node-assign g n n.id) (rw ((eq_iff n.id n.id).1 refl) refl)), refl, refl)
]

pub add_node-AreKnown :
    (g : Graph) (n : Node) (ns : List Node) {g' : Graph}
    → AreKnown ns g
    → add_node g n ≡ ok g'
    → AreKnown (ns ++ n ∷ []) g'
add_node-AreKnown g n ns known h = elim (add_node_cases g n h) [
  | inl (old, _, _, _, e) ↦
      subst (AreKnown (ns ++ n ∷ [])) (sym e) (λ id m k. Memᴰ.append_left _ (known id m k))
  | inr (fresh, e) ↦ subst (AreKnown (ns ++ n ∷ [])) (sym e) (λ id m k. elim (fresh_node id m k) [
    | inl same ↦ Memᴰ.append_right ns (Memᴰ.head same)
    | inr old ↦ Memᴰ.append_left _ (known id m old)
  ])
]
  where
    fresh_node :
        (id : String) (m : Node)
        → node (record g { nodes = assign n.id n g.nodes }) id ≡ some m
        → (m ≡ n) ⊎ (node g id ≡ some m)
    fresh_node id m k = ground (arith, node-assign g n id, k)

pub add_edge-node :
    (g : Graph) (e : Edge) {g' : Graph}
    → add_edge g e ≡ ok g'
    → (id : String) → node g' id ≡ node g id
add_edge-node g e h id =
    let (_, _, c) = add_edge_cases g e h in
    elim c [
      | inl (_, same) ↦ ap (λ x. node x id) same
      | inr (_, grown) ↦ ap (λ x. node x id) grown ∙ node-insert_edge g e id
    ]

-- The graph is well formed and has the edges of a list and no others.
pub record Tracks (es : List Edge) (g : Graph) : Type 0 where
  pub well_formed : IsWellFormed g
  pub edges_iff : (e : Edge) → HasEdge g e ↔ Memᴰ e es

pub empty_graph-Tracks : Tracks [] empty_graph
unfolding out_edges telemetry_change_guard.Common.entries
empty_graph-Tracks = record {
  well_formed = empty_graph-IsWellFormed;
  edges_iff = λ e. (λ m. m, λ m. m);
}

-- The IDs of both ends hold no NUL.
pub record IsClean (e : Edge) : Type 0 where
  pub clean_from : IsFreeOf nul e.from
  pub clean_to : IsFreeOf nul e.to

pub add_node-Tracks :
    (g : Graph) (n : Node) (es : List Edge) {g' : Graph}
    → Tracks es g
    → add_node g n ≡ ok g'
    → Tracks es g'
add_node-Tracks g n es {g'} t h = record {
  well_formed = add_node-IsWellFormed g n t.well_formed h;
  edges_iff = λ e. elim (add_node_cases g n h) [
    | inl (old, _, _, _, same) ↦ subst (λ x. HasEdge x e ↔ Memᴰ e es) (sym same) (t.edges_iff e)
    | inr (fresh, same) ↦
        subst (λ x. HasEdge x e ↔ Memᴰ e es) (sym same) (unfold out_edges in t.edges_iff e)
  ];
}

add_edge-edges :
    (g : Graph) (e : Edge) (es : List Edge) {g' : Graph}
    → Tracks es g
    → ((f : Edge) → Memᴰ f es → IsClean f)
    → IsClean e
    → add_edge g e ≡ ok g'
    → (f : Edge) → HasEdge g' f ↔ (HasEdge g f ⊎ (f ≡ e))
add_edge-edges g e es t clean c h f =
    let (_, _, cases) = add_edge_cases g e h in
    elim cases [
      | inr (_, grown) ↦
          subst (λ x. HasEdge x f ↔ (HasEdge g f ⊎ (f ≡ e))) (sym grown) (HasEdge-insert_edge g e f)
      | inl (keyed, same) ↦
          let (d, m, k) = t.well_formed.backed (edge_key e) keyed in
          let cd = clean d ((t.edges_iff d).0 m) in
          let twin = edge_key_injective d e cd.clean_from cd.clean_to c.clean_from c.clean_to k in
          subst (λ x. HasEdge x f ↔ (HasEdge g f ⊎ (f ≡ e))) (sym same)
            (inl, λ s. elim s [ inl old ↦ old | inr eq ↦ subst (HasEdge g) (twin ∙ sym eq) m ])
    ]

pub add_edge-Tracks :
    (g : Graph) (e : Edge) (es : List Edge) {g' : Graph}
    → Tracks es g
    → ((f : Edge) → Memᴰ f es → IsClean f)
    → IsClean e
    → add_edge g e ≡ ok g'
    → Tracks (es ++ e ∷ []) g'
add_edge-Tracks g e es t clean c h = record {
  well_formed = add_edge-IsWellFormed g e t.well_formed h;
  edges_iff = λ f. ground (
    arith,
    add_edge-edges g e es t clean c h f,
    t.edges_iff f,
    Memᴰ-append f es (e ∷ []),
    Memᴰ-cons f e [],
    λ (m : Memᴰ f []). Memᴰ.not-nil m,
  );
}
