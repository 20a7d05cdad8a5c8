-- ===== src/Graph/Invariant.antt =====
-- internal/graph/graph.go: what every graph that `AddNode` and `AddEdge` build satisfies.
use mathlib.Core.List.Memᴰ
use telemetry_change_guard.Common.{
  String, true, false, none, some, [], ◌∷◌, ◌++◌, ◌≡◌, refl, sym, subst, ◌↔◌, ◌⊎◌, inl, inr, ◌==◌,
  if◌then◌else◌, eq_iff, arith, Memᴰ, Memᴰ-append, Memᴰ-cons, ok, lookup, assign, lookup-assign,
  entries-extend, entries, has, is_some, ap, ◌∙◌, Option-cases,
}
use telemetry_change_guard.Graph.{
  Node, Edge, Graph, node, out_edges, in_edges, add_node, add_edge, insert_edge, edge_key,
  empty_graph,
}

abbrev pub HasNode : Graph → String → Type 0
HasNode g id = is_some (node g id) ≡ true

-- `edge` is in the graph.
abbrev pub HasEdge : Graph → Edge → Type 0
HasEdge g e = Memᴰ e (out_edges g e.from)

pub record IsWellFormed (g : Graph) : Type 0 where
  pub named : (id : String) (n : Node) → node g id ≡ some n → n.id ≡ id
  pub filed : (id : String) (e : Edge) → Memᴰ e (out_edges g id) → e.from ≡ id
  pub from_node : (e : Edge) → HasEdge g e → HasNode g e.from
  pub to_node : (e : Edge) → HasEdge g e → HasNode g e.to
  pub mirrored : (e : Edge) → HasEdge g e ↔ Memᴰ e (in_edges g e.to)
  pub keyed : (e : Edge) → HasEdge g e → has (edge_key e) g.edges ≡ true
  pub backed : (k : String) → has k g.edges ≡ true → (e : Edge) × HasEdge g e × (edge_key e ≡ k)

pub empty_graph-IsWellFormed : IsWellFormed empty_graph
unfolding node out_edges in_edges lookup entries has
empty_graph-IsWellFormed = record {
  named = λ id n h. cc h;
  filed = λ id e m. absurd (Memᴰ.not-nil m);
  from_node = λ e m. absurd (Memᴰ.not-nil m);
  to_node = λ e m. absurd (Memᴰ.not-nil m);
  mirrored = λ e. (λ m. m, λ m. m);
  keyed = λ e m. absurd (Memᴰ.not-nil m);
  backed = λ k h. cc h;
}

-- A successful `AddNode` finds a node of that identity or adds the node.
pub add_node_cases :
    (g : Graph) (n : Node) {g' : Graph}
    → add_node g n ≡ ok g'
    → ((old : Node) × (node g n.id ≡ some old)
        × (old.kind ≡ n.kind)
        × (old.name ≡ n.name)
        × (g' ≡ g))
      ⊎ ((node g n.id ≡ none) × (g' ≡ record g { nodes = assign n.id n g.nodes }))
unfolding add_node
add_node_cases g n h = elim (Option-cases (node g n.id)) [
  | inl e ↦ inr (e, ground arith)
  | inr (old, e) ↦ inl (
    old,
    e,
    ground (arith, eq_iff old.kind n.kind, eq_iff old.name n.name),
    ground (arith, eq_iff old.kind n.kind, eq_iff old.name n.name),
    ground (arith, eq_iff old.kind n.kind, eq_iff old.name n.name),
  )
]

add_fresh-IsWellFormed :
    (g : Graph) (n : Node)
    → node g n.id ≡ none
    → IsWellFormed g
    → IsWellFormed (record g { nodes = assign n.id n g.nodes })
add_fresh-IsWellFormed g n e w = record {
  named = λ id m h. ground (arith, nodes_after id, eq_iff n.id id, w.named id m);
  filed = unfold out_edges in w.filed;
  from_node =
      λ f m. ground (arith, nodes_after f.from, eq_iff n.id f.from, w.from_node f (same_edges f m));
  to_node = λ f m. ground (arith, nodes_after f.to, eq_iff n.id f.to, w.to_node f (same_edges f m));
  mirrored = unfold out_edges in_edges in w.mirrored;
  keyed = unfold out_edges in w.keyed;
  backed = unfold out_edges in w.backed;
}
  where
    after : Graph
    after = record g { nodes = assign n.id n g.nodes }

    nodes_after : (id : String) → node after id ≡ (if n.id == id then some n else node g id)
    nodes_after id = unfold node in lookup-assign n.id id n g.nodes

    same_edges : (f : Edge) → HasEdge after f → HasEdge g f
    same_edges f = unfold out_edges in (λ m. m)

-- `AddNode` keeps the graph well formed.
pub add_node-IsWellFormed :
    (g : Graph) (n : Node) {g' : Graph} → IsWellFormed g → add_node g n ≡ ok g' → IsWellFormed g'
add_node-IsWellFormed g n w h = elim (add_node_cases g n h) [
  | inl (old, _, _, _, e) ↦ subst IsWellFormed (sym e) w
  | inr (fresh, e) ↦ subst IsWellFormed (sym e) (add_fresh-IsWellFormed g n fresh w)
]

out_edges-insert_edge :
    (g : Graph) (e : Edge) (id : String)
    → out_edges (insert_edge g e) id
      ≡ (if e.from == id then out_edges g id ++ e ∷ [] else out_edges g id)
unfolding out_edges insert_edge
out_edges-insert_edge g e id = entries-extend e.from id e g.out

in_edges-insert_edge :
    (g : Graph) (e : Edge) (id : String)
    → in_edges (insert_edge g e) id
      ≡ (if e.to == id then in_edges g id ++ e ∷ [] else in_edges g id)
unfolding in_edges insert_edge
in_edges-insert_edge g e id = entries-extend e.to id e g.into

-- The edges under an index after an edge was inserted.
mem-out_edges-insert_edge :
    (g : Graph) (e f : Edge) (id : String)
    → Memᴰ f (out_edges (insert_edge g e) id) ↔ (Memᴰ f (out_edges g id) ⊎ (e.from ≡ id) × (f ≡ e))
mem-out_edges-insert_edge g e f id = rw out_edges-insert_edge (
    ground (
      arith,
      eq_iff e.from id,
      Memᴰ-append f (out_edges g id) (e ∷ []),
      Memᴰ-cons f e [],
      λ (m : Memᴰ f []). Memᴰ.not-nil m,
    ))

mem-in_edges-insert_edge :
    (g : Graph) (e f : Edge) (id : String)
    → Memᴰ f (in_edges (insert_edge g e) id) ↔ (Memᴰ f (in_edges g id) ⊎ (e.to ≡ id) × (f ≡ e))
mem-in_edges-insert_edge g e f id = rw in_edges-insert_edge (
    ground (
      arith,
      eq_iff e.to id,
      Memᴰ-append f (in_edges g id) (e ∷ []),
      Memᴰ-cons f e [],
      λ (m : Memᴰ f []). Memᴰ.not-nil m,
    ))

-- The edges of a graph after an edge was inserted.
pub HasEdge-insert_edge :
    (g : Graph) (e f : Edge) → HasEdge (insert_edge g e) f ↔ (HasEdge g f ⊎ (f ≡ e))
HasEdge-insert_edge g e f =
    let (to, from) = mem-out_edges-insert_edge g e f f.from in
    (
      λ m. elim (to m) [ inl old ↦ inl old | inr (_, same) ↦ inr same ],
      λ c. elim c [
        | inl old ↦ from (inl old)
        | inr same ↦ from (inr (ap (λ (x : Edge). x.from) (sym same), same))
      ],
    )

pub node-insert_edge : (g : Graph) (e : Edge) (id : String) → node (insert_edge g e) id ≡ node g id
unfolding node insert_edge
node-insert_edge g e id = refl

key-insert_edge :
    (g : Graph) (e f : Edge)
    → (has (edge_key f) g.edges ≡ true) ⊎ (f ≡ e)
    → has (edge_key f) (insert_edge g e).edges ≡ true
unfolding insert_edge has
key-insert_edge g e f (inl old) = ground arith
key-insert_edge g e f (inr same) = rw (same, (eq_iff (edge_key e) (edge_key e)).1 refl)

backed-insert_edge :
    (g : Graph) (e : Edge) (k : String)
    → has k (insert_edge g e).edges ≡ true
    → (edge_key e ≡ k) ⊎ (has k g.edges ≡ true)
unfolding insert_edge has
backed-insert_edge g e k h = ground (arith, eq_iff (edge_key e) k)

insert_edge-IsWellFormed :
    (g : Graph) (e : Edge)
    → HasNode g e.from
    → HasNode g e.to
    → IsWellFormed g
    → IsWellFormed (insert_edge g e)
insert_edge-IsWellFormed g e src dst w = record {
  named = λ id n h. w.named id n (rw node-insert_edge at h);
  filed = λ id f m. elim ((mem-out_edges-insert_edge g e f id).0 m) [
    | inl old ↦ w.filed id f old
    | inr (same, is_new) ↦ ap (λ (x : Edge). x.from) is_new ∙ same
  ];
  from_node = λ f m. elim ((HasEdge-insert_edge g e f).0 m) [
    | inl old ↦ rw node-insert_edge (w.from_node f old)
    | inr is_new ↦ rw (node-insert_edge, is_new) src
  ];
  to_node = λ f m. elim ((HasEdge-insert_edge g e f).0 m) [
    | inl old ↦ rw node-insert_edge (w.to_node f old)
    | inr is_new ↦ rw (node-insert_edge, is_new) dst
  ];
  mirrored = λ f.
      ground (arith, HasEdge-insert_edge g e f, mem-in_edges-insert_edge g e f f.to, w.mirrored f);
  keyed = λ f m. elim ((HasEdge-insert_edge g e f).0 m) [
    | inl old ↦ key-insert_edge g e f (inl (w.keyed f old))
    | inr is_new ↦ key-insert_edge g e f (inr is_new)
  ];
  backed = λ k h. elim (backed-insert_edge g e k h) [
    | inl same ↦ (e, (HasEdge-insert_edge g e e).1 (inr refl), same)
    | inr old ↦
        let (f, m, same) = w.backed k old in (f, (HasEdge-insert_edge g e f).1 (inl m), same)
  ];
}

-- A successful `AddEdge` finds both ends, and finds the edge's key or inserts the edge.
pub add_edge_cases :
    (g : Graph) (e : Edge) {g' : Graph}
    → add_edge g e ≡ ok g'
    → HasNode g e.from
      × HasNode g e.to
      × (((has (edge_key e) g.edges ≡ true) × (g' ≡ g))
          ⊎ ((has (edge_key e) g.edges ≡ false) × (g' ≡ insert_edge g e)))
unfolding add_edge
add_edge_cases g e h = ground arith

-- `AddEdge` keeps the graph well formed.
pub add_edge-IsWellFormed :
    (g : Graph) (e : Edge) {g' : Graph} → IsWellFormed g → add_edge g e ≡ ok g' → IsWellFormed g'
add_edge-IsWellFormed g e w h =
    let (src, dst, c) = add_edge_cases g e h in
    elim c [
      | inl (_, same) ↦ subst IsWellFormed (sym same) w
      | inr (_, grown) ↦ subst IsWellFormed (sym grown) (insert_edge-IsWellFormed g e src dst w)
    ]
