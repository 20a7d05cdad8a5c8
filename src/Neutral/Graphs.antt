-- ===== src/Neutral/Graphs.antt =====
-- internal/impact/build.go and internal/graph/graph.go: the graph of a discovery without owners.
use telemetry_change_guard.Common.{
  String, not, Option, none, some, List, [], ◌∷◌, map, ◌≡◌, refl, ap, ◌∙◌, Result, ok, err, ◌>>=◌,
  ◌>>◌, refuse, is_some, has, ◌==◌, Bool-cases, Option-cases, inl, inr,
}
use mathlib.Core.Option.{map as option_map}
use telemetry_change_guard.Domain.{Symbol, Consumer, Reference, Production, Discovery}
use telemetry_change_guard.Graph.{
  Graph, Node, Edge, GraphError, node, add_node, add_edge, same_identity, insert_edge, edge_key,
  empty_graph, consumer_node_id,
}
use telemetry_change_guard.Impact.{
  undiscovered_reference, undiscovered_production, ImpactError, add_consumer, add_symbol,
  add_reference_edge, add_production_edge,
}
use telemetry_change_guard.Impact.Build.{
  wrap, consumer_node, symbol_node, add_symbol_node, add_consumers, add_reference, add_references,
  add_production, add_productions, build_graph, reference_edge, production_edge,
}
use telemetry_change_guard.Neutral.{
  bare_node, bare, bare_discovery, map_ok, lookup-map_values, assign-map_values,
}
use telemetry_change_guard.Ownership.Enrich.Keeps.{unowned}

pub node-bare : (g : Graph) (id : String) → node (bare g) id ≡ option_map bare_node (node g id)
unfolding node bare
node-bare g id = lookup-map_values bare_node id g.nodes

is_some-option_map {ℓ κ} :
    {A : Type ℓ} {B : Type κ} (f : A → B) (o : Option A) → is_some (option_map f o) ≡ is_some o
is_some-option_map f none = refl
is_some-option_map f (some a) = refl

pub is_some-node-bare : (g : Graph) (id : String) → is_some (node (bare g) id) ≡ is_some (node g id)
is_some-node-bare g id = rw (node-bare g id) (is_some-option_map bare_node (node g id))

add_node-bare :
    (g : Graph) (n : Node) → add_node (bare g) (bare_node n) ≡ map_ok bare (add_node g n)
unfolding add_node same_identity
add_node-bare g n = elim (Bool-cases (n.id == "")) [
  | inl e ↦ rw e refl
  | inr e ↦ elim (Option-cases (node g n.id)) [
    | inl q ↦
        rw (e, node-bare g n.id, q)
          (ap ok (
            unfold bare in
            ap (λ ns. record g { nodes = ns }) (assign-map_values bare_node n.id n g.nodes)))
    | inr (old, q) ↦ elim (Bool-cases (same_identity old n)) [
      | inl z ↦ rw (e, node-bare g n.id, q, z) refl
      | inr z ↦ rw (e, node-bare g n.id, q, z) refl
    ]
  ]
]

add_edge-bare : (g : Graph) (e : Edge) → add_edge (bare g) e ≡ map_ok bare (add_edge g e)
unfolding add_edge insert_edge bare
add_edge-bare g e = elim (Bool-cases (is_some (node g e.from))) [
  | inr a ↦ rw (is_some-node-bare g e.from, a) refl
  | inl a ↦ elim (Bool-cases (is_some (node g e.to))) [
    | inr b ↦ rw (is_some-node-bare g e.from, is_some-node-bare g e.to, a, b) refl
    | inl b ↦ elim (Bool-cases (has (edge_key e) g.edges)) [
      | inl c ↦ rw (is_some-node-bare g e.from, is_some-node-bare g e.to, a, b, c) refl
      | inr c ↦ rw (is_some-node-bare g e.from, is_some-node-bare g e.to, a, b, c) refl
    ]
  ]
]

>>=-map_ok {ℓ κ ν μ τ} :
    {E : Type ℓ} {A : Type κ} {B : Type ν} {C : Type μ} {D : Type τ} (r : Result E A) (f : A → B)
    (h : C → D) (k : A → Result E C) (k' : B → Result E D)
    → ((a : A) → k' (f a) ≡ map_ok h (k a))
    → (map_ok f r >>= k') ≡ map_ok h (r >>= k)
>>=-map_ok (ok a) f h k k' e = e a
>>=-map_ok (err x) f h k k' e = refl

wrap-map_ok :
    (f : GraphError → ImpactError) (r : Result GraphError Graph)
    → wrap f (map_ok bare r) ≡ map_ok bare (wrap f r)
wrap-map_ok f (ok g) = refl
wrap-map_ok f (err e) = refl

add_consumers-bare :
    (g : Graph) (cs : List Consumer)
    → add_consumers (bare g) (map unowned cs) ≡ map_ok bare (add_consumers g cs)
unfolding add_consumers unowned
add_consumers-bare g [] = refl
add_consumers-bare g (c ∷ cs) =
    ap (λ r. wrap (add_consumer c.id) r >>= λ g'. add_consumers g' (map unowned cs))
      (add_node-bare g (consumer_node c))
    ∙ ap (λ r. r >>= λ g'. add_consumers g' (map unowned cs))
        (wrap-map_ok (add_consumer c.id) (add_node g (consumer_node c)))
    ∙ >>=-map_ok (wrap (add_consumer c.id) (add_node g (consumer_node c))) bare bare
        (λ g'. add_consumers g' cs) (λ g'. add_consumers g' (map unowned cs))
        (λ g'. add_consumers-bare g' cs)

add_symbol_node-bare :
    (g : Graph) (s : Symbol) → add_symbol_node (bare g) s ≡ map_ok bare (add_symbol_node g s)
unfolding add_symbol_node
add_symbol_node-bare g s =
    ap (wrap (add_symbol s.name)) (add_node-bare g (symbol_node s))
    ∙ wrap-map_ok (add_symbol s.name) (add_node g (symbol_node s))

-- The steps after the symbol's node: the test of the consumer, and the edge.
abbrev joined :
    String → Edge → (GraphError → ImpactError) → ImpactError → Graph → Result ImpactError Graph
joined id e f x g = refuse (not (is_some (node g id))) x >> wrap f (add_edge g e)

joined-bare :
    (id : String) (e : Edge) (f : GraphError → ImpactError) (x : ImpactError) (g : Graph)
    → joined id e f x (bare g) ≡ map_ok bare (joined id e f x g)
joined-bare id e f x g = elim (Bool-cases (is_some (node g id))) [
  | inl b ↦
      rw (is_some-node-bare g id, b)
        (ap (wrap f) (add_edge-bare g e) ∙ wrap-map_ok f (add_edge g e))
  | inr b ↦ rw (is_some-node-bare g id, b) refl
]

-- A step of the loops after the loop over the consumers.
step-bare :
    (s : Graph → Result ImpactError Graph) (k : Graph → Result ImpactError Graph) (g : Graph)
    → s (bare g) ≡ map_ok bare (s g)
    → ((g' : Graph) → k (bare g') ≡ map_ok bare (k g'))
    → (s (bare g) >>= k) ≡ map_ok bare (s g >>= k)
step-bare s k g h e = ap (λ r. r >>= k) h ∙ >>=-map_ok (s g) bare bare k k e

add_reference-bare :
    (r : Reference) (g : Graph) → add_reference (bare g) r ≡ map_ok bare (add_reference g r)
unfolding add_reference
add_reference-bare r g =
    let rest =
      joined (consumer_node_id r.consumer_id) (reference_edge r) (add_reference_edge r.consumer_id)
        (undiscovered_reference r.consumer_id) in
    step-bare (λ g'. add_symbol_node g' r.symbol) rest g (add_symbol_node-bare g r.symbol)
      (joined-bare (consumer_node_id r.consumer_id) (reference_edge r)
        (add_reference_edge r.consumer_id) (undiscovered_reference r.consumer_id))

add_references-bare :
    (rs : List Reference) (g : Graph)
    → add_references (bare g) rs ≡ map_ok bare (add_references g rs)
unfolding add_references
add_references-bare [] g = refl
add_references-bare (r ∷ rs) g =
    step-bare (λ g'. add_reference g' r) (λ g'. add_references g' rs) g (add_reference-bare r g)
      (add_references-bare rs)

add_production-bare :
    (p : Production) (g : Graph) → add_production (bare g) p ≡ map_ok bare (add_production g p)
unfolding add_production
add_production-bare p g =
    let rest =
      joined (consumer_node_id p.consumer_id) (production_edge p)
        (add_production_edge p.consumer_id) (undiscovered_production p.consumer_id) in
    step-bare (λ g'. add_symbol_node g' p.symbol) rest g (add_symbol_node-bare g p.symbol)
      (joined-bare (consumer_node_id p.consumer_id) (production_edge p)
        (add_production_edge p.consumer_id) (undiscovered_production p.consumer_id))

add_productions-bare :
    (ps : List Production) (g : Graph)
    → add_productions (bare g) ps ≡ map_ok bare (add_productions g ps)
unfolding add_productions
add_productions-bare [] g = refl
add_productions-bare (p ∷ ps) g =
    step-bare (λ g'. add_production g' p) (λ g'. add_productions g' ps) g (add_production-bare p g)
      (add_productions-bare ps)

-- The graph of a discovery without owners is the graph of the discovery, without owners.
pub build_graph-bare :
    (d : Discovery) → build_graph (bare_discovery d) ≡ map_ok bare (build_graph d)
unfolding build_graph bare
build_graph-bare d =
    let later : Graph → Result ImpactError Graph =
      λ g. add_references g d.references >>= λ g'. add_productions g' d.productions in
    ap (λ r. r >>= later) (add_consumers-bare empty_graph d.consumers)
    ∙ >>=-map_ok (add_consumers empty_graph d.consumers) bare bare later later (λ g.
      step-bare (λ g'. add_references g' d.references) (λ g'. add_productions g' d.productions) g
        (add_references-bare d.references g) (add_productions-bare d.productions))
