-- ===== src/Impact/Build/Exact.antt =====
-- internal/impact/build.go: the nodes and edges that `BuildGraph` has added.
use mathlib.Core.List.Memᴰ
use telemetry_change_guard.Common.{
  some, List, [], ◌∷◌, ◌++◌, ◌≡◌, sym, ◌∙◌, subst, inl, inr, Memᴰ, Result, ok, err, ◌>>=◌,
  >>=-eq-ok,
}
use telemetry_change_guard.Domain.{Symbol}
use telemetry_change_guard.Graph.{
  Graph, Node, Edge, GraphError, empty_graph, node, add_node, add_edge, symbol_node_id,
  consumer_node_id,
}
use telemetry_change_guard.Graph.Growth.{
  Extends, AreKnown, Tracks, IsClean, add_node-Extends, add_node_present, add_node-AreKnown,
  add_edge-node, add_node-Tracks, add_edge-Tracks,
}
use telemetry_change_guard.Impact.{ImpactError}
use telemetry_change_guard.Impact.Build.{wrap, symbol_node, add_symbol_node}

abbrev pub AreClean : List Edge → Type 0
AreClean es = (e : Edge) → Memᴰ e es → IsClean e

-- What a loop has built so far: the edges `es`, and nodes from `ns`.
pub record IsBuilt (ns : List Node) (es : List Edge) (g : Graph) : Type 0 where
  pub tracks : Tracks es g
  pub known : AreKnown ns g

pub wrap-eq-ok :
    (f : telemetry_change_guard.Graph.GraphError → ImpactError) (r : Result GraphError Graph)
    {g : Graph}
    → wrap f r ≡ ok g
    → r ≡ ok g
wrap-eq-ok f (ok g) h = cc h
wrap-eq-ok f (err e) h = cc h

-- The node of a symbol is there, under the symbol's name.
abbrev pub HasSymbol : Graph → Symbol → Type 0
HasSymbol g s = (m : Node) × (node g (symbol_node_id s) ≡ some m) × (m.name ≡ s.name)

pub HasSymbol-Extends : (g g' : Graph) (s : Symbol) → Extends g g' → HasSymbol g s → HasSymbol g' s
HasSymbol-Extends g g' s f (m, h, e) = (m, f _ m h, e)

-- One step that adds a symbol's node and then an edge.
pub linked :
    (ns : List Node) (es : List Edge) (g : Graph) (s : Symbol) (e : Edge)
    (guard : Graph → Result ImpactError (Unit {0})) (name : GraphError → ImpactError) {g'' : Graph}
    → (add_symbol_node g s >>= λ g'. guard g' >>= λ _. wrap name (add_edge g' e)) ≡ ok g''
    → AreClean es
    → IsClean e
    → IsBuilt ns es g
    → IsBuilt (ns ++ symbol_node s ∷ []) (es ++ e ∷ []) g'' × Extends g g'' × HasSymbol g'' s
unfolding add_symbol_node
linked ns es g s e guard name {g''} h clean c b =
    let (g', h1, rest) = >>=-eq-ok _ _ h in
    let (u, _, h2) = >>=-eq-ok (guard g') _ rest in
    let node_ok = wrap-eq-ok _ _ h1 in
    let edge_ok = wrap-eq-ok _ _ h2 in
    let same = add_edge-node g' e edge_ok in
    let (m, present, _, named) = add_node_present g (symbol_node s) node_ok in
    (
      record {
        tracks =
            add_edge-Tracks g' e es (add_node-Tracks g (symbol_node s) es b.tracks node_ok) clean c
              edge_ok;
        known = λ id n k.
            add_node-AreKnown g (symbol_node s) ns b.known node_ok id n (sym (same id) ∙ k);
      },
      λ id n k. same id ∙ add_node-Extends g (symbol_node s) node_ok id n k,
      (m, same _ ∙ present, named),
    )

pub AreClean-append :
    (es : List Edge) (e : Edge) → AreClean es → IsClean e → AreClean (es ++ e ∷ [])
AreClean-append es e f c d m = elim (Memᴰ.append_cases es m) [
  | inl old ↦ f d old
  | inr last ↦ subst IsClean (sym (Memᴰ.eq_of_singleton last)) c
]
