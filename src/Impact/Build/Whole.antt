-- ===== src/Impact/Build/Whole.antt =====
-- internal/impact/build.go: `BuildGraph` as a whole.
use mathlib.Core.List.Memᴰ
use mathlib.Core.List.{append_assoc}
use telemetry_change_guard.Common.{
  String, some, [], ◌++◌, ◌≡◌, refl, subst, ◌↔◌, Memᴰ, ok, >>=-eq-ok, map, lookup,
}
use telemetry_change_guard.Domain.{Consumer, Reference, Production, Discovery}
use telemetry_change_guard.Graph.{Node, Edge, empty_graph, node}
use telemetry_change_guard.Graph.{Graph}
use telemetry_change_guard.Graph.Invariant.{HasEdge, IsWellFormed}
use telemetry_change_guard.Graph.Growth.{empty_graph-Tracks}
use telemetry_change_guard.Impact.Build.{
  consumer_node, symbol_node, reference_edge, production_edge, add_references, add_reference,
  add_productions, add_production, build_graph,
}
use telemetry_change_guard.Impact.Build.Exact.{AreClean, IsBuilt, HasSymbol, HasSymbol-Extends}
use telemetry_change_guard.Impact.Build.Loops.{
  nodes_of, edges_of, loop-IsBuilt, reference_step, production_step, add_consumers-IsBuilt,
  HasConsumer,
}

-- What `BuildGraph` promises of the graph that it returns.
pub record IsGraphOf (d : Discovery) (g : Graph) : Type 0 where
  pub well_formed : IsWellFormed g
  pub edges_iff : (e : Edge) → HasEdge g e ↔ Memᴰ e (edges_of d)
  pub known : (id : String) (m : Node) → node g id ≡ some m → Memᴰ m (nodes_of d)
  pub consumers : (c : Consumer) → Memᴰ c d.consumers → HasConsumer g c
  pub referenced : (r : Reference) → Memᴰ r d.references → HasSymbol g r.symbol
  pub produced : (p : Production) → Memᴰ p d.productions → HasSymbol g p.symbol

empty_graph-IsBuilt : IsBuilt [] [] empty_graph
unfolding node lookup
empty_graph-IsBuilt = record { tracks = empty_graph-Tracks; known = λ id m h. cc h }

reference_edge-mem :
    (d : Discovery) (r : Reference) → Memᴰ r d.references → Memᴰ (reference_edge r) (edges_of d)
reference_edge-mem d r m = Memᴰ.append_left _ (Memᴰ.map reference_edge m)

-- Where no edge of the discovery's references and productions has a NUL character in the IDs of its
-- ends, a graph that `BuildGraph` returns is well formed; its edges are those of the references and
-- of the productions, and no others; every node is the node of a consumer or of a symbol of the
-- discovery; and every consumer and every symbol has one.
pub build_graph-IsGraphOf :
    (d : Discovery) {g : Graph} → AreClean (edges_of d) → build_graph d ≡ ok g → IsGraphOf d g
unfolding build_graph
build_graph-IsGraphOf d {g} clean run =
    let (g1, run1, rest) = >>=-eq-ok _ _ run in
    let (g2, run2, run3) = >>=-eq-ok _ _ rest in
    let (b1, _, consumers) =
      add_consumers-IsBuilt d.consumers [] empty_graph run1 empty_graph-IsBuilt in
    let (b2, more2, refs) =
      loop-IsBuilt (λ r. r.symbol) reference_edge add_reference add_references
        (λ g. unfold add_references in refl) (λ g a xs. unfold add_references in refl)
        reference_step d.references (map consumer_node d.consumers) [] g1 run2
        (λ e m. absurd (Memᴰ.not-nil m)) (λ r m. clean _ (reference_edge-mem d r m)) b1 in
    let (b3, more3, prods) =
      loop-IsBuilt (λ p. p.symbol) production_edge add_production add_productions
        (λ g. unfold add_productions in refl) (λ g a xs. unfold add_productions in refl)
        production_step d.productions
        (map consumer_node d.consumers ++ map (λ r. symbol_node r.symbol) d.references)
        (map reference_edge d.references) g2 run3 (λ e m. clean e (Memᴰ.append_left _ m))
        (λ p m. clean _ (Memᴰ.append_right _ (Memᴰ.map production_edge m))) b2 in
    record {
      well_formed = b3.tracks.well_formed;
      edges_iff = b3.tracks.edges_iff;
      known = λ id m k.
          subst (Memᴰ m) (append_assoc (map consumer_node d.consumers) _ _) (b3.known id m k);
      consumers = λ c m. let (n, h) = consumers c m in (n, more3 _ n (more2 _ n h));
      referenced = λ r m. HasSymbol-Extends g2 g r.symbol more3 (refs r m);
      produced = prods;
    }
