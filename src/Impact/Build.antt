-- ===== src/Impact/Build.antt =====
-- internal/impact/build.go: the graph of a discovery.
pub mod Exact
pub mod Loops
pub mod Whole
use telemetry_change_guard.Common.{
  String, Bool, true, not, Option, none, some, List, [], ◌∷◌, Result, ok, err, ◌>>=◌, ◌>>◌, refuse,
  is_some,
}
use telemetry_change_guard.Domain.{Symbol, Consumer, Reference, Production, Discovery}
use telemetry_change_guard.Graph.{
  Graph, Node, Edge, GraphError, empty_graph, node, add_node, add_edge, symbol_node_id,
  consumer_node_id,
}
use telemetry_change_guard.Graph.NodeKind
use telemetry_change_guard.Graph.EdgeKind
use telemetry_change_guard.Impact.{
  ImpactError, add_consumer, add_symbol, add_reference_edge, add_production_edge,
  undiscovered_reference, undiscovered_production,
}

-- `fmt.Errorf("...: %w", err)`
abbrev pub wrap : (GraphError → ImpactError) → Result GraphError Graph → Result ImpactError Graph
wrap f (ok g) = ok g
wrap f (err e) = err (f e)

abbrev pub consumer_node : Consumer → Node
consumer_node c = record {
  id = consumer_node_id c.id;
  kind = NodeKind.consumer;
  name = c.name;
  symbol = none;
  consumer = some c;
}

abbrev pub symbol_node : Symbol → Node
symbol_node s = record {
  id = symbol_node_id s;
  kind = NodeKind.symbol;
  name = s.name;
  symbol = some s;
  consumer = none;
}

abbrev pub reference_edge : Reference → Edge
reference_edge r = record {
  from = symbol_node_id r.symbol;
  to = consumer_node_id r.consumer_id;
  kind = EdgeKind.references;
}

abbrev pub production_edge : Production → Edge
production_edge p = record {
  from = consumer_node_id p.consumer_id;
  to = symbol_node_id p.symbol;
  kind = EdgeKind.produces;
}

-- `addSymbolNode`
unfoldable pub add_symbol_node : Graph → Symbol → Result ImpactError Graph
add_symbol_node g s = wrap (add_symbol s.name) (add_node g (symbol_node s))

unfoldable pub add_consumers : Graph → List Consumer → Result ImpactError Graph
add_consumers g [] = ok g
add_consumers g (c ∷ cs) = do
  g' ← wrap (add_consumer c.id) (add_node g (consumer_node c))
  add_consumers g' cs

unfoldable pub add_reference : Graph → Reference → Result ImpactError Graph
add_reference g r = do
  g' ← add_symbol_node g r.symbol
  refuse (not (is_some (node g' (consumer_node_id r.consumer_id))))
      (undiscovered_reference r.consumer_id)
  wrap (add_reference_edge r.consumer_id) (add_edge g' (reference_edge r))

unfoldable pub add_references : Graph → List Reference → Result ImpactError Graph
add_references g [] = ok g
add_references g (r ∷ rs) = do g' ← add_reference g r; add_references g' rs

unfoldable pub add_production : Graph → Production → Result ImpactError Graph
add_production g p = do
  g' ← add_symbol_node g p.symbol
  refuse (not (is_some (node g' (consumer_node_id p.consumer_id))))
      (undiscovered_production p.consumer_id)
  wrap (add_production_edge p.consumer_id) (add_edge g' (production_edge p))

unfoldable pub add_productions : Graph → List Production → Result ImpactError Graph
add_productions g [] = ok g
add_productions g (p ∷ ps) = do g' ← add_production g p; add_productions g' ps

unfoldable pub build_graph : Discovery → Result ImpactError Graph
build_graph d = do
  g ← add_consumers empty_graph d.consumers
  g' ← add_references g d.references
  add_productions g' d.productions
