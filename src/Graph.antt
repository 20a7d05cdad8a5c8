-- ===== src/Graph.antt =====
-- internal/graph/graph.go: the dependency graph. The maps `nodes`, `out` and `in` are association
-- lists, and the set of edge keys is a list of texts.
pub mod EdgeKind
pub mod NodeKind
pub mod Traverse
pub mod Adding
pub mod Invariant
pub mod Identity
pub mod Growth
use telemetry_change_guard.Common.{
  ℕ, zero, suc, String, Bool, true, false, not, ◌&&◌, ◌||◌, Option, none, some, List, [], ◌∷◌, ◌++◌,
  map, ◌==◌, if◌then◌else◌, str_ltb, sort_by, Result, ok, err, lookup, assign, entries, extend, has,
  join, concat, length, is_some, ◌+◌,
}
use telemetry_change_guard.Domain.{Symbol, Consumer}
use mathlib.Core.List.{flatten}

pub record Node : Type 0 where
  pub id : String
  pub kind : String
  pub name : String
  pub symbol : Option Symbol
  pub consumer : Option Consumer

pub record Edge : Type 0 where
  pub from : String
  pub to : String
  pub kind : String

-- `Path`
pub record Route : Type 0 where
  pub nodes : List String
  pub edges : List String

pub record Graph : Type 0 where
  pub nodes : List (String × Node)
  pub out : List (String × List Edge)
  pub into : List (String × List Edge)
  pub edges : List String

pub data GraphError : Type 0 where
  missing_id : GraphError
  conflicting_node : String → GraphError
  missing_source missing_destination : String → GraphError

-- `New`
abbrev pub empty_graph : Graph
empty_graph = record { nodes = []; out = []; into = []; edges = [] }

-- `Node`
unfoldable pub node : Graph → String → Option Node
node g id = lookup id g.nodes

-- `graph.out[id]` and `graph.in[id]`
unfoldable pub out_edges : Graph → String → List Edge
out_edges g id = entries id g.out

unfoldable pub in_edges : Graph → String → List Edge
in_edges g id = entries id g.into

unfoldable pub same_identity : Node → Node → Bool
same_identity old new = old.kind == new.kind && old.name == new.name

unfoldable pub add_node : Graph → Node → Result GraphError Graph
unfolding node same_identity
add_node g n = if n.id == "" then err missing_id else elim (node g n.id) [
  | some existing ↦ if same_identity existing n then ok g else err (conflicting_node n.id)
  | none ↦ ok (record g { nodes = assign n.id n g.nodes })
]

-- The separator is the NUL character.
unfoldable pub edge_key : Edge → String
edge_key e = join "\0" (e.from ∷ e.to ∷ e.kind ∷ [])

unfoldable pub insert_edge : Graph → Edge → Graph
insert_edge g e = record g {
  edges = edge_key e ∷ g.edges;
  out = extend e.from e g.out;
  into = extend e.to e g.into;
}

unfoldable pub add_edge : Graph → Edge → Result GraphError Graph
unfolding node insert_edge
add_edge g e =
    if not (is_some (node g e.from))
    then err (missing_source e.from)
    else if not (is_some (node g e.to))
    then err (missing_destination e.to)
    else if has (edge_key e) g.edges
    then ok g
    else ok (insert_edge g e)

-- `Nodes`
unfoldable pub all_nodes : Graph → List Node
all_nodes g = sort_by (λ a b. str_ltb a.id b.id) (map (λ p. p.1) g.nodes)

unfoldable pub edge_before : Edge → Edge → Bool
edge_before a b =
    if not (a.from == b.from)
    then str_ltb a.from b.from
    else if not (a.to == b.to)
    then str_ltb a.to b.to
    else str_ltb a.kind b.kind

unfoldable pub sort_edges : List Edge → List Edge
unfolding edge_before
sort_edges es = sort_by edge_before es

-- `Edges`
unfoldable pub all_edges : Graph → List Edge
all_edges g = sort_edges (flatten (map (λ p. p.1) g.out))

abbrev blank_node : Node
blank_node = record { id = ""; kind = ""; name = ""; symbol = none; consumer = none }

-- A missing entry of Go's map is the zero node.
unfoldable pub node_or_blank : Graph → String → Node
node_or_blank g id = elim (node g id) [ some n ↦ n | none ↦ blank_node ]

unfoldable pub dependents : Graph → String → List Node
unfolding node_or_blank
dependents g id = map (λ e. node_or_blank g e.to) (sort_edges (out_edges g id))

unfoldable pub dependencies : Graph → String → List Node
unfolding node_or_blank
dependencies g id = map (λ e. node_or_blank g e.from) (sort_edges (in_edges g id))

unfoldable pub symbol_node_id : Symbol → String
symbol_node_id s = join ":" ("symbol" ∷ s.domain ∷ s.kind ∷ s.parent ∷ s.name ∷ [])

unfoldable pub consumer_node_id : String → String
consumer_node_id id = concat "consumer:" id
