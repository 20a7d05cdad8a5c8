-- ===== src/Graph/Adding.antt =====
-- internal/graph/graph.go, `AddNode`: which nodes it accepts, and the graph after it.
use telemetry_change_guard.Common.{
  String, true, false, none, some, ◌≡◌, refl, sym, ap, ◌∙◌, subst, ◌↔◌, ◌≢◌, inl, inr, ◌==◌, eq_iff,
  arith, Result, ok, err, assign, lookup-assign, Option-cases, Bool-cases, if◌then◌else◌,
}
use telemetry_change_guard.Graph.{
  Node, Edge, Graph, GraphError, missing_id, conflicting_node, node, out_edges, same_identity,
  add_node,
}
use telemetry_change_guard.Graph.Invariant.{HasEdge, IsWellFormed, add_node-IsWellFormed}

-- The node has an identity, and a node that has it already agrees on kind and name.
abbrev pub IsAddable : Graph → Node → Type 0
IsAddable g n =
    (n.id ≢ "")
    × ((old : Node) → node g n.id ≡ some old → (old.kind ≡ n.kind) × (old.name ≡ n.name))

pub record IsAdded (g : Graph) (n : Node) (g' : Graph) : Type 0 where
  pub present : (m : Node) × (node g' n.id ≡ some m) × (m.kind ≡ n.kind) × (m.name ≡ n.name)
  pub kept : (id : String) (m : Node) → node g id ≡ some m → node g' id ≡ some m
  pub others : (id : String) → id ≢ n.id → node g' id ≡ node g id
  pub same_edges : (e : Edge) → HasEdge g' e ↔ HasEdge g e

-- What each of the two results of `AddNode` says.
abbrev pub IsOutcome : Graph → Node → Result GraphError Graph → Type 0
IsOutcome g n (err e) = ¬ IsAddable g n
IsOutcome g n (ok g') = IsAddable g n × IsWellFormed g' × IsAdded g n g'

module _ (g : Graph) (n : Node) where
  again : (old : Node) → node g n.id ≡ some old → same_identity old n ≡ true → IsAdded g n g
  unfolding same_identity
  again old e same = record {
    present = (
      old,
      e,
      ground (arith, same, eq_iff old.kind n.kind),
      ground (arith, same, eq_iff old.name n.name),
    );
    kept = λ id m h. h;
    others = λ id h. refl;
    same_edges = λ f. (λ m. m, λ m. m);
  }

  fresh : node g n.id ≡ none → IsAdded g n (record g { nodes = assign n.id n g.nodes })
  unfolding out_edges
  fresh e = record {
    present = (n, rw (after n.id, (eq_iff n.id n.id).1 refl) refl, refl, refl);
    kept = λ id m h. ground (arith, h, e, after id, eq_iff n.id id);
    others = λ id h. ground (arith, h, after id, eq_iff n.id id);
    same_edges = λ f. (λ m. m, λ m. m);
  }
    where
      after :
          (id : String)
          → node (record g { nodes = assign n.id n g.nodes }) id
            ≡ (if n.id == id then some n else node g id)
      after id = unfold node in lookup-assign n.id id n g.nodes

  different :
      (old : Node) → same_identity old n ≡ false → ¬ ((old.kind ≡ n.kind) × (old.name ≡ n.name))
  unfolding same_identity
  different old h =
      λ (a, b). ground (arith, h, a, b, eq_iff old.kind n.kind, eq_iff old.name n.name)

  accepted :
      (w : IsWellFormed g) (g' : Graph)
      → add_node g n ≡ ok g'
      → IsAddable g n
      → IsAdded g n g'
      → IsOutcome g n (add_node g n)
  accepted w g' run a d = subst (IsOutcome g n) (sym run) (a, add_node-IsWellFormed g n w run, d)

  rejected :
      (e : GraphError) → add_node g n ≡ err e → ¬ IsAddable g n → IsOutcome g n (add_node g n)
  rejected e run refused = subst (IsOutcome g n) (sym run) refused

  -- On a well-formed graph, `AddNode` succeeds exactly if the node has an identity and no node of that
  -- identity has another kind or name. The graph after it is well formed, has a node of that identity,
  -- kind and name, keeps all the nodes that were there, has no other new node, and has the same edges.
  pub add_node-IsOutcome : IsWellFormed g → IsOutcome g n (add_node g n)
  unfolding add_node
  add_node-IsOutcome w = elim (Bool-cases (n.id == "")) [
    | inl blank ↦
        rejected missing_id (rw (blank, add_node) refl) (λ a. a.0 ((eq_iff n.id "").0 blank))
    | inr named ↦ elim (Option-cases (node g n.id)) [
      | inl e ↦
          accepted w (record g { nodes = assign n.id n g.nodes }) (rw (named, e, add_node) refl)
            (ground (arith, named, eq_iff n.id ""), λ old h. cc (e, h)) (fresh e)
      | inr (old, e) ↦ elim (Bool-cases (same_identity old n)) [
        | inl same ↦
            let d = again old e same in
            let (m, found, kind, name) = d.present in
            accepted w g (rw (named, e, same, add_node) refl)
              (
                ground (arith, named, eq_iff n.id ""),
                λ other h.
                    let both : m ≡ other = cc (found, h) in
                    (
                      ap (λ (x : Node). x.kind) (sym both) ∙ kind,
                      ap (λ (x : Node). x.name) (sym both) ∙ name,
                    ),
              )
              d
        | inr other ↦
            rejected (conflicting_node n.id) (rw (named, e, other, add_node) refl)
              (λ a. different old other (a.1 old e))
      ]
    ]
  ]
