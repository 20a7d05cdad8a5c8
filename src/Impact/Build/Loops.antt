-- ===== src/Impact/Build/Loops.antt =====
-- internal/impact/build.go: the three loops of `BuildGraph`.
use mathlib.Core.List.Memᴰ
use mathlib.Core.List.{append_assoc, append-nil}
use telemetry_change_guard.Common.{
  some, List, [], ◌∷◌, ◌++◌, ◌≡◌, refl, sym, ◌∙◌, subst, inl, inr, Memᴰ, Result, ok, ◌>>=◌,
  >>=-eq-ok, map, not, is_some, refuse,
}
use telemetry_change_guard.Domain.{Symbol, Consumer, Reference, Production, Discovery}
use telemetry_change_guard.Graph.{Graph, Node, Edge, node, add_node, consumer_node_id}
use telemetry_change_guard.Graph.Growth.{
  Extends, IsClean, add_node-Extends, add_node_present, add_node-AreKnown, add_node-Tracks,
}
use telemetry_change_guard.Impact.{
  ImpactError, add_consumer, undiscovered_reference, undiscovered_production, add_reference_edge,
  add_production_edge,
}
use telemetry_change_guard.Impact.Build.{
  consumer_node, symbol_node, reference_edge, production_edge, add_consumers, add_reference,
  add_production,
}
use telemetry_change_guard.Impact.Build.Exact.{
  AreClean, AreClean-append, IsBuilt, HasSymbol, HasSymbol-Extends, linked, wrap-eq-ok,
}

abbrev pub nodes_of : Discovery → List Node
nodes_of d =
    map consumer_node d.consumers
    ++ (map (λ r. symbol_node r.symbol) d.references
        ++ map (λ p. symbol_node p.symbol) d.productions)

abbrev pub edges_of : Discovery → List Edge
edges_of d = map reference_edge d.references ++ map production_edge d.productions

-- One more node and one more edge at the front of what is still to come.
shift :
    (ns ms : List Node) (es fs : List Edge) (n : Node) (e : Edge) (g : Graph)
    → IsBuilt ((ns ++ n ∷ []) ++ ms) ((es ++ e ∷ []) ++ fs) g
    → IsBuilt (ns ++ n ∷ ms) (es ++ e ∷ fs) g
shift ns ms es fs n e g b =
    subst (λ l. IsBuilt l (es ++ e ∷ fs) g) (append_assoc ns (n ∷ []) ms)
      (subst (λ l. IsBuilt ((ns ++ n ∷ []) ++ ms) l g) (append_assoc es (e ∷ []) fs) b)

finished :
    (ns : List Node) (es : List Edge) (g : Graph)
    → IsBuilt ns es g
    → IsBuilt (ns ++ []) (es ++ []) g
finished ns es g b =
    subst (λ l. IsBuilt l (es ++ []) g) (sym (append-nil ns))
      (subst (λ l. IsBuilt ns l g) (sym (append-nil es)) b)

-- A loop of steps that add one symbol and one edge each.
module _ {A : Type 0} (symbol_of : A → Symbol) (edge_of : A → Edge)
    (one : Graph → A → Result ImpactError Graph) (loop : Graph → List A → Result ImpactError Graph)
    (loop-nil : (g : Graph) → loop g [] ≡ ok g)
    (loop-cons : (g : Graph) (a : A) (xs : List A)
      → loop g (a ∷ xs) ≡ (one g a >>= λ g'. loop g' xs))
    (step : (ns : List Node) (es : List Edge) (g : Graph) (a : A) (g' : Graph)
      → one g a ≡ ok g'
      → AreClean es
      → IsClean (edge_of a)
      → IsBuilt ns es g
      → IsBuilt (ns ++ symbol_node (symbol_of a) ∷ []) (es ++ edge_of a ∷ []) g'
        × Extends g g'
        × HasSymbol g' (symbol_of a)) where
  pub loop-IsBuilt :
      (xs : List A) (ns : List Node) (es : List Edge) (g : Graph) {h : Graph}
      → loop g xs ≡ ok h
      → AreClean es
      → ((a : A) → Memᴰ a xs → IsClean (edge_of a))
      → IsBuilt ns es g
      → IsBuilt (ns ++ map (λ a. symbol_node (symbol_of a)) xs) (es ++ map edge_of xs) h
        × Extends g h
        × ((a : A) → Memᴰ a xs → HasSymbol h (symbol_of a))
  loop-IsBuilt [] ns es g {h} run clean cs b =
      let same : g ≡ h = cc (loop-nil g, run) in
      (
        subst (IsBuilt (ns ++ []) (es ++ [])) same (finished ns es g b),
        subst (Extends g) same (λ id m k. k),
        λ a m. absurd (Memᴰ.not-nil m),
      )
  loop-IsBuilt (a ∷ xs) ns es g {h} run clean cs b =
      let (g', first, rest) = >>=-eq-ok (one g a) _ (sym (loop-cons g a xs) ∙ run) in
      let (b', grown, here) = step ns es g a g' first clean (cs a (Memᴰ.head refl)) b in
      let (b'', more, later) =
        loop-IsBuilt xs (ns ++ symbol_node (symbol_of a) ∷ []) (es ++ edge_of a ∷ []) g' rest
          (AreClean-append es (edge_of a) clean (cs a (Memᴰ.head refl))) (λ c m. cs c (Memᴰ.tail m))
          b' in
      (
        shift ns (map (λ c. symbol_node (symbol_of c)) xs) es (map edge_of xs)
            (symbol_node (symbol_of a)) (edge_of a) h b'',
        λ id m k. more id m (grown id m k),
        λ c m. elim (Memᴰ.cases_cons m) [
          | inl same ↦ rw same (HasSymbol-Extends g' h (symbol_of a) more here)
          | inr old ↦ later c old
        ],
      )

pub reference_step :
    (ns : List Node) (es : List Edge) (g : Graph) (r : Reference) (g' : Graph)
    → add_reference g r ≡ ok g'
    → AreClean es
    → IsClean (reference_edge r)
    → IsBuilt ns es g
    → IsBuilt (ns ++ symbol_node r.symbol ∷ []) (es ++ reference_edge r ∷ []) g'
      × Extends g g'
      × HasSymbol g' r.symbol
unfolding add_reference
reference_step ns es g r g' h =
    linked ns es g r.symbol (reference_edge r)
      (λ g'.
        refuse (not (is_some (node g' (consumer_node_id r.consumer_id))))
          (undiscovered_reference r.consumer_id))
      (add_reference_edge r.consumer_id) h

pub production_step :
    (ns : List Node) (es : List Edge) (g : Graph) (p : Production) (g' : Graph)
    → add_production g p ≡ ok g'
    → AreClean es
    → IsClean (production_edge p)
    → IsBuilt ns es g
    → IsBuilt (ns ++ symbol_node p.symbol ∷ []) (es ++ production_edge p ∷ []) g'
      × Extends g g'
      × HasSymbol g' p.symbol
unfolding add_production
production_step ns es g p g' h =
    linked ns es g p.symbol (production_edge p)
      (λ g'.
        refuse (not (is_some (node g' (consumer_node_id p.consumer_id))))
          (undiscovered_production p.consumer_id))
      (add_production_edge p.consumer_id) h

abbrev pub HasConsumer : Graph → Consumer → Type 0
HasConsumer g c = (m : Node) × (node g (consumer_node_id c.id) ≡ some m)

pub add_consumers-IsBuilt :
    (cs : List Consumer) (ns : List Node) (g : Graph) {h : Graph}
    → add_consumers g cs ≡ ok h
    → IsBuilt ns [] g
    → IsBuilt (ns ++ map consumer_node cs) [] h
      × Extends g h
      × ((c : Consumer) → Memᴰ c cs → HasConsumer h c)
unfolding add_consumers
add_consumers-IsBuilt [] ns g {h} run b =
    let same : g ≡ h = cc run in
    (
      subst (IsBuilt (ns ++ []) []) same (finished ns [] g b),
      subst (Extends g) same (λ id m k. k),
      λ c m. absurd (Memᴰ.not-nil m),
    )
add_consumers-IsBuilt (c ∷ cs) ns g {h} run b =
    let (g', first, rest) = >>=-eq-ok _ _ run in
    let added = wrap-eq-ok (add_consumer c.id) (add_node g (consumer_node c)) first in
    let (m, here, _, _) = add_node_present g (consumer_node c) added in
    let (b', more, later) = add_consumers-IsBuilt cs (ns ++ consumer_node c ∷ []) g' rest (record {
      tracks = add_node-Tracks g (consumer_node c) [] b.tracks added;
      known = add_node-AreKnown g (consumer_node c) ns b.known added;
    }) in
    (
      subst (λ l. IsBuilt l [] h) (append_assoc ns (consumer_node c ∷ []) (map consumer_node cs))
          b',
      λ id n k. more id n (add_node-Extends g (consumer_node c) added id n k),
      λ d k. elim (Memᴰ.cases_cons k) [
        | inl same ↦ rw same (m, more _ m here)
        | inr old ↦ later d old
      ],
    )
