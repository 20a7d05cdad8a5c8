-- ===== src/Neutral.antt =====
-- internal/ownership, internal/graph and internal/impact together: what the analysis makes of a discovery
-- whose consumers have other owners and other metadata.
pub mod Graphs
pub mod Paths
pub mod Findings
pub mod Verdict
use telemetry_change_guard.Common.{
  String, Option, none, some, List, [], ◌∷◌, map, ◌≡◌, refl, Result, ok, err, lookup, assign,
  if◌then◌else◌, ◌==◌, Bool-cases, inl, inr, ap, ◌∙◌, Bool, sort_by,
}
use mathlib.Core.Option.{map as option_map}
use telemetry_change_guard.Common.Sort.{insert_by}
use telemetry_change_guard.Domain.{Discovery}
use telemetry_change_guard.Graph.{Graph, Node}
use telemetry_change_guard.Ownership.Enrich.Keeps.{unowned}

-- A node, a graph and a discovery whose consumers have no owner and no metadata.
abbrev pub bare_node : Node → Node
bare_node n = record n { consumer = option_map unowned n.consumer }

abbrev pub map_values {ℓ κ} :
    {V : Type ℓ} {W : Type κ} → (V → W) → List (String × V) → List (String × W)
map_values f [] = []
map_values f ((k, v) ∷ m) = (k, f v) ∷ map_values f m

unfoldable pub bare : Graph → Graph
bare g = record g { nodes = map_values bare_node g.nodes }

abbrev pub bare_discovery : Discovery → Discovery
bare_discovery d = record d { consumers = map unowned d.consumers }

abbrev pub map_ok {ℓ κ ν} :
    {E : Type ℓ} {A : Type κ} {B : Type ν} → (A → B) → Result E A → Result E B
map_ok f (ok a) = ok (f a)
map_ok f (err e) = err e

module _ {ℓ κ} {V : Type ℓ} {W : Type κ} (f : V → W) where
  pub lookup-map_values :
      (k : String) (m : List (String × V)) → lookup k (map_values f m) ≡ option_map f (lookup k m)
  unfolding lookup
  lookup-map_values k [] = refl
  lookup-map_values k ((j, v) ∷ m) = elim (Bool-cases (j == k)) [
    | inl e ↦ rw e refl
    | inr e ↦ rw e (lookup-map_values k m)
  ]

  pub assign-map_values :
      (k : String) (v : V) (m : List (String × V))
      → assign k (f v) (map_values f m) ≡ map_values f (assign k v m)
  unfolding assign
  assign-map_values k v [] = refl
  assign-map_values k v ((j, w) ∷ m) = elim (Bool-cases (j == k)) [
    | inl e ↦ rw e refl
    | inr e ↦ rw e (ap (λ rest. (j, f w) ∷ rest) (assign-map_values k v m))
  ]

  -- Sorting by a test that the function keeps.
  insert_by-map :
      (less : V → V → Bool) (less' : W → W → Bool) (x : V) (xs : List V)
      → ((a b : V) → less' (f a) (f b) ≡ less a b)
      → insert_by less' (f x) (map f xs) ≡ map f (insert_by less x xs)
  unfolding insert_by
  insert_by-map less less' x [] h = refl
  insert_by-map less less' x (y ∷ ys) h = elim (Bool-cases (less y x)) [
    | inl e ↦ rw (h y x, e) (ap (λ rest. f y ∷ rest) (insert_by-map less less' x ys h))
    | inr e ↦ rw (h y x, e) refl
  ]

  pub sort_by-map :
      (less : V → V → Bool) (less' : W → W → Bool) (xs : List V)
      → ((a b : V) → less' (f a) (f b) ≡ less a b)
      → sort_by less' (map f xs) ≡ map f (sort_by less xs)
  unfolding sort_by
  sort_by-map less less' [] h = refl
  sort_by-map less less' (x ∷ xs) h =
      ap (insert_by less' (f x)) (sort_by-map less less' xs h)
      ∙ insert_by-map less less' x (sort_by less xs) h
