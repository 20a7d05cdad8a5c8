-- ===== src/Graph/Identity.antt =====
-- internal/graph/graph.go: what `SymbolNodeID`, `ConsumerNodeID` and `edgeKey` identify.
use text.Mathlib.TextLemmas.{append_cancel_left, append_cancel_right}
use telemetry_change_guard.Common.{
  String, ◌≡◌, sym, ap, ◌∙◌, ◌≢◌, concat, join, IsFreeOf, concat_injective, arith, codes, ℕ,
  codes-concat, List, [], ◌∷◌,
}
use telemetry_change_guard.Domain.{Symbol}
use telemetry_change_guard.Graph.{Edge, symbol_node_id, consumer_node_id, edge_key}

abbrev pub colon : ℕ
colon = b':'

abbrev pub nul : ℕ
nul = 0

-- What every supported domain and kind satisfies.
pub record IsPlain (s : Symbol) : Type 0 where
  pub domain_plain : IsFreeOf colon s.domain
  pub kind_plain : IsFreeOf colon s.kind

concat_parts :
    (s t u v : String)
    → IsFreeOf colon s
    → IsFreeOf colon t
    → concat s (concat ":" u) ≡ concat t (concat ":" v)
    → (s ≡ t) × (u ≡ v)
concat_parts s t u v f g h = concat_injective ":" s t u v f g h

symbol_parts :
    (s t : Symbol)
    → IsPlain s
    → IsPlain t
    → symbol_node_id s ≡ symbol_node_id t
    → (s.domain ≡ t.domain)
      × (s.kind ≡ t.kind)
      × (concat s.parent (concat ":" s.name) ≡ concat t.parent (concat ":" t.name))
unfolding symbol_node_id join
symbol_parts s t p q h =
    let rest = (concat_parts "symbol" "symbol" _ _ (omega arith) (omega arith) h).1 in
    let (d, later) = concat_parts s.domain t.domain _ _ p.domain_plain q.domain_plain rest in
    let (k, last) = concat_parts s.kind t.kind _ _ p.kind_plain q.kind_plain later in (d, k, last)

-- Two symbols of one node and of one name, whose domains and kinds hold no colon, are the same symbol.
pub symbol_node_id_injective :
    (s t : Symbol)
    → IsPlain s
    → IsPlain t
    → symbol_node_id s ≡ symbol_node_id t
    → s.name ≡ t.name
    → s ≡ t
symbol_node_id_injective s t p q h e =
    let (d, k, last) = symbol_parts s t p q h in
    let same =
      append_cancel_right s.parent t.parent (concat ":" t.name)
        (ap (λ n. concat s.parent (concat ":" n)) (sym e) ∙ last) in
    λ i. record { domain = d i; kind = k i; name = e i; parent = same i }

-- Two symbols of one node whose domains, kinds and parents hold no colon are the same symbol.
pub symbol_node_id_injective_parent :
    (s t : Symbol)
    → IsPlain s
    → IsPlain t
    → IsFreeOf colon s.parent
    → IsFreeOf colon t.parent
    → symbol_node_id s ≡ symbol_node_id t
    → s ≡ t
symbol_node_id_injective_parent s t p q f g h =
    let (d, k, last) = symbol_parts s t p q h in
    let (same, e) = concat_parts s.parent t.parent _ _ f g last in
    λ i. record { domain = d i; kind = k i; name = e i; parent = same i }

pub consumer_node_id_injective : (a b : String) → consumer_node_id a ≡ consumer_node_id b → a ≡ b
unfolding consumer_node_id
consumer_node_id_injective a b h = append_cancel_left "consumer:" a b h

abbrev first_code : List ℕ → ℕ
first_code [] = 0
first_code (c ∷ cs) = c

-- No symbol has the node of a consumer.
pub symbol-ne-consumer : (s : Symbol) (id : String) → symbol_node_id s ≢ consumer_node_id id
unfolding symbol_node_id consumer_node_id join
symbol-ne-consumer s id h =
    let e = sym (codes-concat "symbol" _) ∙ ap codes h ∙ codes-concat "consumer:" id in
    absurd (omega (arith, ap first_code e))

-- Edges between nodes whose IDs hold no NUL have one key only if they are equal.
pub edge_key_injective :
    (e f : Edge)
    → IsFreeOf nul e.from
    → IsFreeOf nul e.to
    → IsFreeOf nul f.from
    → IsFreeOf nul f.to
    → edge_key e ≡ edge_key f
    → e ≡ f
unfolding edge_key join
edge_key_injective e f a b c d h =
    let (src, rest) = concat_injective "\0" e.from f.from _ _ a c h in
    let (dst, kind) = concat_injective "\0" e.to f.to _ _ b d rest in
    λ i. record { from = src i; to = dst i; kind = kind i }
