-- ===== src/Impact/Findings/Impacted.antt =====
-- internal/impact/finding.go, `ImpactedConsumers`: which paths are recorded for which consumer.
use mathlib.Core.List.Memᴰ
use telemetry_change_guard.Common.{
  String, Bool, true, false, not, ◌&&◌, Option, none, some, List, [], ◌∷◌, ◌≡◌, refl, sym, ap, ◌∙◌,
  subst, ◌↔◌, ◌⊎◌, inl, inr, Memᴰ, ltb, length, entries, mem-entries-extend, if◌then◌else◌,
  Bool-cases,
}
use telemetry_change_guard.Domain.{Symbol, Consumer}
use telemetry_change_guard.Graph.{Graph, Node, Route, node, all_nodes}
use telemetry_change_guard.Graph.Traverse.Walks.{end_of}
use telemetry_change_guard.Impact.Findings.{
  PathMap, record_for, record_path, record_paths, node_matches, impacted_from, impacted_consumers,
  paths_from,
}

-- The node is that of a consumer with a given ID.
pub record IsConsumerNode (g : Graph) (v : String) (id : String) : Type 0 where
  pub at : Node
  pub consumer : Consumer
  pub found : node g v ≡ some at
  pub carries : at.consumer ≡ some consumer
  pub same_id : consumer.id ≡ id

-- The path is not left out for its length.
abbrev pub IsAllowed : Bool → Route → Type 0
IsAllowed transitive path = (not transitive && ltb 1 (length path.edges)) ≡ false

record_for_mem :
    (o : Option Consumer) (path : Route) (m : PathMap) (id : String) (q : Route)
    → Memᴰ q (entries id (record_for o path m))
      ↔ (Memᴰ q (entries id m) ⊎ (q ≡ path) × ((c : Consumer) × (o ≡ some c) × (c.id ≡ id)))
unfolding record_for
record_for_mem none path m id q = (inl, λ s. elim s [ inl old ↦ old | inr (_, (c, e, _)) ↦ cc e ])
record_for_mem (some c) path m id q =
    let (to, from) = mem-entries-extend c.id id path q m in
    (
      λ h. elim (to h) [ inl old ↦ inl old | inr (a, b) ↦ inr (b, (c, refl, a)) ],
      λ s. elim s [
        | inl old ↦ from (inl old)
        | inr (b, (d, e, a)) ↦
            let same : c ≡ d = cc e in from (inr (ap (λ (x : Consumer). x.id) same ∙ a, b))
      ],
    )

record_at :
    (o : Option Node) (path : Route) (m : PathMap) (id : String) (q : Route)
    → Memᴰ q (entries id (record_path o path m)) ↔ (
        Memᴰ q (entries id m)
        ⊎ (q ≡ path)
          × ((n : Node) × (c : Consumer) × (o ≡ some n) × (n.consumer ≡ some c) × (c.id ≡ id)))
unfolding record_path
record_at none path m id q = (inl, λ s. elim s [ inl old ↦ old | inr (_, (n, c, e, _, _)) ↦ cc e ])
record_at (some n) path m id q =
    let (to, from) = record_for_mem n.consumer path m id q in
    (
      λ h. elim (to h) [ inl old ↦ inl old | inr (b, (c, e, a)) ↦ inr (b, (n, c, refl, e, a)) ],
      λ s. elim s [
        | inl old ↦ from (inl old)
        | inr (b, (k, c, e, f, a)) ↦
            let same : n ≡ k = cc e in
            from (inr (b, (c, ap (λ (x : Node). x.consumer) same ∙ f, a)))
      ],
    )

record_path_mem :
    (g : Graph) (path : Route) (m : PathMap) (id : String) (q : Route)
    → Memᴰ q (entries id (record_path (node g (end_of path)) path m))
      ↔ (Memᴰ q (entries id m) ⊎ (q ≡ path) × IsConsumerNode g (end_of path) id)
record_path_mem g path m id q =
    let (to, from) = record_at (node g (end_of path)) path m id q in
    (
      λ h. elim (to h) [
        | inl old ↦ inl old
        | inr (e, (n, c, a, b, f)) ↦
            inr (e, record { at = n; consumer = c; found = a; carries = b; same_id = f })
      ],
      λ s. elim s [
        | inl old ↦ from (inl old)
        | inr (e, k) ↦ from (inr (e, (k.at, k.consumer, k.found, k.carries, k.same_id)))
      ],
    )

module _ (g : Graph) (transitive : Bool) (id : String) (q : Route) where
  -- `q` is one of some paths, is not left out for its length, and ends at the consumer.
  abbrev pub IsRecorded : List Route → Type 0
  IsRecorded paths = Memᴰ q paths × IsAllowed transitive q × IsConsumerNode g (end_of q) id

  one_path :
      (path : Route) (m : PathMap)
      → Memᴰ q (
          entries id (
            if not transitive && ltb 1 (length path.edges)
            then m
            else record_path (node g (end_of path)) path m))
        ↔ (Memᴰ q (entries id m)
            ⊎ (q ≡ path) × IsAllowed transitive path × IsConsumerNode g (end_of path) id)
  one_path path m = elim (Bool-cases (not transitive && ltb 1 (length path.edges))) [
    | inl long ↦ rw long (inl, λ s. elim s [ inl old ↦ old | inr (_, k, _) ↦ cc k ])
    | inr short ↦ rw short (
        let (to, from) = record_path_mem g path m id q in
        (
          λ h. elim (to h) [ inl old ↦ inl old | inr (e, c) ↦ inr (e, refl, c) ],
          λ s. elim s [ inl old ↦ from (inl old) | inr (e, _, c) ↦ from (inr (e, c)) ],
        ))
  ]

  record_paths_mem :
      (paths : List Route) (m : PathMap)
      → Memᴰ q (entries id (record_paths g transitive paths m))
        ↔ (Memᴰ q (entries id m) ⊎ IsRecorded paths)
  unfolding record_paths
  record_paths_mem [] m =
      (inl, λ s. elim s [ inl old ↦ old | inr (k, _, _) ↦ absurd (Memᴰ.not-nil k) ])
  record_paths_mem (path ∷ paths) m =
      let (to, from) = record_paths_mem paths _ in
      let (to', from') = one_path path m in
      (
        λ h. elim (to h) [
          | inl early ↦ elim (to' early) [
            | inl old ↦ inl old
            | inr (e, a, c) ↦ inr (
              Memᴰ.head e,
              subst (IsAllowed transitive) (sym e) a,
              subst (λ (x : Route). IsConsumerNode g (end_of x) id) (sym e) c,
            )
          ]
          | inr (k, a, c) ↦ inr (Memᴰ.tail k, a, c)
        ],
        λ s. elim s [
          | inl old ↦ from (inl (from' (inl old)))
          | inr (k, a, c) ↦ elim (Memᴰ.cases_cons k) [
            | inl e ↦ from (
                inl (
                  from' (
                    inr (
                      e,
                      subst (IsAllowed transitive) e a,
                      subst (λ (x : Route). IsConsumerNode g (end_of x) id) e c,
                    ))))
            | inr later ↦ from (inr (later, a, c))
          ]
        ],
      )

  -- Some matching symbol node has the path.
  abbrev pub IsFrom : Symbol → List Node → Type 0
  IsFrom changed ns =
      (n : Node) × Memᴰ n ns × (node_matches changed n ≡ true) × IsRecorded (paths_from g n.id)

  one_node :
      (changed : Symbol) (n : Node) (m : PathMap)
      → Memᴰ q (
          entries id
            (if node_matches changed n then record_paths g transitive (paths_from g n.id) m else m))
        ↔ (Memᴰ q (entries id m) ⊎ (node_matches changed n ≡ true) × IsRecorded (paths_from g n.id))
  one_node changed n m = elim (Bool-cases (node_matches changed n)) [
    | inl yes' ↦ rw yes' (
        let (to, from) = record_paths_mem (paths_from g n.id) m in
        (
          λ h. elim (to h) [ inl old ↦ inl old | inr r ↦ inr (refl, r) ],
          λ s. elim s [ inl old ↦ from (inl old) | inr (_, r) ↦ from (inr r) ],
        ))
    | inr no' ↦ rw no' (inl, λ s. elim s [ inl old ↦ old | inr (k, _) ↦ cc k ])
  ]

  impacted_from_mem :
      (changed : Symbol) (ns : List Node) (m : PathMap)
      → Memᴰ q (entries id (impacted_from g changed transitive ns m))
        ↔ (Memᴰ q (entries id m) ⊎ IsFrom changed ns)
  unfolding impacted_from
  impacted_from_mem changed [] m =
      (inl, λ s. elim s [ inl old ↦ old | inr (n, k, _, _) ↦ absurd (Memᴰ.not-nil k) ])
  impacted_from_mem changed (n ∷ ns) m =
      let (to, from) = impacted_from_mem changed ns _ in
      let (to', from') = one_node changed n m in
      (
        λ h. elim (to h) [
          | inl early ↦ elim (to' early) [
            | inl old ↦ inl old
            | inr (t, r) ↦ inr (n, Memᴰ.head refl, t, r)
          ]
          | inr (k, mem, t, r) ↦ inr (k, Memᴰ.tail mem, t, r)
        ],
        λ s. elim s [
          | inl old ↦ from (inl (from' (inl old)))
          | inr (k, mem, t, r) ↦ elim (Memᴰ.cases_cons mem) [
            | inl e ↦ from (
                inl (
                  from' (
                    inr (
                      subst (λ x. node_matches changed x ≡ true) e t,
                      subst (λ (x : Node). IsRecorded (paths_from g x.id)) e r,
                    ))))
            | inr later ↦ from (inr (k, later, t, r))
          ]
        ],
      )

  -- `ImpactedConsumers` records a path for a consumer exactly if some matching symbol node of the graph
  -- has the path, the path ends at a node of that consumer, and it has one edge unless transitive
  -- paths are asked for.
  pub impacted_consumers_iff :
      (changed : Symbol)
      → Memᴰ q (entries id (impacted_consumers (some g) changed transitive))
        ↔ IsFrom changed (all_nodes g)
  unfolding impacted_consumers entries
  impacted_consumers_iff changed =
      let (to, from) = impacted_from_mem changed (all_nodes g) [] in
      (λ h. elim (to h) [ inl old ↦ absurd (Memᴰ.not-nil old) | inr r ↦ r ], λ r. from (inr r))
