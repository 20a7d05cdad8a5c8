-- ===== src/Graph/Traverse/Rounds.antt =====
-- internal/graph/graph.go, `ImpactPaths`: the invariant of the breadth-first traversal.
use mathlib.Core.List.Memᴰ
use telemetry_change_guard.Common.{
  suc, ◌≤◌, String, true, false, List, [], ◌∷◌, ◌++◌, ◌≡◌, refl, ap, sym, ◌∙◌, arith, Memᴰ,
  Memᴰ-append, Memᴰ-cons, has, Bool-cases, inl, inr, ◌⊎◌, ◌≢◌, ◌==◌, ◌||◌, eq_iff, subst, Distinct,
  All, All-append, All-of_members, All_member, has_iff, ◌↔◌,
}
use telemetry_change_guard.Graph.{Graph, Edge, Route, out_edges, sort_edges}
use telemetry_change_guard.Graph.Traverse.{
  Item, Search, extend_route, visit, offer, scan, expand, start_route, start_search,
}
use telemetry_change_guard.Graph.Traverse.Fuel.{mem-sort_edges, sorted-mem}
use telemetry_change_guard.Graph.Traverse.Walks.{
  Walk, here, step, end_of, depth, end_of-extend_route, depth-extend_route,
}

-- The routes on record, that of the start included.
abbrev pub found : String → Search → List Route
found start s = start_route start ∷ s.routes

-- Depths do not fall along the queue.
abbrev pub Rising : List Item → Type 0
Rising [] = Unit
Rising (i ∷ is) = All (λ j. depth i.route ≤ depth j.route) is × Rising is

Rising-concat :
    (is : List Item) (k : Item)
    → Rising is
    → All (λ j. depth j.route ≤ depth k.route) is
    → Rising (is ++ k ∷ [])
Rising-concat [] k r a = (tt, tt)
Rising-concat (i ∷ is) k (low, r) (a, as') =
    (All-append _ is (k ∷ []) low (a, tt), Rising-concat is k r as')

Distinct-concat :
    (rs : List Route) (r : Route)
    → Distinct end_of rs
    → All (λ q. end_of q ≢ end_of r) rs
    → Distinct end_of (rs ++ r ∷ [])
Distinct-concat [] r d a = (tt, tt)
Distinct-concat (q ∷ rs) r (low, d) (a, as') =
    (All-append _ rs (r ∷ []) low (a, tt), Distinct-concat rs r d as')

module _ (g : Graph) (start : String) where
  -- Every edge out of the end of `r` leads to the end of a recorded route, at most one edge longer.
  abbrev pub IsSettled : Search → Route → Type 0
  IsSettled s r =
      (e : Edge)
      → Memᴰ e (out_edges g (end_of r))
      → (q : Route) × Memᴰ q (found start s) × (end_of q ≡ e.to) × (depth q ≤ suc (depth r))

  abbrev pub IsQueued : Search → Route → Type 0
  IsQueued s r = (i : Item) × Memᴰ i s.queue × (i.route ≡ r)

  pub record IsSound (s : Search) : Type 0 where
    pub queued :
        (i : Item) → Memᴰ i s.queue → (i.node ≡ end_of i.route) × Memᴰ i.route (found start s)
    pub walks : (r : Route) → Memᴰ r (found start s) → Walk g start (end_of r) r
    pub seen :
        (v : String)
        → has v s.visited ≡ true
        → (r : Route) × Memᴰ r (found start s) × (end_of r ≡ v)
    pub marked : (r : Route) → Memᴰ r (found start s) → has (end_of r) s.visited ≡ true
    pub distinct : Distinct end_of (found start s)
    pub rising : Rising s.queue

  -- Between rounds.
  pub record Inv (s : Search) : Type 0 where
    pub sound : IsSound s
    pub near :
        (r : Route) (i : Item)
        → Memᴰ r (found start s)
        → Memᴰ i s.queue
        → depth r ≤ suc (depth i.route)
    pub settled : (r : Route) → Memᴰ r (found start s) → IsQueued s r ⊎ IsSettled s r

  -- Within a round, for the route `c` of the current item.
  record Mid (c : Route) (s : Search) : Type 0 where
    sound : IsSound s
    current : Memᴰ c (found start s)
    near : (r : Route) → Memᴰ r (found start s) → depth r ≤ suc (depth c)
    far : (i : Item) → Memᴰ i s.queue → depth c ≤ depth i.route
    settled : (r : Route) → Memᴰ r (found start s) → IsQueued s r ⊎ (r ≡ c) ⊎ IsSettled s r

  module _ (c : Route) (e : Edge) (s : Search) (fresh : has e.to s.visited ≡ false) where
    abbrev new : Route
    new = extend_route c e

    abbrev item : Item
    item = record { node = e.to; route = new }

    found-visit :
        (r : Route) → Memᴰ r (found start (visit c e s)) ↔ (Memᴰ r (found start s) ⊎ (r ≡ new))
    unfolding visit
    found-visit r = ground (
      arith,
      Memᴰ-append r (found start s) (new ∷ []),
      Memᴰ-cons r new [],
      λ (m : Memᴰ r []). Memᴰ.not-nil m,
    )

    queue-visit : (i : Item) → Memᴰ i (visit c e s).queue ↔ (Memᴰ i s.queue ⊎ (i ≡ item))
    unfolding visit
    queue-visit i = ground (
      arith,
      Memᴰ-append i s.queue (item ∷ []),
      Memᴰ-cons i item [],
      λ (m : Memᴰ i []). Memᴰ.not-nil m,
    )

    visited-visit : (v : String) → has v (visit c e s).visited ≡ (e.to == v || has v s.visited)
    unfolding visit has
    visited-visit v = refl

    -- No recorded route ends where the new one does.
    is_new_end : IsSound s → (r : Route) → Memᴰ r (found start s) → end_of r ≢ end_of new
    is_new_end h r m same =
        ground
          (arith, h.marked r m, fresh, ap (λ v. has v s.visited) (same ∙ end_of-extend_route c e))

    Distinct-visit : IsSound s → Distinct end_of (found start (visit c e s))
    unfolding visit
    Distinct-visit h =
        Distinct-concat (found start s) new h.distinct
          (All-of_members _ (found start s) (is_new_end h))

    Rising-visit :
        IsSound s
        → ((i : Item) → Memᴰ i s.queue → depth i.route ≤ suc (depth c))
        → Rising (visit c e s).queue
    unfolding visit
    Rising-visit h bound =
        Rising-concat s.queue item h.rising
          (All-of_members _ s.queue (λ i m. omega (arith, bound i m, depth-extend_route c e)))

    visit-IsSound :
        IsSound s
        → Memᴰ c (found start s)
        → Memᴰ e (out_edges g (end_of c))
        → ((i : Item) → Memᴰ i s.queue → depth i.route ≤ suc (depth c))
        → IsSound (visit c e s)
    visit-IsSound h m out bound = record {
      queued = λ i n. elim ((queue-visit i).0 n) [
        | inl old ↦ let (a, b) = h.queued i old in (a, (found-visit i.route).1 (inl b))
        | inr is_new ↦ rw is_new (sym (end_of-extend_route c e), (found-visit new).1 (inr refl))
      ];
      walks = λ r n. elim ((found-visit r).0 n) [
        | inl old ↦ h.walks r old
        | inr is_new ↦ rw (is_new, end_of-extend_route c e) (step (h.walks c m) e out)
      ];
      seen = λ v n. elim (Bool-cases (e.to == v)) [
        | inl same ↦
            (new, (found-visit new).1 (inr refl), end_of-extend_route c e ∙ (eq_iff e.to v).0 same)
        | inr other ↦
            let (r, old, ends) = h.seen v (rw (visited-visit, other) at n) in
            (r, (found-visit r).1 (inl old), ends)
      ];
      marked = λ r n. elim ((found-visit r).0 n) [
        | inl old ↦ ground (arith, visited-visit (end_of r), h.marked r old)
        | inr is_new ↦
            ground
              (arith, visited-visit (end_of r), eq_iff e.to (end_of r), end_of-extend_route c e)
      ];
      distinct = Distinct-visit h;
      rising = Rising-visit h bound;
    }

    visit-Mid : Memᴰ e (out_edges g (end_of c)) → Mid c s → Mid c (visit c e s)
    visit-Mid out h = record {
      sound = visit-IsSound h.sound h.current out (λ i m. h.near i.route (h.sound.queued i m).1);
      current = (found-visit c).1 (inl h.current);
      near = λ r n. elim ((found-visit r).0 n) [
        | inl old ↦ h.near r old
        | inr is_new ↦ rw is_new (omega (arith, depth-extend_route c e))
      ];
      far = λ i n. elim ((queue-visit i).0 n) [
        | inl old ↦ h.far i old
        | inr is_new ↦ rw is_new (omega (arith, depth-extend_route c e))
      ];
      settled = λ r n. elim ((found-visit r).0 n) [
        | inl old ↦ elim (h.settled r old) [
          | inl (i, m, same) ↦ inl (i, (queue-visit i).1 (inl m), same)
          | inr (inl cur) ↦ inr (inl cur)
          | inr (inr done) ↦ inr (
              inr (λ d m.
                let (q, f, ends, near) = done d m in (q, (found-visit q).1 (inl f), ends, near)))
        ]
        | inr is_new ↦ inl (item, (queue-visit item).1 (inr refl), sym is_new)
      ];
    }

  offer-Mid :
      (c : Route) (e : Edge) (s : Search)
      → Memᴰ e (out_edges g (end_of c))
      → Mid c s
      → Mid c (offer c e s)
        × ((v : String)
            → (has v s.visited ≡ true) ⊎ (e.to ≡ v)
            → has v (offer c e s).visited ≡ true)
  unfolding offer
  offer-Mid c e s out h = elim (Bool-cases (has e.to s.visited)) [
    | inl old ↦ rw old (
      h,
      λ v t. elim t [ inl kept ↦ kept | inr same ↦ subst (λ w. has w s.visited ≡ true) same old ],
    )
    | inr fresh ↦ rw fresh (
      visit-Mid c e s fresh out h,
      λ v t. ground (arith, t, visited-visit c e s fresh v, eq_iff e.to v),
    )
  ]

  -- The inner loop keeps the invariant of a round, and reaches the target of each of its edges.
  scan-Mid :
      (c : Route) (es : List Edge) (s : Search)
      → ((e : Edge) → Memᴰ e es → Memᴰ e (out_edges g (end_of c)))
      → Mid c s
      → Mid c (scan c es s)
        × ((v : String) → (has v s.visited ≡ true) → has v (scan c es s).visited ≡ true)
        × ((e : Edge) → Memᴰ e es → has e.to (scan c es s).visited ≡ true)
  unfolding scan
  scan-Mid c [] s f h = (h, λ v t. t, λ e m. absurd (Memᴰ.not-nil m))
  scan-Mid c (e ∷ es) s f h =
      let (one, kept) = offer-Mid c e s (f e (Memᴰ.head refl)) h in
      let (all, later, reached) = scan-Mid c es (offer c e s) (λ d m. f d (Memᴰ.tail m)) one in
      (
        all,
        λ v t. later v (kept v (inl t)),
        λ d m. elim (Memᴰ.cases_cons m) [
          | inl same ↦ later d.to (kept d.to (inr (ap (λ (x : Edge). x.to) (sym same))))
          | inr rest ↦ reached d rest
        ],
      )

  -- Taking the first item off the queue begins a round.
  start_round :
      (i : Item) (rest : List Item) (s : Search)
      → s.queue ≡ i ∷ rest
      → Inv s
      → Mid i.route (record s { queue = rest })
  start_round i rest s e h = record {
    sound = record {
      queued = λ j m. h.sound.queued j (later j m);
      walks = h.sound.walks;
      seen = h.sound.seen;
      marked = h.sound.marked;
      distinct = h.sound.distinct;
      rising = rises.1;
    };
    current = (h.sound.queued i first).1;
    near = λ r m. h.near r i m first;
    far = λ j m. All_member _ rest rises.0 m;
    settled = λ r m. elim (h.settled r m) [
      | inl (j, n, same) ↦ elim (Memᴰ.cases_cons (subst (Memᴰ j) e n)) [
        | inl is_first ↦ inr (inl (sym same ∙ ap (λ (x : Item). x.route) is_first))
        | inr waits ↦ inl (j, waits, same)
      ]
      | inr done ↦ inr (inr done)
    ];
  }
    where
      first : Memᴰ i s.queue
      first = subst (Memᴰ i) (sym e) (Memᴰ.head refl)

      later : (j : Item) → Memᴰ j rest → Memᴰ j s.queue
      later j m = subst (Memᴰ j) (sym e) (Memᴰ.tail m)

      rises : Rising (i ∷ rest)
      rises = subst Rising e h.sound.rising

  -- A round keeps the invariant.
  pub expand-Inv :
      (i : Item) (rest : List Item) (s : Search)
      → s.queue ≡ i ∷ rest
      → Inv s
      → Inv (expand g i rest s)
  unfolding expand
  expand-Inv i rest s e h =
      let mid = start_round i rest s e h in
      let at_end = (h.sound.queued i (subst (Memᴰ i) (sym e) (Memᴰ.head refl))).0 in
      let (after, _, reached) =
        scan-Mid i.route (sort_edges (out_edges g i.node)) (record s { queue = rest })
          (λ d m. subst (λ v. Memᴰ d (out_edges g v)) at_end (mem-sort_edges _ m)) mid in
      record {
        sound = after.sound;
        near = λ r j m n. omega (arith, after.near r m, after.far j n);
        settled = λ r m. elim (after.settled r m) [
          | inl waits ↦ inl waits
          | inr (inl cur) ↦ inr (λ d n.
              let listed =
                sorted-mem _ (subst (λ v. Memᴰ d (out_edges g v)) (ap end_of cur ∙ sym at_end) n) in
              let (q, f, ends) = after.sound.seen d.to (reached d listed) in
              (q, f, ends, rw cur (after.near q f)))
          | inr (inr done) ↦ inr done
        ];
      }

  pub start-Inv : Inv (start_search start)
  start-Inv = record {
    sound = record {
      queued = λ i m. rw (Memᴰ.eq_of_singleton m) (refl, Memᴰ.head refl);
      walks = λ r m. rw (Memᴰ.eq_of_singleton m) here;
      seen = λ v t.
          (start_route start, Memᴰ.head refl, sym (Memᴰ.eq_of_singleton ((has_iff v _).0 t)));
      marked = λ r m. (has_iff _ _).1 (Memᴰ.head (ap end_of (Memᴰ.eq_of_singleton m)));
      distinct = (tt, tt);
      rising = (tt, tt);
    };
    near = λ r i m n. rw (Memᴰ.eq_of_singleton m) (omega arith);
    settled = λ r m. inl (
      record { node = start; route = start_route start },
      Memᴰ.head refl,
      sym (Memᴰ.eq_of_singleton m),
    );
  }
