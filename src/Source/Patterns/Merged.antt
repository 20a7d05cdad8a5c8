-- ===== src/Source/Patterns/Merged.antt =====
-- internal/source/secure.go, `ExpandPatterns`: equal patterns and shared files are merged, and none is lost.
use telemetry_change_guard.Common.{
  String, Bool, true, ◌||◌, Option, none, some, List, [], ◌∷◌, ◌≡◌, refl, sym, ap, ◌∙◌, subst, ◌⊎◌,
  inl, inr, Memᴰ, Memᴰ-perm, Permᴰ-sym, ◌==◌, eq_iff, map, has, has_iff, lookup, assign,
  lookup-assign, lookup-assign_self, Memᴰ-lookup, sort_by, sort_by-perm, str_ltb, Bool-cases,
  Option-cases, arith,
}
use mathlib.Core.List.Memᴰ
use telemetry_change_guard.Source.{Match, Failure}
use telemetry_change_guard.Source.Patterns.{
  Matches, Failures, note_failure, note_match, merged, add_pattern, in_order, values,
}

pub some_injective {ℓ} : {A : Type ℓ} {a b : A} → Path (Option A) (some a) (some b) → a ≡ b
some_injective h = cc h

-- What is assigned at a key, and what stays at the others.
assigned {ℓ} :
    {V : Type ℓ} (k j : String) (v w : V) (m : List (String × V))
    → lookup j m ≡ some w
    → ((k ≡ j) × (lookup j (assign k v m) ≡ some v)) ⊎ (lookup j (assign k v m) ≡ some w)
assigned k j v w m h = elim (Bool-cases (k == j)) [
  | inl same ↦ inl ((eq_iff k j).0 same, rw (lookup-assign k j v m, same) refl)
  | inr other ↦ inr (rw (lookup-assign k j v m, other) h)
]

in_order_lem {ℓ} :
    {V : Type ℓ} (m : List (String × V)) (k : String) (keys : List String) {v : V}
    → lookup k m ≡ some v
    → Memᴰ k keys
    → Memᴰ v (in_order m keys)
unfolding in_order
in_order_lem m k [] h n = absurd (Memᴰ.not-nil n)
in_order_lem m k (j ∷ keys) h n = elim (Memᴰ.cases_cons n) [
  | inl here ↦ rw (ap (λ x. lookup x m) (sym here) ∙ h, in_order) (Memᴰ.head refl)
  | inr later ↦ elim (Option-cases (lookup j m)) [
    | inl q ↦ rw (q, in_order) (in_order_lem m k keys h later)
    | inr (w, q) ↦ rw (q, in_order) (Memᴰ.tail (in_order_lem m k keys h later))
  ]
]

pub values_lem {ℓ} :
    {V : Type ℓ} (m : List (String × V)) (k : String) {v : V}
    → lookup k m ≡ some v
    → Memᴰ v (values m)
values_lem m k h = in_order_lem m k (sort_by str_ltb (map (λ e. e.0) m)) h (
    Memᴰ-perm (Permᴰ-sym (sort_by-perm str_ltb (map (λ e. e.0) m)))
      (Memᴰ.map (λ e. e.0) (Memᴰ-lookup k m h)))

-- If the first is required, so is the second.
abbrev pub Implies : Bool → Bool → Type 0
Implies a b = a ≡ true → b ≡ true

or_left : (a b : Bool) → Implies a (a || b)
or_left a b h = ground (arith, h)

or_right : (a b : Bool) → Implies b (a || b)
or_right a b h = ground (arith, h)

-- A failure under the key is named by it, and required if told so.
abbrev pub HasFailure : String → String → Bool → Failures → Type 0
HasFailure key shown required fs =
    (f : Failure) × (lookup key fs ≡ some f) × (f.pattern ≡ shown) × Implies required f.required

abbrev pub HasMatch : String → Bool → Matches → Type 0
HasMatch shown required ms =
    (key : String) × (m : Match) × (lookup key ms ≡ some m)
    × Memᴰ shown m.patterns
    × Implies required m.required

-- Noting a failure under a key keeps those that are there.
pub failure_kept :
    (k j shown : String) (required : Bool) (f : Failure) (fs : Failures)
    → HasFailure j shown required fs
    → HasFailure j shown required (note_failure k f fs)
unfolding note_failure
failure_kept k j shown required f fs (g, found, named, implied) =
    elim (Option-cases (lookup k fs)) [
      | inl q ↦
          rw (q, note_failure)
            (elim (assigned k j f g fs found) [
              | inl (same, _) ↦ absurd (cc (same, q, found))
              | inr kept ↦ (g, kept, named, implied)
            ])
      | inr (old, q) ↦
          rw (q, note_failure)
            (let new = record old { required = old.required || f.required } in
              elim (assigned k j new g fs found) [
                | inl (same, placed) ↦
                    let is_old : g ≡ old =
                      some_injective (sym found ∙ ap (λ x. lookup x fs) (sym same) ∙ q) in
                    (
                      new,
                      placed,
                      ap (λ x. x.pattern) (sym is_old) ∙ named,
                      λ r.
                          or_left old.required f.required
                            (subst (λ x. x.required ≡ true) is_old (implied r)),
                    )
                | inr kept ↦ (g, kept, named, implied)
              ])
    ]

-- Every failure is named by its key.
abbrev pub IsNamed : (String → String) → Failures → Type 0
IsNamed display fs = (k : String) (f : Failure) → lookup k fs ≡ some f → f.pattern ≡ display k

pub failure_noted :
    (display : String → String) (k : String) (f : Failure) (fs : Failures)
    → IsNamed display fs
    → f.pattern ≡ display k
    → HasFailure k (display k) f.required (note_failure k f fs)
unfolding note_failure
failure_noted display k f fs named here = elim (Option-cases (lookup k fs)) [
  | inl q ↦ rw (q, note_failure) (f, lookup-assign_self k f fs, here, λ r. r)
  | inr (old, q) ↦
      rw (q, note_failure)
        (let new = record old { required = old.required || f.required } in
          (new, lookup-assign_self k new fs, named k old q, or_right old.required f.required))
]

pub note_failure-IsNamed :
    (display : String → String) (k : String) (f : Failure) (fs : Failures)
    → IsNamed display fs
    → f.pattern ≡ display k
    → IsNamed display (note_failure k f fs)
unfolding note_failure
note_failure-IsNamed display k f fs named here j g found = elim (Option-cases (lookup k fs)) [
  | inl q ↦ placed_name f here (rw (q, note_failure) at found)
  | inr (old, q) ↦
      placed_name (record old { required = old.required || f.required }) (named k old q)
        (rw (q, note_failure) at found)
]
  where
    placed_name :
        (v : Failure)
        → v.pattern ≡ display k
        → lookup j (assign k v fs) ≡ some g
        → g.pattern ≡ display j
    placed_name v name h = elim (Bool-cases (k == j)) [
      | inl same ↦
          ap (λ x. x.pattern) (sym (some_injective (rw (lookup-assign k j v fs, same) at h)))
          ∙ name
          ∙ ap display ((eq_iff k j).0 same)
      | inr other ↦ named j g (rw (lookup-assign k j v fs, other) at h)
    ]

pattern_added : (shown : String) (patterns : List String) → Memᴰ shown (add_pattern shown patterns)
pattern_added shown patterns = elim (Bool-cases (has shown patterns)) [
  | inl e ↦ rw e ((has_iff shown patterns).0 e)
  | inr e ↦ rw e (Memᴰ.head refl)
]

pattern_kept :
    (shown other : String) (patterns : List String)
    → Memᴰ shown patterns
    → Memᴰ shown (add_pattern other patterns)
pattern_kept shown other patterns m = elim (Bool-cases (has other patterns)) [
  | inl e ↦ rw e m
  | inr e ↦ rw e (Memᴰ.tail m)
]

-- Noting a match keeps those that are there.
pub match_kept :
    (identity path by shown : String) (required r : Bool) (ms : Matches)
    → HasMatch shown r ms
    → HasMatch shown r (note_match identity path required by ms)
unfolding note_match
match_kept identity path by shown required r ms (key, m, found, listed, implied) =
    elim (assigned identity key (merged (lookup identity ms) path required by) m ms found) [
      | inr kept ↦ (key, m, kept, listed, implied)
      | inl (same, placed) ↦
          let q : lookup identity ms ≡ some m = ap (λ x. lookup x ms) same ∙ found in
          (
            key,
            merged (some m) path required by,
            placed ∙ ap (λ o. some (merged o path required by)) q,
            pattern_kept shown by m.patterns listed,
            λ e. or_left m.required required (implied e),
          )
    ]

pub match_noted :
    (identity path shown : String) (required : Bool) (ms : Matches)
    → HasMatch shown required (note_match identity path required shown ms)
unfolding note_match
match_noted identity path shown required ms = elim (Option-cases (lookup identity ms)) [
  | inl q ↦ (
    identity,
    merged none path required shown,
    lookup-assign_self identity _ ms ∙ ap (λ o. some (merged o path required shown)) q,
    Memᴰ.head refl,
    λ e. e,
  )
  | inr (old, q) ↦ (
    identity,
    merged (some old) path required shown,
    lookup-assign_self identity _ ms ∙ ap (λ o. some (merged o path required shown)) q,
    pattern_added shown old.patterns,
    or_right old.required required,
  )
]
