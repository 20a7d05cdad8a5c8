-- ===== src/Config/Documents.antt =====
-- internal/config/validation.go and changeset.go: which change sets and migrations are accepted.
use mathlib.Core.Bool.{false≢true}
use mathlib.Core.List.Memᴰ
use telemetry_change_guard.Common.{
  ℕ, ◌+◌, ◌≤◌, String, Bool, true, false, none, some, List, [], ◌∷◌, ◌≡◌, refl, map, sym, ◌∙◌, ◌↔◌,
  ◌≢◌, inl, inr, arith, eq_iff, lookup, assign, lookup-assign, All, ltb, Distinct, Bool-cases,
  Option-cases, length, Memᴰ-perm, Permᴰ-sym, Memᴰ-lookup, lookup_of_key, All_member,
  All-of_members, sort_by, sort_by-perm, str_ltb,
}
use telemetry_change_guard.Domain.{Change, Metadata}
use telemetry_change_guard.Config.{
  add_if, text, bytes, check_id, seen_as, see_id, see_new, validate_changes, metadata_at,
  check_entry, check_entries, check_metadata, validate_change_set_metadata,
}
use telemetry_change_guard.Config.Accepts.{
  IsChange, append-eq-nil, append_iff, append_iff_given, add_if_iff, add_if-true, iff_map,
  check_change_iff,
}

All-both {ℓ κ} :
    {A : Type ℓ} (P Q R : A → Type κ) (xs : List A)
    → ((x : A) → P x → Q x → R x)
    → All P xs
    → All Q xs
    → All R xs
All-both P Q R [] f ps qs = tt
All-both P Q R (x ∷ xs) f (p, ps) (q, qs) = (f x p q, All-both P Q R xs f ps qs)

abbrev Ids : List Change → Type 0
Ids changes = Distinct (λ c. c.id) changes

-- A change that the loop accepts when it has seen the identifiers of `seen`.
record IsNew (is_blank : String → Bool) (seen : List (String × ℕ)) (c : Change) : Type 0 where
  identified : is_blank c.id ≡ false
  unseen : lookup c.id seen ≡ none
  change : IsChange is_blank c

-- The changes of an accepted document: each is well formed and has an identifier of its own.
pub record AreChanges (is_blank : String → Bool) (changes : List Change) : Type 0 where
  pub formed : All (IsChange is_blank) changes
  pub identified : All (λ c. is_blank c.id ≡ false) changes
  pub distinct : Ids changes

pub record IsEntry (is_blank : String → Bool) (key value : String) : Type 0 where
  pub keyed : is_blank key ≡ false
  pub short_key : bytes key ≤ 128
  pub short_value : bytes value ≤ 4096

pub record IsMetadata (is_blank : String → Bool) (m : Metadata) : Type 0 where
  pub few : length m ≤ 64
  pub bounded : (k v : String) → lookup k m ≡ some v → IsEntry is_blank k v

at_most_iff : (n limit : ℕ) → (ltb limit n ≡ false) ↔ (n ≤ limit)
at_most_iff n limit = ground arith

module _ (is_blank : String → Bool) (show : ℕ → String) (quote : String → String) where
  check_id_iff :
      (path : String) (c : Change) (seen : List (String × ℕ))
      → (check_id is_blank show quote path c seen ≡ [])
        ↔ ((is_blank c.id ≡ false) × (lookup c.id seen ≡ none))
  unfolding check_id seen_as
  check_id_iff path c seen = elim (Bool-cases (is_blank c.id)) [
    | inl b ↦ rw b (λ h. absurd (add_if-true _ _ h), λ (e, _). cc e)
    | inr b ↦ elim (Option-cases (lookup c.id seen)) [
      | inl n ↦ rw (b, n) (λ h. (refl, refl), λ k. refl)
      | inr (i, n) ↦ rw (b, n, seen_as) (λ h. absurd (add_if-true _ _ h), λ (_, e). cc e)
    ]
  ]

  unseen_after :
      (c d : Change) (i : ℕ) (seen : List (String × ℕ))
      → (lookup d.id (assign c.id i seen) ≡ none) ↔ ((c.id ≢ d.id) × (lookup d.id seen ≡ none))
  unseen_after c d i seen = rw (lookup-assign c.id d.id i seen) (ground (arith, eq_iff c.id d.id))

  see_id_new :
      (c : Change) (index : ℕ) (seen : List (String × ℕ))
      → is_blank c.id ≡ false
      → lookup c.id seen ≡ none
      → see_id is_blank show quote c index seen ≡ assign c.id index seen
  unfolding see_id see_new
  see_id_new c index seen b n = rw (b, n) refl

  IsNew-before :
      (c : Change) (i : ℕ) (seen : List (String × ℕ)) (changes : List Change)
      → All (IsNew is_blank (assign c.id i seen)) changes
      → All (IsNew is_blank seen) changes × All (λ d. c.id ≢ d.id) changes
  IsNew-before c i seen [] a = (tt, tt)
  IsNew-before c i seen (d ∷ changes) (k, a) =
      let (apart, n) = (unseen_after c d i seen).0 k.unseen in
      let (before, others) = IsNew-before c i seen changes a in
      (
        (record { identified = k.identified; unseen = n; change = k.change }, before),
        (apart, others),
      )

  IsNew-after :
      (c : Change) (i : ℕ) (seen : List (String × ℕ)) (changes : List Change)
      → All (IsNew is_blank seen) changes
      → All (λ d. c.id ≢ d.id) changes
      → All (IsNew is_blank (assign c.id i seen)) changes
  IsNew-after c i seen [] a others = tt
  IsNew-after c i seen (d ∷ changes) (k, a) (apart, others) = (
    record {
      identified = k.identified;
      unseen = (unseen_after c d i seen).1 (apart, k.unseen);
      change = k.change;
    },
    IsNew-after c i seen changes a others,
  )

  loop_iff :
      (index : ℕ) (seen : List (String × ℕ)) (changes : List Change)
      → (validate_changes is_blank show quote index seen changes ≡ [])
        ↔ (All (IsNew is_blank seen) changes × Ids changes)
  unfolding validate_changes
  loop_iff index seen [] = (λ h. (tt, tt), λ k. refl)
  loop_iff index seen (c ∷ changes) =
      let path = text ("spec.changes[" ∷ show index ∷ "]" ∷ []) in
      iff_map
        (append_iff_given
          (append_iff (check_id_iff path c seen) (check_change_iff is_blank show quote path c))
          (λ ((b, n), _).
            rw (see_id_new c index seen b n)
              (loop_iff (index + 1) (assign c.id index seen) changes)))
        (λ (((b, n), k), (a, ids)).
          let (before, others) = IsNew-before c index seen changes a in
          ((record { identified = b; unseen = n; change = k }, before), (others, ids)))
        (λ ((k, before), (others, ids)). (
          ((k.identified, k.unseen), k.change),
          (IsNew-after c index seen changes before others, ids),
        ))

  pub validate_changes_iff :
      (changes : List Change)
      → (validate_changes is_blank show quote 0 [] changes ≡ []) ↔ AreChanges is_blank changes
  unfolding lookup
  validate_changes_iff changes =
      iff_map (loop_iff 0 [] changes)
        (λ (a, ids). record {
          formed = All-both _ _ (IsChange is_blank) changes (λ x p _. p.change) a a;
          identified =
              All-both _ _ (λ c. is_blank c.id ≡ false) changes (λ x p _. p.identified) a a;
          distinct = ids;
        })
        (λ k. (
          All-both _ _ (IsNew is_blank []) changes
              (λ x p q. record { identified = q; unseen = refl; change = p }) k.formed k.identified,
          k.distinct,
        ))

  -- The key and the value of a metadata entry keep their bounds.
  IsEntry-iff :
      (path key value : String)
      → (check_entry is_blank show quote path key value ≡ []) ↔ IsEntry is_blank key value
  unfolding check_entry
  IsEntry-iff path key value = elim (Bool-cases (is_blank key)) [
    | inl b ↦ rw b (
      λ h. absurd (add_if-true _ _ ((append-eq-nil (add_if true _ _) (add_if _ _ _)).0 h).0),
      λ k. absurd (false≢true (sym k.keyed ∙ b)),
    )
    | inr b ↦ rw b (
        iff_map
          (append_iff (add_if_iff _ _ (at_most_iff (bytes key) 128))
            (add_if_iff _ _ (at_most_iff (bytes value) 4096)))
          (λ (m, n). record { keyed = b; short_key = m; short_value = n })
          (λ k. (k.short_key, k.short_value)))
  ]

  entries_iff :
      (path : String) (m : Metadata) (keys : List String)
      → (check_entries is_blank show quote path m keys ≡ [])
        ↔ All (λ k. IsEntry is_blank k (metadata_at is_blank show quote k (lookup k m))) keys
  unfolding check_entries
  entries_iff path m [] = (λ h. tt, λ a. refl)
  entries_iff path m (k ∷ keys) = append_iff (IsEntry-iff path k _) (entries_iff path m keys)

  metadata_iff :
      (path : String) (m : Metadata)
      → (check_metadata is_blank show quote path m ≡ []) ↔ IsMetadata is_blank m
  unfolding check_metadata metadata_at
  metadata_iff path m =
      iff_map
        (append_iff (add_if_iff _ _ (at_most_iff (length m) 64))
          (entries_iff path m (sort_by str_ltb (map (λ e. e.0) m))))
        (λ (n, a). record {
          few = n;
          bounded = λ k v h.
              let listed =
                Memᴰ-perm (Permᴰ-sym (sort_by-perm str_ltb _))
                  (Memᴰ.map (λ (e : String × String). e.0) (Memᴰ-lookup k m h)) in
              let entry = All_member _ (sort_by str_ltb (map (λ e. e.0) m)) a listed in
              rw (h, metadata_at) at entry;
        })
        (λ k. (
          k.few,
          All-of_members _ (sort_by str_ltb (map (λ e. e.0) m)) (λ j i.
              let (v, h) = lookup_of_key j m (Memᴰ-perm (sort_by-perm str_ltb _) i) in
              rw (h, metadata_at) (k.bounded j v h)),
        ))

  pub All-metadata_iff :
      (index : ℕ) (changes : List Change)
      → (validate_change_set_metadata is_blank show quote index changes ≡ [])
        ↔ All (λ c. IsMetadata is_blank c.metadata) changes
  unfolding validate_change_set_metadata
  All-metadata_iff index [] = (λ h. tt, λ a. refl)
  All-metadata_iff index (c ∷ changes) =
      append_iff (metadata_iff _ c.metadata) (All-metadata_iff (index + 1) changes)
