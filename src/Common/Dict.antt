-- ===== src/Common/Dict.antt =====
-- Go's maps with text keys, as association lists, and sets of texts, as lists.
use Prim.Native.String.{String}
use mathlib.Core.Path.{◌≡◌, refl, sym, ◌∙◌}
use mathlib.Core.Logic.{◌⊎◌, inl, inr, ◌↔◌}
use mathlib.Core.Bool.{Bool, true, false, ◌||◌, false≢true}
use mathlib.Core.Option.{Option, none, some}
use mathlib.Core.List.{List, [], ◌∷◌, ◌++◌, map, Memᴰ}
use mathlib.Core.List.Memᴰ
use native.Mathlib.Omega.{arith}
use text.Mathlib.Text.{◌==◌}
use text.Mathlib.TextEquality.{eq_iff}
use telemetry_change_guard.Common.Lists.{Memᴰ-append, Memᴰ-cons}
use telemetry_change_guard.Common.Tests.{if◌then◌else◌, Bool-cases}

module _ {ℓ} {V : Type ℓ} where
  unfoldable pub lookup : String → List (String × V) → Option V
  lookup k [] = none
  lookup k ((j, v) ∷ m) = let rest = lookup k m in if j == k then some v else rest

  -- `m[k] = v`
  unfoldable pub assign : String → V → List (String × V) → List (String × V)
  assign k v [] = (k, v) ∷ []
  assign k v ((j, w) ∷ m) = let rest = assign k v m in if j == k then (j, v) ∷ m else (j, w) ∷ rest

  pub lookup-assign :
      (k j : String) (v : V) (m : List (String × V))
      → lookup j (assign k v m) ≡ (if k == j then some v else lookup j m)
  unfolding lookup assign
  lookup-assign k j v [] = refl
  lookup-assign k j v ((i, w) ∷ m) =
      ground (arith, eq_iff k j, eq_iff i k, eq_iff i j, lookup-assign k j v m)

  pub lookup-assign_self :
      (k : String) (v : V) (m : List (String × V)) → lookup k (assign k v m) ≡ some v
  lookup-assign_self k v m = rw (lookup-assign k k v m, (eq_iff k k).1 refl)

  -- A value that is found stands in the list under its key.
  pub Memᴰ-lookup :
      (k : String) (m : List (String × V)) {v : V} → lookup k m ≡ some v → Memᴰ (k, v) m
  unfolding lookup
  Memᴰ-lookup k [] h = cc h
  Memᴰ-lookup k ((j, w) ∷ m) h = elim (Bool-cases (j == k)) [
    | inl e ↦ Memᴰ.head (ground (arith, eq_iff j k))
    | inr e ↦ Memᴰ.tail (Memᴰ-lookup k m (rw e at h))
  ]

-- `append` on the slice under a key, the zero value of a missing key being the empty slice.
module _ {ℓ} {A : Type ℓ} where
  unfoldable pub entries : String → List (String × List A) → List A
  entries k [] = []
  entries k ((j, xs) ∷ m) = let rest = entries k m in if j == k then xs else rest

  unfoldable pub extend : String → A → List (String × List A) → List (String × List A)
  extend k x [] = (k, x ∷ []) ∷ []
  extend k x ((j, ys) ∷ m) =
      let rest = extend k x m in if j == k then (j, ys ++ x ∷ []) ∷ m else (j, ys) ∷ rest

  pub entries-extend :
      (k j : String) (x : A) (m : List (String × List A))
      → entries j (extend k x m) ≡ (if k == j then entries j m ++ x ∷ [] else entries j m)
  unfolding entries extend
  entries-extend k j x [] = refl
  entries-extend k j x ((i, ys) ∷ m) =
      ground (arith, eq_iff k j, eq_iff i k, eq_iff i j, entries-extend k j x m)

  pub mem-entries-extend :
      (k j : String) (x y : A) (m : List (String × List A))
      → Memᴰ y (entries j (extend k x m)) ↔ (Memᴰ y (entries j m) ⊎ (k ≡ j) × (y ≡ x))
  mem-entries-extend k j x y m = rw (entries-extend k j x m) (
      ground (
        arith,
        eq_iff k j,
        Memᴰ-append y (entries j m) (x ∷ []),
        Memᴰ-cons y x [],
        λ (n : Memᴰ y []). Memᴰ.not-nil n,
      ))

-- Membership of a text in a set.
unfoldable pub has : String → List String → Bool
has s [] = false
has s (t ∷ ts) = t == s || has s ts

pub has_iff : (s : String) (ts : List String) → (has s ts ≡ true) ↔ Memᴰ s ts
unfolding has
has_iff s [] = (λ h. cc h, λ m. absurd (Memᴰ.not-nil m))
has_iff s (t ∷ ts) = (
  λ h. elim (Bool-cases (t == s)) [
    | inl e ↦ Memᴰ.head (sym ((eq_iff t s).0 e))
    | inr e ↦ Memᴰ.tail ((has_iff s ts).0 (rw e at h))
  ],
  λ m. elim (Memᴰ.cases_cons m) [
    | inl e ↦ rw ((eq_iff t s).1 (sym e))
    | inr n ↦ ground (arith, (has_iff s ts).1 n)
  ],
)

-- A key that is listed has a value.
pub lookup_of_key {ℓ} :
    {V : Type ℓ} (k : String) (m : List (String × V))
    → Memᴰ k (map (λ p. p.0) m)
    → (v : V) × (lookup k m ≡ some v)
unfolding lookup
lookup_of_key k [] h = absurd (Memᴰ.not-nil h)
lookup_of_key k ((j, v) ∷ m) h = elim (Bool-cases (j == k)) [
  | inl e ↦ (v, rw e)
  | inr e ↦ rw e (elim (Memᴰ.cases_cons h) [
    | inl same ↦ absurd (false≢true (sym e ∙ (eq_iff j k).1 (sym same)))
    | inr later ↦ lookup_of_key k m later
  ])
]
