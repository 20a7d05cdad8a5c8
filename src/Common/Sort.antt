-- ===== src/Common/Sort.antt =====
-- Go's `sort.Slice` and `sort.Strings`. `sort.Slice` leaves the order of members that its test does
-- not separate open; here they keep their order.
use Prim.Native.String.{String}
use mathlib.Core.Path.{◌≡◌, refl, sym, ap, ◌∙◌, ap₂, subst}
use mathlib.Core.Logic.{◌≢◌, inl, inr}
use mathlib.Core.Bool.{Bool, true}
use mathlib.Core.List.{List, [], ◌∷◌, Memᴰ, Permᴰ}
use mathlib.Core.List.Memᴰ
use telemetry_change_guard.Common.Tests.{if◌then◌else◌, Bool-cases}
use telemetry_change_guard.Common.Lists.{
  All, All_member, All-of_members, Permᴰ-refl, Permᴰ-sym, Memᴰ-perm,
}
use telemetry_change_guard.Common.Text.{str_ltb, str_ltb_irrefl, str_ltb_trans, str_ltb_total}

module _ {ℓ} {A : Type ℓ} (less : A → A → Bool) where
  unfoldable pub insert_by : A → List A → List A
  insert_by x [] = x ∷ []
  insert_by x (y ∷ ys) = if less y x then y ∷ insert_by x ys else x ∷ y ∷ ys

  unfoldable pub sort_by : List A → List A
  unfolding insert_by
  sort_by [] = []
  sort_by (x ∷ xs) = insert_by x (sort_by xs)

  insert_by-perm : (x : A) (xs : List A) → Permᴰ (insert_by x xs) (x ∷ xs)
  unfolding insert_by
  insert_by-perm x [] = Permᴰ-refl _
  insert_by-perm x (y ∷ ys) = elim (Bool-cases (less y x)) [
    | inl e ↦ rw e (Permᴰ.trans (Permᴰ.cons refl (insert_by-perm x ys)) (Permᴰ.swap refl refl))
    | inr e ↦ rw e (Permᴰ-refl _)
  ]

  pub sort_by-perm : (xs : List A) → Permᴰ (sort_by xs) xs
  sort_by-perm [] = unfold sort_by in Permᴰ.nil
  sort_by-perm (x ∷ xs) =
      let here : Permᴰ (sort_by (x ∷ xs)) (x ∷ sort_by xs) =
        unfold sort_by in insert_by-perm x (sort_by xs) in
      Permᴰ.trans here (Permᴰ.cons refl (sort_by-perm xs))

-- Members that stand in strictly ascending order of a key.
module _ {ℓ} {A : Type ℓ} (key : A → String) where
  abbrev pub by_key : A → A → Bool
  by_key a b = str_ltb (key a) (key b)

  abbrev pub Ascending : List A → Type ℓ
  Ascending [] = Unit
  Ascending (x ∷ xs) = All (λ y. by_key x y ≡ true) xs × Ascending xs

  -- No two members share a key.
  abbrev pub Distinct : List A → Type ℓ
  Distinct [] = Unit
  Distinct (x ∷ xs) = All (λ y. key x ≢ key y) xs × Distinct xs

  insert_by-Ascending :
      (x : A) (xs : List A)
      → All (λ y. key x ≢ key y) xs
      → Ascending xs
      → Ascending (insert_by by_key x xs)
  unfolding insert_by
  insert_by-Ascending x [] d a = (tt, tt)
  insert_by-Ascending x (y ∷ ys) (d, ds) (a, as') = elim (Bool-cases (by_key y x)) [
    | inl e ↦ rw e (
      All-of_members _ (insert_by by_key x ys) (λ z m.
          elim (Memᴰ.cases_cons (Memᴰ-perm (insert_by-perm by_key x ys) m)) [
            | inl here ↦ subst (λ w. by_key y w ≡ true) (sym here) e
            | inr later ↦ All_member _ ys a later
          ]),
      insert_by-Ascending x ys ds as',
    )
    | inr e ↦ elim (Bool-cases (by_key x y)) [
      | inl less ↦ rw e (
        (
          less,
          All-of_members _ ys
              (λ z m. str_ltb_trans (key x) (key y) (key z) less (All_member _ ys a m)),
        ),
        (a, as'),
      )
      | inr same ↦ absurd (d (str_ltb_total (key x) (key y) same e))
    ]
  ]

  pub sort_by-Ascending : (xs : List A) → Distinct xs → Ascending (sort_by by_key xs)
  unfolding sort_by
  sort_by-Ascending [] d = tt
  sort_by-Ascending (x ∷ xs) (d, ds) =
      insert_by-Ascending x (sort_by by_key xs)
        (All-of_members _ _ (λ y m. All_member _ xs d (Memᴰ-perm (sort_by-perm by_key xs) m)))
        (sort_by-Ascending xs ds)

  irreflexive : (x y : A) → x ≡ y → by_key x y ≡ true → ⊥
  irreflexive x y e h = cc (str_ltb_irrefl (key y), subst (λ z. by_key z y ≡ true) e h)

  -- The first members of two ascending lists with the same members are equal.
  heads_agree :
      (x y : A) (xs ys : List A)
      → Ascending (x ∷ xs)
      → Ascending (y ∷ ys)
      → Memᴰ x (y ∷ ys)
      → Memᴰ y (x ∷ xs)
      → x ≡ y
  heads_agree x y xs ys (a, _) (b, _) m n = elim (Memᴰ.cases_cons m) [
    | inl e ↦ e
    | inr below ↦ elim (Memᴰ.cases_cons n) [
      | inl e ↦ sym e
      | inr above ↦ absurd (
          irreflexive x x refl (
            str_ltb_trans (key x) (key y) (key x) (All_member _ xs a above)
              (All_member _ ys b below)))
    ]
  ]

  members_below :
      (x y : A) (xs ys : List A)
      → x ≡ y
      → Ascending (x ∷ xs)
      → ((z : A) → Memᴰ z (x ∷ xs) → Memᴰ z (y ∷ ys))
      → (z : A) → Memᴰ z xs
      → Memᴰ z ys
  members_below x y xs ys e (a, _) f z m = elim (Memᴰ.cases_cons (f z (Memᴰ.tail m))) [
    | inl here ↦ absurd (irreflexive x z (e ∙ sym here) (All_member _ xs a m))
    | inr later ↦ later
  ]

  Ascending-unique :
      (xs ys : List A)
      → Ascending xs
      → Ascending ys
      → ((z : A) → Memᴰ z xs → Memᴰ z ys)
      → ((z : A) → Memᴰ z ys → Memᴰ z xs)
      → xs ≡ ys
  Ascending-unique [] [] a b f g = refl
  Ascending-unique [] (y ∷ ys) a b f g = absurd (Memᴰ.not-nil (g y (Memᴰ.head refl)))
  Ascending-unique (x ∷ xs) [] a b f g = absurd (Memᴰ.not-nil (f x (Memᴰ.head refl)))
  Ascending-unique (x ∷ xs) (y ∷ ys) a b f g =
      let e = heads_agree x y xs ys a b (f x (Memᴰ.head refl)) (g y (Memᴰ.head refl)) in
      ap₂ ◌∷◌ e (
        Ascending-unique xs ys a.1 b.1 (members_below x y xs ys e a f)
          (members_below y x ys xs (sym e) b g))

  pub Distinct-perm : {xs ys : List A} → Permᴰ xs ys → Distinct xs → Distinct ys
  Distinct-perm Permᴰ.nil d = d
  Distinct-perm (Permᴰ.cons {a} {b} {l₁} {l₂} e h) (d, ds) = (
    All-of_members _ l₂
        (λ z m. subst (λ w. key w ≢ key z) e (All_member _ l₁ d (Memᴰ-perm (Permᴰ-sym h) m))),
    Distinct-perm h ds,
  )
  Distinct-perm (Permᴰ.swap {a} {b} {a'} {b'} {l} e f) ((n, d), (d', ds)) = (
    (
      λ h. n (ap key e ∙ sym h ∙ sym (ap key f)),
      All-of_members _ l (λ z m. subst (λ w. key w ≢ key z) f (All_member _ l d' m)),
    ),
    (All-of_members _ l (λ z m. subst (λ w. key w ≢ key z) e (All_member _ l d m)), ds),
  )
  Distinct-perm (Permᴰ.trans h k) d = Distinct-perm k (Distinct-perm h d)

  -- With distinct keys the sorted list depends on the members alone.
  pub sort_by_unique :
      {xs ys : List A} → Distinct xs → Permᴰ xs ys → sort_by by_key xs ≡ sort_by by_key ys
  sort_by_unique {xs} {ys} d h =
      let p =
        Permᴰ.trans (sort_by-perm by_key xs) (Permᴰ.trans h (Permᴰ-sym (sort_by-perm by_key ys))) in
      Ascending-unique (sort_by by_key xs) (sort_by by_key ys) (sort_by-Ascending xs d)
        (sort_by-Ascending ys (Distinct-perm h d)) (λ z. Memᴰ-perm p) (λ z. Memᴰ-perm (Permᴰ-sym p))
