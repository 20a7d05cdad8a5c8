-- ===== src/Common/Lists.antt =====
-- Lists measured by native numbers, Boolean quantifiers over lists, and predicates on all members.
use Prim.Native.Nat.{ℕ, suc, ◌+◌}
use mathlib.Core.Path.{◌≡◌, refl, sym, ap, ◌∙◌, subst}
use mathlib.Core.Logic.{◌⊎◌, inl, inr, ◌↔◌, ⊎_elim}
use mathlib.Core.Bool.{Bool, true, false, ◌&&◌, ◌||◌}
use mathlib.Core.List.{List, [], ◌∷◌, ◌++◌, map, Memᴰ, Permᴰ}
use mathlib.Core.List.Memᴰ
use native.Mathlib.Omega.{arith}
use telemetry_change_guard.Common.Tests.{if◌then◌else◌, Bool-cases}

module _ {ℓ} {A : Type ℓ} where
  abbrev pub length : List A → ℕ
  length [] = 0
  length (x ∷ xs) = suc (length xs)

  abbrev pub any : (A → Bool) → List A → Bool
  any p [] = false
  any p (x ∷ xs) = p x || any p xs

  abbrev pub all : (A → Bool) → List A → Bool
  all p [] = true
  all p (x ∷ xs) = p x && all p xs

  -- The members that pass a test, in order.
  abbrev pub keep : (A → Bool) → List A → List A
  keep p [] = []
  keep p (x ∷ xs) = let rest = keep p xs in if p x then x ∷ rest else rest

  abbrev pub is_empty : List A → Bool
  is_empty [] = true
  is_empty (x ∷ xs) = false

  pub List-cases : (xs : List A) → (xs ≡ []) ⊎ ((x : A) × (rest : List A) × (xs ≡ x ∷ rest))
  List-cases [] = inl refl
  List-cases (x ∷ xs) = inr (x, xs, refl)

  pub length-append : (xs ys : List A) → length (xs ++ ys) ≡ length xs + length ys
  length-append [] ys = omega arith
  length-append (x ∷ xs) ys = omega (arith, length-append xs ys)

  pub any-append : (p : A → Bool) (xs ys : List A) → any p (xs ++ ys) ≡ (any p xs || any p ys)
  any-append p [] ys = refl
  any-append p (x ∷ xs) ys = ground (arith, any-append p xs ys)

  pub Memᴰ-cons : (a x : A) (xs : List A) → Memᴰ a (x ∷ xs) ↔ ((a ≡ x) ⊎ Memᴰ a xs)
  Memᴰ-cons a x xs = (Memᴰ.cases_cons, ⊎_elim Memᴰ.head Memᴰ.tail)

  pub Memᴰ-append : (a : A) (xs ys : List A) → Memᴰ a (xs ++ ys) ↔ (Memᴰ a xs ⊎ Memᴰ a ys)
  Memᴰ-append a xs ys = (Memᴰ.append_cases xs, ⊎_elim (Memᴰ.append_left ys) (Memᴰ.append_right xs))

  -- `any` is true exactly when a member passes.
  pub any_member : (p : A → Bool) {x : A} (xs : List A) → Memᴰ x xs → p x ≡ true → any p xs ≡ true
  any_member p [] m h = elim m [ ]
  any_member p (y ∷ xs) (Memᴰ.head e) h = let e' : p y ≡ true = subst (λ z. p z ≡ true) e h in rw e'
  any_member p (y ∷ xs) (Memᴰ.tail m) h = ground (arith, any_member p xs m h)

  pub any_witness :
      (p : A → Bool) (xs : List A) → any p xs ≡ true → (x : A) × Memᴰ x xs × (p x ≡ true)
  any_witness p [] h = cc h
  any_witness p (y ∷ xs) h = elim (Bool-cases (p y)) [
    | inl here ↦ (y, Memᴰ.head refl, here)
    | inr other ↦ let (x, m, e) = any_witness p xs (ground arith) in (x, Memᴰ.tail m, e)
  ]

  -- `any` does not see the order of a list.
  pub any-perm : (p : A → Bool) {xs ys : List A} → Permᴰ xs ys → any p xs ≡ any p ys
  any-perm p Permᴰ.nil = refl
  any-perm p (Permᴰ.cons e h) = rw (e, any-perm p h)
  any-perm p (Permᴰ.swap {a} {b} {a'} {b'} {l} e f) = rw (e, f) (ground arith)
  any-perm p (Permᴰ.trans h k) = any-perm p h ∙ any-perm p k

  pub length-perm : {xs ys : List A} → Permᴰ xs ys → length xs ≡ length ys
  length-perm Permᴰ.nil = refl
  length-perm (Permᴰ.cons e h) = ap suc (length-perm h)
  length-perm (Permᴰ.swap e f) = refl
  length-perm (Permᴰ.trans h k) = length-perm h ∙ length-perm k

  pub Memᴰ-perm : {a : A} {xs ys : List A} → Permᴰ xs ys → Memᴰ a xs → Memᴰ a ys
  Memᴰ-perm Permᴰ.nil m = m
  Memᴰ-perm (Permᴰ.cons e h) (Memᴰ.head f) = Memᴰ.head (f ∙ e)
  Memᴰ-perm (Permᴰ.cons e h) (Memᴰ.tail m) = Memᴰ.tail (Memᴰ-perm h m)
  Memᴰ-perm (Permᴰ.swap e f) (Memᴰ.head g) = Memᴰ.tail (Memᴰ.head (g ∙ e))
  Memᴰ-perm (Permᴰ.swap e f) (Memᴰ.tail (Memᴰ.head g)) = Memᴰ.head (g ∙ f)
  Memᴰ-perm (Permᴰ.swap e f) (Memᴰ.tail (Memᴰ.tail m)) = Memᴰ.tail (Memᴰ.tail m)
  Memᴰ-perm (Permᴰ.trans h k) m = Memᴰ-perm k (Memᴰ-perm h m)

  pub Permᴰ-refl : (xs : List A) → Permᴰ xs xs
  Permᴰ-refl [] = Permᴰ.nil
  Permᴰ-refl (x ∷ xs) = Permᴰ.cons refl (Permᴰ-refl xs)

  pub Permᴰ-sym : {xs ys : List A} → Permᴰ xs ys → Permᴰ ys xs
  Permᴰ-sym Permᴰ.nil = Permᴰ.nil
  Permᴰ-sym (Permᴰ.cons e h) = Permᴰ.cons (sym e) (Permᴰ-sym h)
  Permᴰ-sym (Permᴰ.swap e f) = Permᴰ.swap (sym f) (sym e)
  Permᴰ-sym (Permᴰ.trans h k) = Permᴰ.trans (Permᴰ-sym k) (Permᴰ-sym h)

  pub Memᴰ-keep :
      (p : A → Bool) {a : A} (xs : List A) → Memᴰ a (keep p xs) → Memᴰ a xs × (p a ≡ true)
  Memᴰ-keep p [] m = absurd (Memᴰ.not-nil m)
  Memᴰ-keep p {a} (x ∷ xs) m = elim (Bool-cases (p x)) [
    | inl e ↦ elim (Memᴰ.cases_cons (rw e at m)) [
      | inl here ↦ (Memᴰ.head here, subst (λ z. p z ≡ true) (sym here) e)
      | inr later ↦ let (n, t) = Memᴰ-keep p xs later in (Memᴰ.tail n, t)
    ]
    | inr e ↦ let (n, t) = Memᴰ-keep p xs (rw e at m) in (Memᴰ.tail n, t)
  ]

  pub keep_member :
      (p : A → Bool) {a : A} (xs : List A) → Memᴰ a xs → p a ≡ true → Memᴰ a (keep p xs)
  keep_member p [] m t = elim m [ ]
  keep_member p (x ∷ xs) (Memᴰ.head e) t =
      let e' : p x ≡ true = subst (λ z. p z ≡ true) e t in rw e' (Memᴰ.head e)
  keep_member p (x ∷ xs) (Memᴰ.tail m) t = elim (Bool-cases (p x)) [
    | inl e ↦ rw e (Memᴰ.tail (keep_member p xs m t))
    | inr e ↦ rw e (keep_member p xs m t)
  ]

module _ {ℓ κ} {A : Type ℓ} (P : A → Type κ) where
  abbrev pub All : List A → Type κ
  All [] = Unit
  All (x ∷ xs) = P x × All xs

  pub All-append : (xs ys : List A) → All xs → All ys → All (xs ++ ys)
  All-append [] ys _ k = k
  All-append (x ∷ xs) ys (p, h) k = (p, All-append xs ys h k)

  pub All_member : {x : A} (xs : List A) → All xs → Memᴰ x xs → P x
  All_member [] h m = elim m [ ]
  All_member (y ∷ xs) (p, h) (Memᴰ.head e) = subst P (sym e) p
  All_member (y ∷ xs) (p, h) (Memᴰ.tail m) = All_member xs h m

  pub All-of_members : (xs : List A) → ((x : A) → Memᴰ x xs → P x) → All xs
  All-of_members [] f = tt
  All-of_members (x ∷ xs) f = (f x (Memᴰ.head refl), All-of_members xs (λ y m. f y (Memᴰ.tail m)))

module _ {ℓ κ} {A : Type ℓ} {B : Type κ} where
  pub any-map : (p : B → Bool) (f : A → B) (xs : List A) → any p (map f xs) ≡ any (λ x. p (f x)) xs
  any-map p f [] = refl
  any-map p f (x ∷ xs) = ap (λ b. p (f x) || b) (any-map p f xs)

pub is_empty-perm {ℓ} : {A : Type ℓ} {xs ys : List A} → Permᴰ xs ys → is_empty xs ≡ is_empty ys
is_empty-perm Permᴰ.nil = refl
is_empty-perm (Permᴰ.cons e h) = refl
is_empty-perm (Permᴰ.swap e f) = refl
is_empty-perm (Permᴰ.trans h k) = is_empty-perm h ∙ is_empty-perm k
