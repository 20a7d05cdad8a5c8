-- ===== src/Common/Text.antt =====
-- The order of texts. Go compares the bytes of their UTF-8, which is the order of the code points.
use Prim.Native.Nat.{ℕ}
use Prim.Native.Char.{code}
use Prim.Native.String.{String}
use mathlib.Core.Path.{◌≡◌, refl, ap₂}
use mathlib.Core.Bool.{Bool, true, false}
use mathlib.Core.List.{List, [], ◌∷◌}
use native.Mathlib.Omega.{arith}
use text.Mathlib.TextEquality.{Char-path}
use telemetry_change_guard.Common.Tests.{if◌then◌else◌, ltb}

abbrev pub codes : String → List ℕ
codes String.[] = []
codes (String.◌∷◌ c s) = code c ∷ codes s

pub codes_injective : (s t : String) → codes s ≡ codes t → s ≡ t
codes_injective String.[] String.[] h = refl
codes_injective String.[] (String.◌∷◌ d t) h = cc h
codes_injective (String.◌∷◌ c s) String.[] h = cc h
codes_injective (String.◌∷◌ c s) (String.◌∷◌ d t) h =
    ap₂ String.◌∷◌ (Char-path c d (cc h)) (codes_injective s t (cc h))

unfoldable pub codes_ltb : List ℕ → List ℕ → Bool
codes_ltb _ [] = false
codes_ltb [] (y ∷ ys) = true
codes_ltb (x ∷ xs) (y ∷ ys) =
    let later = codes_ltb xs ys in if ltb x y then true else if ltb y x then false else later

codes_ltb_irrefl : (xs : List ℕ) → codes_ltb xs xs ≡ false
unfolding codes_ltb
codes_ltb_irrefl [] = refl
codes_ltb_irrefl (x ∷ xs) = ground (arith, codes_ltb_irrefl xs)

codes_ltb_trans :
    (xs ys zs : List ℕ) → codes_ltb xs ys ≡ true → codes_ltb ys zs ≡ true → codes_ltb xs zs ≡ true
unfolding codes_ltb
codes_ltb_trans xs ys [] h k = ground arith
codes_ltb_trans xs [] (z ∷ zs) h k = ground arith
codes_ltb_trans [] (y ∷ ys) (z ∷ zs) h k = refl
codes_ltb_trans (x ∷ xs) (y ∷ ys) (z ∷ zs) h k = ground (arith, codes_ltb_trans xs ys zs)

codes_ltb_total : (xs ys : List ℕ) → codes_ltb xs ys ≡ false → codes_ltb ys xs ≡ false → xs ≡ ys
unfolding codes_ltb
codes_ltb_total [] [] h k = refl
codes_ltb_total [] (y ∷ ys) h k = cc h
codes_ltb_total (x ∷ xs) [] h k = cc k
codes_ltb_total (x ∷ xs) (y ∷ ys) h k = ground (arith, codes_ltb_total xs ys)

-- `s < t`
unfoldable pub str_ltb : String → String → Bool
unfolding codes_ltb
str_ltb s t = codes_ltb (codes s) (codes t)

pub str_ltb_irrefl : (s : String) → str_ltb s s ≡ false
unfolding str_ltb
str_ltb_irrefl s = codes_ltb_irrefl (codes s)

pub str_ltb_trans : (s t u : String) → str_ltb s t ≡ true → str_ltb t u ≡ true → str_ltb s u ≡ true
unfolding str_ltb
str_ltb_trans s t u h k = codes_ltb_trans (codes s) (codes t) (codes u) h k

pub str_ltb_total : (s t : String) → str_ltb s t ≡ false → str_ltb t s ≡ false → s ≡ t
unfolding str_ltb
str_ltb_total s t h k = codes_injective s t (codes_ltb_total (codes s) (codes t) h k)
