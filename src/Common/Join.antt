-- ===== src/Common/Join.antt =====
-- `strings.Join` and concatenation of texts, and when the parts can be read back.
use Prim.Native.Nat.{ℕ}
use Prim.Native.Char.{Char, code}
use Prim.Native.String
use Prim.Native.String.{String}
use mathlib.Core.Path.{◌≡◌, refl, sym, ap, ◌∙◌}
use mathlib.Core.Logic.{◌≢◌}
use mathlib.Core.List.{List, [], ◌∷◌, ◌++◌}
use text.Mathlib.TextLemmas.{nil-append, cons-append}
use mathlib.Core.Bool.{true, not}
use native.Mathlib.Omega.{arith}
use telemetry_change_guard.Common.Lists.{All, all}
use telemetry_change_guard.Common.Tests.{nat_beq}
use telemetry_change_guard.Common.Text.{codes, codes_injective}

abbrev pub concat : String → String → String
concat s t = String.◌++◌ s t

unfoldable pub join : String → List String → String
join sep [] = ""
join sep (s ∷ []) = s
join sep (s ∷ t ∷ ts) = concat s (concat sep (join sep (t ∷ ts)))

pub codes-concat : (s t : String) → codes (concat s t) ≡ codes s ++ codes t
codes-concat String.[] t = ap codes (nil-append t)
codes-concat (String.◌∷◌ c s) t =
    ap codes (cons-append c s t) ∙ ap (◌∷◌ (code c)) (codes-concat s t)

-- A text in which a character does not occur.
abbrev pub IsFreeOf : ℕ → String → Type 0
IsFreeOf c s = All (λ d. d ≢ c) (codes s)

-- The same as a test.
pub all_IsFree :
    (c : ℕ) (ds : List ℕ) → all (λ d. not (nat_beq d c)) ds ≡ true → All (λ d. d ≢ c) ds
all_IsFree c [] h = tt
all_IsFree c (d ∷ ds) h = (ground arith, all_IsFree c ds (ground arith))

split_at_first :
    (c : ℕ) (xs ys us vs : List ℕ)
    → All (λ d. d ≢ c) xs
    → All (λ d. d ≢ c) ys
    → xs ++ c ∷ us ≡ ys ++ c ∷ vs
    → (xs ≡ ys) × (us ≡ vs)
split_at_first c [] [] us vs f g h = (refl, cc h)
split_at_first c [] (y ∷ ys) us vs f g h = absurd (g.0 (cc h))
split_at_first c (x ∷ xs) [] us vs f g h = absurd (f.0 (cc h))
split_at_first c (x ∷ xs) (y ∷ ys) us vs f g h =
    let (e, k) = split_at_first c xs ys us vs f.1 g.1 (cc h) in (cc (h, e), k)

-- What stands before the first separator, and what stands behind it, can be read back.
pub concat_injective :
    (c : Char) (s t u v : String)
    → IsFreeOf (code c) s
    → IsFreeOf (code c) t
    → concat s (concat (String.◌∷◌ c String.[]) u) ≡ concat t (concat (String.◌∷◌ c String.[]) v)
    → (s ≡ t) × (u ≡ v)
concat_injective c s t u v f g h =
    let (e, k) =
      split_at_first (code c) (codes s) (codes t) (codes u) (codes v) f g
        (sym (codes_parts s u) ∙ ap codes h ∙ codes_parts t v) in
    (codes_injective s t e, codes_injective u v k)
  where
    codes_parts :
        (a b : String)
        → codes (concat a (concat (String.◌∷◌ c String.[]) b)) ≡ codes a ++ code c ∷ codes b
    codes_parts a b =
        codes-concat a _ ∙ ap (◌++◌ (codes a)) (codes-concat (String.◌∷◌ c String.[]) b)
