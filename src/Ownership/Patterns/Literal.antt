-- ===== src/Ownership/Patterns/Literal.antt =====
-- internal/ownership/matcher.go: what an ASCII pattern without wildcards matches.
use mathlib.Core.List.{append-nil, append_assoc}
use telemetry_change_guard.Common.{
  ℕ, Bool, true, false, not, ◌&&◌, ◌||◌, List, [], ◌∷◌, ◌++◌, ◌≡◌, refl, sym, ap, ◌∙◌, subst, ◌↔◌,
  ◌⊎◌, ◌≢◌, inl, inr, if◌then◌else◌, any, nat_beq, map, ◌<◌, ltb, All, arith, Bool-cases,
}
use telemetry_change_guard.Ownership.Patterns.{
  slash, star, newline, Part, optional_directories, anything, within, one_within, exactly,
  optional_below, has_slash, is_wildcard, single, parts, last_segment, expression, codes_utf8,
}

abbrev pub IsLine : List ℕ → Type 0
IsLine s = All (λ c. c ≢ newline) s

-- The texts of one part, as the documentation of regular expressions gives them.
abbrev pub IsOf : Part → List ℕ → Type 0
IsOf optional_directories s = (s ≡ []) ⊎ ((t : List ℕ) × IsLine t × (s ≡ t ++ slash ∷ []))
IsOf anything s = IsLine s
IsOf within s = All (λ c. c ≢ slash) s
IsOf one_within s = (c : ℕ) × (c ≢ slash) × (s ≡ c ∷ [])
IsOf (exactly c) s = s ≡ c ∷ []
IsOf optional_below s = (s ≡ []) ⊎ ((t : List ℕ) × IsLine t × (s ≡ slash ∷ t))

-- The texts of a sequence of parts.
abbrev pub Language : List Part → List ℕ → Type 0
Language [] s = s ≡ []
Language (p ∷ ps) s = (a : List ℕ) × (b : List ℕ) × (s ≡ a ++ b) × IsOf p a × Language ps b

single-exactly : (c : ℕ) → is_wildcard c ≡ false → single c ≡ exactly c
unfolding single
single-exactly c h = ground (arith, h)

no_star : (c : ℕ) → is_wildcard c ≡ false → nat_beq c star ≡ false
no_star c h = ground (arith, h)

abbrev literal : List ℕ → List Part
literal s = map exactly s

any-head : (c : ℕ) (s : List ℕ) → any is_wildcard (c ∷ s) ≡ false → is_wildcard c ≡ false
any-head c s h = ground (arith, h)

any-tail : (c : ℕ) (s : List ℕ) → any is_wildcard (c ∷ s) ≡ false → any is_wildcard s ≡ false
any-tail c s h = ground (arith, h)

parts-literal : (s : List ℕ) → any is_wildcard s ≡ false → parts s ≡ literal s
unfolding parts
parts-literal [] h = refl
parts-literal (c ∷ []) h = ap (λ p. p ∷ []) (single-exactly c (any-head c [] h))
parts-literal (c ∷ d ∷ []) h =
    rw (no_star c (any-head c (d ∷ []) h), single-exactly c (any-head c (d ∷ []) h))
      (ap (λ ps. exactly c ∷ ps) (parts-literal (d ∷ []) (any-tail c (d ∷ []) h)))
parts-literal (c ∷ d ∷ e ∷ s) h =
    rw (no_star c (any-head c (d ∷ e ∷ s) h), single-exactly c (any-head c (d ∷ e ∷ s) h))
      (ap (λ ps. exactly c ∷ ps) (parts-literal (d ∷ e ∷ s) (any-tail c (d ∷ e ∷ s) h)))

-- A literal part followed by others.
literal-then :
    (core : List ℕ) (ps : List Part) (s : List ℕ)
    → Language (literal core ++ ps) s ↔ ((b : List ℕ) × (s ≡ core ++ b) × Language ps b)
literal-then [] ps s = (λ l. (s, refl, l), λ (b, e, l). subst (Language ps) (sym e) l)
literal-then (c ∷ core) ps s = (
  λ (a, b, e, one, rest).
      let (t, f, l) = (literal-then core ps b).0 rest in
      (t, e ∙ ap (λ x. x ++ b) one ∙ ap (λ x. c ∷ x) f, l),
  λ (t, e, l). (c ∷ [], core ++ t, e, refl, (literal-then core ps (core ++ t)).1 (t, refl, l)),
)

last_part : (p : Part) (s : List ℕ) → Language (p ∷ []) s ↔ IsOf p s
last_part p s = (
  λ (a, b, e, h, nothing). subst (IsOf p) (sym (e ∙ ap (λ x. a ++ x) nothing ∙ append-nil a)) h,
  λ h. (s, [], sym (append-nil s), h, refl),
)

last_segment-literal :
    (s : List ℕ) → any is_wildcard s ≡ false → any is_wildcard (last_segment s) ≡ false
unfolding last_segment
last_segment-literal [] h = refl
last_segment-literal (c ∷ s) h = ground (arith, h, last_segment-literal s (any-tail c s h))

or_true : (b : Bool) → (b || true) ≡ true
or_true true = refl
or_true false = refl

-- The expression of a literal pattern that may start at any directory only if it has no slash.
literal-expression :
    (anchored directory_only : Bool) (core : List ℕ)
    → any is_wildcard core ≡ false
    → expression anchored directory_only core
      ≡ (if not (has_slash core) && not anchored then optional_directories ∷ [] else [])
        ++ literal core
        ++ optional_below ∷ []
unfolding expression
literal-expression anchored directory_only core h =
    rw (parts-literal core h, last_segment-literal core h, or_true) refl

-- The expression of bytes that are no wildcards, each of which the code quotes as one character.
expression-codes_iff :
    (anchored directory_only : Bool) (core s : List ℕ)
    → any is_wildcard core ≡ false
    → Language (expression anchored directory_only core) s ↔ (
        (directories : List ℕ) × (below : List ℕ) × (s ≡ directories ++ core ++ below)
        × IsOf optional_directories directories
        × IsOf optional_below below
        × (anchored || has_slash core ≡ true → directories ≡ []))
expression-codes_iff anchored directory_only core s h =
    elim (Bool-cases (not (has_slash core) && not anchored)) [
      | inl k ↦
          rw (literal-expression anchored directory_only core h, k)
            (
              λ (a, b, e, front, rest).
                  let (t, f, last) = (literal-then core _ b).0 rest in
                  (
                    a,
                    t,
                    e ∙ ap (λ x. a ++ x) f ∙ sym (append_assoc a core t),
                    front,
                    (last_part optional_below t).0 last,
                    λ z. ground (arith, k, z),
                  ),
              λ (a, t, e, front, last, _). (
                a,
                core ++ t,
                e ∙ append_assoc a core t,
                front,
                (literal-then core _ (core ++ t)).1 (t, refl, (last_part optional_below t).1 last),
              ),
            )
      | inr k ↦
          rw (literal-expression anchored directory_only core h, k)
            (
              λ l.
                  let (t, f, last) = (literal-then core _ s).0 l in
                  ([], t, f, inl refl, (last_part optional_below t).0 last, λ z. refl),
              λ (a, t, e, _, last, front). (literal-then core _ s).1 (
                t,
                subst (λ x. s ≡ x ++ core ++ t) (front (ground (arith, k))) e,
                (last_part optional_below t).1 last,
              ),
            )
    ]

codes_utf8-ascii : (text : List ℕ) → All (λ c. c < 128) text → codes_utf8 text ≡ text
codes_utf8-ascii [] a = refl
codes_utf8-ascii (c ∷ text) (small, a) =
    let short : ltb c 128 ≡ true = ground (arith, small) in rw (short, codes_utf8-ascii text a) refl

-- An ASCII pattern without wildcards matches exactly the paths that are some directories, then the pattern,
-- then nothing or a path below it, the directories and the path below without newlines; there are no
-- directories in front if the pattern starts with a slash or has one inside. The code reads the bytes of the pattern in UTF-8, and the characters of the path.
pub expression-literal_iff :
    (anchored directory_only : Bool) (text s : List ℕ)
    → All (λ c. c < 128) text
    → any is_wildcard text ≡ false
    → Language (expression anchored directory_only (codes_utf8 text)) s ↔ (
        (directories : List ℕ) × (below : List ℕ) × (s ≡ directories ++ text ++ below)
        × IsOf optional_directories directories
        × IsOf optional_below below
        × (anchored || has_slash text ≡ true → directories ≡ []))
expression-literal_iff anchored directory_only text s ascii h =
    rw (codes_utf8-ascii text ascii) (expression-codes_iff anchored directory_only text s h)
