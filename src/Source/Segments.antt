-- ===== src/Source/Segments.antt =====
-- internal/source/files.go, `matchSegments`: patterns in which a segment of two stars stands for any number
-- of segments. `match` is filepath.Match.
use telemetry_change_guard.Common.{
  String, Bool, true, false, List, [], ◌∷◌, ◌++◌, Result, ok, err, ok_injective, ◌≡◌, ◌≢◌, refl,
  sym, ap, subst, List-cases, ◌∙◌, ◌⊎◌, inl, inr, ◌↔◌, ◌==◌, eq_iff, if◌then◌else◌, Bool-cases,
  Result-cases,
}
use mathlib.Core.Bool.{false≢true}

-- The segments after two stars are tried at each place.
unfoldable pub match_anywhere :
    (List String → Result String Bool) → List String → Result String Bool
match_anywhere rest [] = rest []
match_anywhere rest (c ∷ cs) =
    let later = match_anywhere rest cs in
    elim (rest (c ∷ cs)) [ err e ↦ err e | ok b ↦ if b then ok true else later ]

nothing_left : (xs ys : List String) → [] ≡ xs ++ ys → ys ≡ []
nothing_left [] ys h = sym h
nothing_left (x ∷ xs) ys h = cc h

module _ (match : String → String → Result String Bool) where
  unfoldable pub match_here :
      String → (List String → Result String Bool) → List String → Result String Bool
  match_here p rest [] = ok false
  match_here p rest (c ∷ cs) =
      let later = rest cs in
      elim (match p c) [ err e ↦ err e | ok b ↦ if b then later else ok false ]

  unfoldable pub match_segments : List String → List String → Result String Bool
  match_segments [] [] = ok true
  match_segments [] (c ∷ cs) = ok false
  match_segments (p ∷ ps) cs =
      if p == "**"
      then match_anywhere (match_segments ps) cs
      else match_here p (match_segments ps) cs

  abbrev pub IsAnywhere : (List String → Type 0) → List String → Type 0
  IsAnywhere P cs =
      (skipped : List String) × (later : List String) × (cs ≡ skipped ++ later) × P later

  abbrev pub IsHere : String → (List String → Type 0) → List String → Type 0
  IsHere p P cs =
      (c : String) × (later : List String) × (cs ≡ c ∷ later) × (match p c ≡ ok true) × P later

  -- The pattern fits the path: two stars take any segments, another segment one that it matches.
  pub Fits : List String → List String → Type 0
  Fits [] cs = cs ≡ []
  Fits (p ∷ ps) cs = ((p ≡ "**") × IsAnywhere (Fits ps) cs) ⊎ ((p ≢ "**") × IsHere p (Fits ps) cs)

  -- Trying the rest of the pattern at each place finds a place where it fits.
  match_anywhere_lem :
      (rest : List String → Result String Bool) (P : List String → Type 0)
      → ((cs : List String) (b : Bool) → rest cs ≡ ok b → (b ≡ true) ↔ P cs)
      → (cs : List String) (b : Bool) → match_anywhere rest cs ≡ ok b
      → (b ≡ true) ↔ IsAnywhere P cs
  unfolding match_anywhere
  match_anywhere_lem rest P decides [] b h = (
    λ e. ([], [], refl, (decides [] b h).0 e),
    λ (skipped, later, e, p). (decides [] b h).1 (subst P (nothing_left skipped later e) p),
  )
  match_anywhere_lem rest P decides (c ∷ cs) b h = elim (Result-cases (rest (c ∷ cs))) [
    | inl (e, q) ↦ absurd (cc (rw (q, match_anywhere) at h))
    | inr (here, q) ↦ elim (Bool-cases here) [
      | inl matched ↦
          let same = ok_injective (rw (q, matched, match_anywhere) at h) in
          (λ _. ([], c ∷ cs, refl, (decides (c ∷ cs) here q).0 matched), λ _. sym same)
      | inr unmatched ↦
          let (to, from) =
            match_anywhere_lem rest P decides cs b (rw (q, unmatched, match_anywhere) at h) in
          (
            λ e. let (skipped, later, f, p) = to e in (c ∷ skipped, later, ap (λ x. c ∷ x) f, p),
            λ (skipped, later, e, p). elim (List-cases skipped) [
              | inl none_skipped ↦
                  let here_fits : P (c ∷ cs) =
                    subst P (sym (e ∙ ap (λ s. s ++ later) none_skipped)) p in
                  absurd (false≢true (sym unmatched ∙ (decides (c ∷ cs) here q).1 here_fits))
              | inr (d, more, f) ↦ from (more, later, cc (e, f), p)
            ],
          )
    ]
  ]

  match_here_lem :
      (p : String) (rest : List String → Result String Bool) (P : List String → Type 0)
      → ((cs : List String) (b : Bool) → rest cs ≡ ok b → (b ≡ true) ↔ P cs)
      → (cs : List String) (b : Bool) → match_here p rest cs ≡ ok b
      → (b ≡ true) ↔ IsHere p P cs
  unfolding match_here
  match_here_lem p rest P decides [] b h =
      (λ e. absurd (false≢true (ok_injective h ∙ e)), λ (c, later, e, _, _). cc e)
  match_here_lem p rest P decides (c ∷ cs) b h = elim (Result-cases (match p c)) [
    | inl (e, q) ↦ absurd (cc (rw (q, match_here) at h))
    | inr (here, q) ↦ elim (Bool-cases here) [
      | inl matched ↦
          let (to, from) = decides cs b (rw (q, matched, match_here) at h) in
          (
            λ e. (c, cs, refl, q ∙ ap ok matched, to e),
            λ (d, later, e, _, k). from (subst P (sym (cc e)) k),
          )
      | inr unmatched ↦
          let same = ok_injective (rw (q, unmatched, match_here) at h) in
          (
            λ e. absurd (false≢true (same ∙ e)),
            λ (d, later, e, m, _).
                let both : match p c ≡ ok true = ap (match p) (cc e) ∙ m in
                absurd (false≢true (sym unmatched ∙ ok_injective (sym q ∙ both))),
          )
    ]
  ]

  -- If the matching of a path returns no error, its answer is that the pattern fits the path.
  pub match_segments_iff :
      (ps cs : List String) (b : Bool) → match_segments ps cs ≡ ok b → (b ≡ true) ↔ Fits ps cs
  unfolding match_segments Fits
  match_segments_iff [] [] b h = (λ _. refl, λ _. sym (ok_injective h))
  match_segments_iff [] (c ∷ cs) b h = (λ e. absurd (false≢true (ok_injective h ∙ e)), λ e. cc e)
  match_segments_iff (p ∷ ps) cs b h = elim (Bool-cases (p == "**")) [
    | inl stars ↦
        let (to, from) =
          match_anywhere_lem (match_segments ps) (Fits ps) (match_segments_iff ps) cs b
            (rw stars at h) in
        (
          λ e. inl ((eq_iff p "**").0 stars, to e),
          λ f. elim f [
            | inl (_, rest) ↦ from rest
            | inr (other, _) ↦ absurd (other ((eq_iff p "**").0 stars))
          ],
        )
    | inr plain ↦
        let (to, from) =
          match_here_lem p (match_segments ps) (Fits ps) (match_segments_iff ps) cs b
            (rw plain at h) in
        (
          λ e. inr (λ same. false≢true (sym plain ∙ (eq_iff p "**").1 same), to e),
          λ f. elim f [
            | inl (same, _) ↦ absurd (false≢true (sym plain ∙ (eq_iff p "**").1 same))
            | inr (_, rest) ↦ from rest
          ],
        )
  ]
