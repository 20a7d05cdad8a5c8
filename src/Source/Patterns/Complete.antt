-- ===== src/Source/Patterns/Complete.antt =====
-- internal/source/secure.go, `ExpandPatterns`: no configured pattern is lost.
use telemetry_change_guard.Common.{
  String, Bool, false, List, [], ◌∷◌, Result, ok, ok_injective, ◌≡◌, refl, sym, subst, ◌⊎◌, inl,
  inr, Memᴰ, Memᴰ-perm, Permᴰ-sym, is_empty, sort_by, sort_by-perm, str_ltb, Bool-cases,
  Result-cases, lookup,
}
use mathlib.Core.List.Memᴰ
use telemetry_change_guard.Source.{
  FileSystem, Pattern, Match, Failure, canonical_pattern, pattern_before, shown_pattern,
}
use telemetry_change_guard.Source.Budget.{
  Budget, SourceError, is_policy_violation, register, expand,
}
use telemetry_change_guard.Source.Patterns.{
  Matches, Failures, note_failure, note_match, with_provenance, note_files, note_pattern,
  note_patterns, expand_patterns,
}
use telemetry_change_guard.Source.Patterns.Merged.{
  values_lem, Implies, HasFailure, HasMatch, failure_kept, failure_noted, IsNamed,
  note_failure-IsNamed, match_kept, match_noted,
}

module _ (fs : FileSystem) (glob : String → Result String (List String))
    (text : SourceError → String) where
  abbrev Found : Type 0
  Found = Matches × Failures

  -- The pattern has a failure or a match, required if the pattern is.
  abbrev IsCovered : Pattern → Found → Type 0
  IsCovered p found =
      HasFailure (canonical_pattern fs p.path) (shown_pattern fs p) p.required found.1
      ⊎ HasMatch (shown_pattern fs p) p.required found.0

  note_files_kept :
      (p : Pattern) (files : List String) (b : Budget) (ms ms' : Matches) (shown : String)
      (r : Bool)
      → (note_files fs glob text p files b ms).1 ≡ ok ms'
      → HasMatch shown r ms
      → HasMatch shown r ms'
  unfolding note_files
  note_files_kept p [] b ms ms' shown r h m = subst (HasMatch shown r) (ok_injective h) m
  note_files_kept p (file ∷ files) b ms ms' shown r h m = elim (Result-cases (register fs b file)) [
    | inl (e, q) ↦ absurd (cc (rw (q, note_files) at h))
    | inr (x, q) ↦
        note_files_kept p files x.0 (note_match x.1 x.2 p.required (shown_pattern fs p) ms) ms'
          shown r (rw (q, note_files) at h)
          (match_kept x.1 x.2 (shown_pattern fs p) shown p.required r ms m)
  ]

  note_files_lem :
      (p : Pattern) (files : List String) (b : Budget) (ms ms' : Matches)
      → is_empty files ≡ false
      → (note_files fs glob text p files b ms).1 ≡ ok ms'
      → HasMatch (shown_pattern fs p) p.required ms'
  unfolding note_files
  note_files_lem p [] b ms ms' some_file h = cc some_file
  note_files_lem p (file ∷ files) b ms ms' some_file h = elim (Result-cases (register fs b file)) [
    | inl (e, q) ↦ absurd (cc (rw (q, note_files) at h))
    | inr (x, q) ↦
        note_files_kept p files x.0 (note_match x.1 x.2 p.required (shown_pattern fs p) ms) ms'
          (shown_pattern fs p) p.required (rw (q, note_files) at h)
          (match_noted x.1 x.2 (shown_pattern fs p) p.required ms)
  ]

  -- What one turn of the loop does to what was found.
  pub record IsStep (p : Pattern) (found found' : Found) : Type 0 where
    pub named : IsNamed fs.display found'.1
    pub kept : (q : Pattern) → IsCovered q found → IsCovered q found'
    pub covered : IsCovered p found'

  failed-IsStep :
      (p : Pattern) (reason : String) (ms : Matches) (failures : Failures)
      → IsNamed fs.display failures
      → IsStep p
          (ms, failures)
          (
            ms,
            note_failure
                (canonical_pattern fs p.path)
                (record { pattern = shown_pattern fs p; required = p.required; reason = reason })
                failures,
          )
  failed-IsStep p reason ms failures named =
      let key = canonical_pattern fs p.path in
      let f : Failure = record {
        pattern = shown_pattern fs p;
        required = p.required;
        reason = reason;
      } in
      record {
        named = note_failure-IsNamed fs.display key f failures named refl;
        kept = λ q c. elim c [
          | inl old ↦ inl (failure_kept key _ _ q.required f failures old)
          | inr m ↦ inr m
        ];
        covered = inl (failure_noted fs.display key f failures named refl);
      }

  note_pattern-IsStep :
      (p : Pattern) (b : Budget) (found found' : Found)
      → IsNamed fs.display found.1
      → (note_pattern fs glob text p b found).1 ≡ ok found'
      → IsStep p found found'
  unfolding note_pattern
  note_pattern-IsStep p b found found' named h =
      let expanded = expand fs glob b p.path in
      elim (Result-cases expanded.1) [
        | inl (e, q) ↦ elim (Bool-cases (is_policy_violation e)) [
          | inl v ↦ absurd (cc (rw (q, v, note_pattern) at h))
          | inr v ↦
              subst (IsStep p found) (ok_injective (rw (q, v, note_pattern) at h))
                (failed-IsStep p (text e) found.0 found.1 named)
        ]
        | inr (files, q) ↦ elim (Bool-cases (is_empty files)) [
          | inl z ↦
              subst (IsStep p found) (ok_injective (rw (q, z, note_pattern) at h))
                (failed-IsStep p "source pattern matched no files" found.0 found.1 named)
          | inr z ↦ elim (Result-cases (note_files fs glob text p files expanded.0 found.0).1) [
            | inl (e, y) ↦ absurd (cc (rw (q, z, y, note_pattern) at h))
            | inr (ms, y) ↦
                subst (IsStep p found) (ok_injective (rw (q, z, y, note_pattern) at h)) (record {
                  named = named;
                  kept = λ p' c. elim c [
                    | inl f ↦ inl f
                    | inr m ↦ inr (note_files_kept p files expanded.0 found.0 ms _ p'.required y m)
                  ];
                  covered = inr (note_files_lem p files expanded.0 found.0 ms z y);
                })
          ]
        ]
      ]

  note_patterns_lem :
      (ps : List Pattern) (b : Budget) (found found' : Found)
      → IsNamed fs.display found.1
      → (note_patterns fs glob text ps b found).1 ≡ ok found'
      → ((q : Pattern) → IsCovered q found → IsCovered q found')
        × ((p : Pattern) → Memᴰ p ps → IsCovered p found')
  unfolding note_patterns
  note_patterns_lem [] b found found' named h =
      (λ q c. subst (IsCovered q) (ok_injective h) c, λ p m. absurd (Memᴰ.not-nil m))
  note_patterns_lem (p ∷ ps) b found found' named h =
      let r = note_pattern fs glob text p b found in
      elim (Result-cases r.1) [
        | inl (e, q) ↦ absurd (cc (rw (q, note_patterns) at h))
        | inr (next, q) ↦
            let step = note_pattern-IsStep p b found next named q in
            let (kept, covered) =
              note_patterns_lem ps r.0 next found' step.named (rw (q, note_patterns) at h) in
            (
              λ x c. kept x (step.kept x c),
              λ x m. elim (Memᴰ.cases_cons m) [
                | inl here ↦ subst (λ y. IsCovered y found') (sym here) (kept p step.covered)
                | inr later ↦ covered x later
              ],
            )
      ]

  -- If the expansion of patterns succeeds, each configured pattern has a failure that names it, or a file
  -- that names it among the patterns that matched the file; the failure or the file is required if the
  -- pattern is.
  pub expand_patterns_complete :
      (patterns : List Pattern) (b : Budget) (found : List Match × List Failure) (p : Pattern)
      → (expand_patterns fs glob text patterns b).1 ≡ ok found
      → Memᴰ p patterns
      → ((f : Failure) × Memᴰ f found.1
          × (f.pattern ≡ shown_pattern fs p)
          × Implies p.required f.required)
        ⊎ ((m : Match) × Memᴰ m found.0
            × Memᴰ (shown_pattern fs p) m.patterns
            × Implies p.required m.required)
  unfolding expand_patterns
  expand_patterns_complete patterns b found p h listed =
      let sorted = sort_by (pattern_before fs) patterns in
      elim (Result-cases (note_patterns fs glob text sorted b ([], [])).1) [
        | inl (e, q) ↦ absurd (cc (rw (q, expand_patterns) at h))
        | inr (x, q) ↦
            let same = ok_injective (rw (q, expand_patterns) at h) in
            let (_, covered) =
              note_patterns_lem sorted b ([], []) x
                (λ k f none_there. unfold lookup in cc none_there) q in
            let sorted_member =
              Memᴰ-perm (Permᴰ-sym (sort_by-perm (pattern_before fs) patterns)) listed in
            elim (covered p sorted_member) [
              | inl (f, at_key, named, implied) ↦
                  inl (f, subst (λ y. Memᴰ f y.1) same (values_lem x.1 _ at_key), named, implied)
              | inr (key, m, at_key, by, implied) ↦ inr (
                with_provenance m,
                subst (λ y. Memᴰ (with_provenance m) y.0) same
                    (Memᴰ.map with_provenance (values_lem x.0 key at_key)),
                Memᴰ-perm (Permᴰ-sym (sort_by-perm str_ltb m.patterns)) by,
                implied,
              )
            ]
      ]
