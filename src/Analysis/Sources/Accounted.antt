-- ===== src/Analysis/Sources/Accounted.antt =====
-- internal/analysis/engine.go, `loadPatterns`: no source goes missing.
use telemetry_change_guard.Common.{
  String, Bool, none, List, [], ◌∷◌, ◌++◌, ok, ok_injective, ◌≡◌, refl, sym, subst, ◌⊎◌, inl, inr,
  Memᴰ, Memᴰ-append, Bool-cases, Option-cases, Result-cases,
}
use mathlib.Core.List.Memᴰ
use telemetry_change_guard.Domain.{Diagnostic, Discovery, append_discovery}
use telemetry_change_guard.Source.{Match, Failure}
use telemetry_change_guard.Analysis.{SourcePattern}
use telemetry_change_guard.Analysis.Sources.{
  Reading, SourceFiles, source_diagnostic, report, report_failures, absorb, load_match,
  load_matches, load_patterns,
}

abbrev Within {ℓ} : {A : Type ℓ} → List A → List A → Type ℓ
Within xs ys = (x : _) → Memᴰ x xs → Memᴰ x ys

-- All that the first discovery holds is in the second.
pub record Includes (d d' : Discovery) : Type 0 where
  pub consumers : Within d.consumers d'.consumers
  pub references : Within d.references d'.references
  pub productions : Within d.productions d'.productions
  pub diagnostics : Within d.diagnostics d'.diagnostics

whole : {d : Discovery} → Includes d d
whole = record {
  consumers = λ x m. m;
  references = λ x m. m;
  productions = λ x m. m;
  diagnostics = λ x m. m;
}

further : {a b c : Discovery} → Includes a b → Includes b c → Includes a c
further h k = record {
  consumers = λ x m. k.consumers x (h.consumers x m);
  references = λ x m. k.references x (h.references x m);
  productions = λ x m. k.productions x (h.productions x m);
  diagnostics = λ x m. k.diagnostics x (h.diagnostics x m);
}

left {ℓ} : {A : Type ℓ} (xs ys : List A) → Within xs (xs ++ ys)
left xs ys x m = (Memᴰ-append x xs ys).1 (inl m)

right {ℓ} : {A : Type ℓ} (xs ys : List A) → Within ys (xs ++ ys)
right xs ys x m = (Memᴰ-append x xs ys).1 (inr m)

append_discovery-Includes :
    (d more : Discovery)
    → Includes d (append_discovery d more) × Includes more (append_discovery d more)
unfolding append_discovery
append_discovery-Includes d more = (
  record {
    consumers = left d.consumers more.consumers;
    references = left d.references more.references;
    productions = left d.productions more.productions;
    diagnostics = left d.diagnostics more.diagnostics;
  },
  record {
    consumers = right d.consumers more.consumers;
    references = right d.references more.references;
    productions = right d.productions more.productions;
    diagnostics = right d.diagnostics more.diagnostics;
  },
)

-- A diagnostic names the path and is required as told.
abbrev pub IsReported : String → Bool → Discovery → Type 0
IsReported path required d =
    (x : Diagnostic) × Memᴰ x d.diagnostics × (x.source.file ≡ path) × (x.required ≡ required)

report-Includes : (d : Discovery) (x : Diagnostic) → Includes d (report d x)
unfolding report
report-Includes d x = record {
  consumers = λ y m. m;
  references = λ y m. m;
  productions = λ y m. m;
  diagnostics = left d.diagnostics (x ∷ []);
}

report-IsReported :
    (d : Discovery) (adapter path message : String) (required : Bool)
    → IsReported path required (report d (source_diagnostic adapter path message required))
unfolding report source_diagnostic
report-IsReported d adapter path message required = (
  source_diagnostic adapter path message required,
  right d.diagnostics _ _ (Memᴰ.head refl),
  refl,
  refl,
)

kept_report :
    {d d' : Discovery} {path : String} {required : Bool}
    → Includes d d'
    → IsReported path required d
    → IsReported path required d'
kept_report k (x, m, e, r) = (x, k.diagnostics x m, e, r)

report_failures_lem :
    (adapter : String) (fs : List Failure) (d : Discovery)
    → Includes d (report_failures adapter fs d)
      × ((f : Failure) → Memᴰ f fs → IsReported f.pattern f.required (report_failures adapter fs d))
unfolding report_failures
report_failures_lem adapter [] d = (whole, λ f m. absurd (Memᴰ.not-nil m))
report_failures_lem adapter (g ∷ fs) d =
    let d' = report d (source_diagnostic adapter g.pattern g.reason g.required) in
    let (inc, all) = report_failures_lem adapter fs d' in
    (
      further (report-Includes d _) inc,
      λ f m. elim (Memᴰ.cases_cons m) [
        | inl e ↦
            subst (λ h. IsReported h.pattern h.required (report_failures adapter fs d')) (sym e)
              (kept_report inc (report-IsReported d adapter g.pattern g.reason g.required))
        | inr later ↦ all f later
      ],
    )

module _ {S : Type 0} (files : SourceFiles S) (adapter : String) where
  -- The file was read in some state, parsed and closed, and the discovery holds all that it gave.
  pub record IsLoaded (m : Match) (d : Discovery) : Type 0 where
    pub state : S
    pub reading : Reading
    pub more : Discovery
    pub read : (files.read state adapter m).1 ≡ ok reading
    pub parsed : reading.parsed ≡ ok more
    pub closed : reading.close_error ≡ none
    pub included : Includes more d

  abbrev pub IsAccounted : Match → Discovery → Type 0
  IsAccounted m d = IsLoaded m d ⊎ IsReported m.path m.required d

  kept_account : {d d' : Discovery} {m : Match} → Includes d d' → IsAccounted m d → IsAccounted m d'
  kept_account k (inl l) = inl (record {
    state = l.state;
    reading = l.reading;
    more = l.more;
    read = l.read;
    parsed = l.parsed;
    closed = l.closed;
    included = further l.included k;
  })
  kept_account k (inr r) = inr (kept_report k r)

  absorb-IsAccounted :
      (m : Match) (r : Reading) (d : Discovery) (s : S)
      → (files.read s adapter m).1 ≡ ok r
      → Includes d (absorb files adapter m r d) × IsAccounted m (absorb files adapter m r d)
  unfolding absorb
  absorb-IsAccounted m r d s h = elim (Result-cases r.parsed) [
    | inl (e, q) ↦
        rw (q, absorb) (report-Includes d _, inr (report-IsReported d adapter m.path _ m.required))
    | inr (more, q) ↦ elim (Option-cases r.close_error) [
      | inr (e, z) ↦
          rw (q, z, absorb)
            (report-Includes d _, inr (report-IsReported d adapter m.path _ m.required))
      | inl z ↦
          rw (q, z, absorb)
            (
              (append_discovery-Includes d more).0,
              inl (record {
                state = s;
                reading = r;
                more = more;
                read = h;
                parsed = q;
                closed = z;
                included = (append_discovery-Includes d more).1;
              }),
            )
    ]
  ]

  load_match-IsAccounted :
      (m : Match) (s : S) (d d' : Discovery)
      → (load_match files adapter m s d).1 ≡ ok d'
      → Includes d d' × IsAccounted m d'
  unfolding load_match
  load_match-IsAccounted m s d d' h = elim (Result-cases (files.read s adapter m).1) [
    | inr (r, q) ↦
        subst (λ x. Includes d x × IsAccounted m x) (ok_injective (rw (q, load_match) at h))
          (absorb-IsAccounted m r d s q)
    | inl (e, q) ↦ elim (Bool-cases files.budgeted) [
      | inl b ↦ absurd (cc (rw (q, b, load_match) at h))
      | inr b ↦
          subst (λ x. Includes d x × IsAccounted m x) (ok_injective (rw (q, b, load_match) at h))
            (report-Includes d _, inr (report-IsReported d adapter m.path e m.required))
    ]
  ]

  load_matches-IsAccounted :
      (ms : List Match) (s : S) (d d' : Discovery)
      → (load_matches files adapter ms s d).1 ≡ ok d'
      → Includes d d' × ((m : Match) → Memᴰ m ms → IsAccounted m d')
  unfolding load_matches
  load_matches-IsAccounted [] s d d' h =
      subst (λ x. Includes d x × ((m : Match) → Memᴰ m [] → IsAccounted m x)) (ok_injective h)
        (whole, λ m n. absurd (Memᴰ.not-nil n))
  load_matches-IsAccounted (m ∷ ms) s d d' h = elim (Option-cases (files.poll s).1) [
    | inr (e, q) ↦ absurd (cc (rw (q, load_matches) at h))
    | inl q ↦
        let next = load_match files adapter m (files.poll s).0 d in
        elim (Result-cases next.1) [
          | inl (e, z) ↦ absurd (cc (rw (q, z, load_matches) at h))
          | inr (d1, z) ↦
              let (inc, here) = load_match-IsAccounted m (files.poll s).0 d d1 z in
              let (incs, later) =
                load_matches-IsAccounted ms next.0 d1 d' (rw (q, z, load_matches) at h) in
              (
                further inc incs,
                λ n k. elim (Memᴰ.cases_cons k) [
                  | inl e ↦ subst (λ x. IsAccounted x d') (sym e) (kept_account incs here)
                  | inr more ↦ later n more
                ],
              )
        ]
  ]

  -- If loading the patterns of an adapter succeeds, the expansion of the patterns succeeded; all that was
  -- discovered before is kept; each pattern that failed has a diagnostic, required if the pattern is; and
  -- each file that matched was either read, parsed and closed, with all that it gave in the discovery, or
  -- has a diagnostic, required if the file is.
  pub load_patterns-IsAccounted :
      (patterns : List SourcePattern) (s : S) (d d' : Discovery)
      → (load_patterns files adapter patterns s d).1 ≡ ok d'
      → (found : List Match × List Failure) × ((files.expand s patterns).1 ≡ ok found)
        × Includes d d'
        × ((f : Failure) → Memᴰ f found.1 → IsReported f.pattern f.required d')
        × ((m : Match) → Memᴰ m found.0 → IsAccounted m d')
  unfolding load_patterns
  load_patterns-IsAccounted patterns s d d' h = elim (Result-cases (files.expand s patterns).1) [
    | inl (e, q) ↦ absurd (cc (rw (q, load_patterns) at h))
    | inr (found, q) ↦
        let (inc, failures) = report_failures_lem adapter found.1 d in
        let (incs, matches) =
          load_matches-IsAccounted found.0 (files.expand s patterns).0
            (report_failures adapter found.1 d) d' (rw (q, load_patterns) at h) in
        (found, q, further inc incs, λ f m. kept_report incs (failures f m), matches)
  ]
