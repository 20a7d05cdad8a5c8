-- ===== src/Analysis/Sources.antt =====
-- internal/analysis/engine.go, `loadPatterns`: the sources that are given by patterns.
pub mod Accounted
use telemetry_change_guard.Common.{
  ℕ, String, Bool, true, false, Option, none, some, List, [], ◌∷◌, ◌++◌, Result, ok, err, map,
  if◌then◌else◌, ltb, length, join,
}
use telemetry_change_guard.Domain.{Diagnostic, Discovery, append_discovery}
use telemetry_change_guard.Source.{Match, Failure}
use telemetry_change_guard.Analysis.{
  SourcePattern, AnalysisError, cancelled, source_policy, secured_source,
}

-- What the adapter makes of an open file, and the error of closing the file.
pub record Reading : Type 0 where
  pub parsed : Result String Discovery
  pub close_error : Option String

-- The calls outside of this file. `poll` is ctx.Err, `expand` is ExpandPatterns, which fails only with a
-- budget, and `read` opens a file and has the adapter of the given name parse it.
pub record SourceFiles (S : Type 0) : Type 0 where
  pub budgeted : Bool
  pub poll : S → S × Option String
  pub expand : S → List SourcePattern → S × Result String (List Match × List Failure)
  pub read : S → String → Match → S × Result String Reading
  -- `%q` of a list
  pub quote_all : List String → String

unfoldable pub source_diagnostic : String → String → String → Bool → Diagnostic
source_diagnostic adapter path message required = record {
  adapter = adapter;
  source = record { file = path; line = 0; column = 0; url = ""; repo = "" };
  message = message;
  required = required;
}

unfoldable pub report : Discovery → Diagnostic → Discovery
report d x = record d { diagnostics = d.diagnostics ++ (x ∷ []) }

unfoldable pub report_failures : String → List Failure → Discovery → Discovery
report_failures adapter [] d = d
report_failures adapter (f ∷ fs) d =
    report_failures adapter fs (report d (source_diagnostic adapter f.pattern f.reason f.required))

module _ {S : Type 0} (files : SourceFiles S) (adapter : String) where
  -- The message for a file that the adapter rejects.
  unfoldable pub rejection : Match → String → String
  rejection m reason =
      if ltb 1 (length m.patterns)
      then join "" (reason ∷ " (matched by patterns " ∷ files.quote_all m.patterns ∷ ")" ∷ [])
      else reason

  unfoldable pub absorb : Match → Reading → Discovery → Discovery
  absorb m r d = elim r.parsed [
    | err reason ↦ report d (source_diagnostic adapter m.path (rejection m reason) m.required)
    | ok more ↦ elim r.close_error [
      | some reason ↦ report d (source_diagnostic adapter m.path reason m.required)
      | none ↦ append_discovery d more
    ]
  ]

  -- The body of the loop over the matches, after the test of the context.
  unfoldable pub load_match : Match → S → Discovery → S × Result AnalysisError Discovery
  load_match m s d =
      let r = files.read s adapter m in
      elim r.1 [
        | ok reading ↦ (r.0, ok (absorb m reading d))
        | err reason ↦
            if files.budgeted
            then (r.0, err (secured_source adapter m.path reason))
            else (r.0, ok (report d (source_diagnostic adapter m.path reason m.required)))
      ]

  unfoldable pub load_matches : List Match → S → Discovery → S × Result AnalysisError Discovery
  load_matches [] s d = (s, ok d)
  load_matches (m ∷ ms) s d =
      let polled = files.poll s in
      let next = load_match m polled.0 d in
      elim polled.1 [
        | some e ↦ (polled.0, err (cancelled e))
        | none ↦ elim next.1 [ err e ↦ (next.0, err e) | ok d' ↦ load_matches ms next.0 d' ]
      ]

  unfoldable pub load_patterns :
      List SourcePattern → S → Discovery → S × Result AnalysisError Discovery
  load_patterns patterns s d =
      let r = files.expand s patterns in
      elim r.1 [
        | err reason ↦ (r.0, err (source_policy adapter reason))
        | ok found ↦ load_matches found.0 r.0 (report_failures adapter found.1 d)
      ]
