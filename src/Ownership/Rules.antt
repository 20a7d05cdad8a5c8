-- ===== src/Ownership/Rules.antt =====
-- internal/ownership/codeowners.go: the rules of a CODEOWNERS file. `trim` is strings.TrimSpace, `fields`
-- strings.Fields, `quote` the verb %q, `show` the verb %d, `scan` the lines of bufio.Scanner with its error;
-- `is_github_owner` and `is_email_owner` are the two regular expressions for owners.
use telemetry_change_guard.Common.{
  ℕ, suc, String, Bool, true, false, ◌&&◌, ◌||◌, Option, none, some, List, [], ◌∷◌, ◌++◌, Result,
  ok, err, ◌==◌, map, if◌then◌else◌, any, leb, is_empty, codes, join,
}
use telemetry_change_guard.Config.{bytes}
use telemetry_change_guard.Domain.{Owner}
use telemetry_change_guard.Ownership.Patterns.{
  Part, starts_with, compile_path_matcher, match_path, utf8, pattern_message,
}
use telemetry_change_guard.Ownership.Evidence.{Selected, source_codeowners, confidence_high}

abbrev pub max_codeowners_bytes : ℕ
max_codeowners_bytes = 3145728

pub record CodeownersRule : Type 0 where
  pub pattern : String
  pub matcher : List Part
  pub owners : List Owner
  pub line : ℕ

pub record ParseIssue : Type 0 where
  pub line : ℕ
  pub message : String

-- What one line of the file gives.
pub data Line : Type 0 where
  skipped : Line
  issue : ParseIssue → Line
  rule : CodeownersRule → Line

unfoldable pub append_unique_owner : List Owner → Owner → List Owner
append_unique_owner owners c =
    if any (λ o. o.name == c.name && o.email == c.email) owners then owners else owners ++ (c ∷ [])

-- `strings.HasPrefix(value, "#")`
abbrev is_comment : String → Bool
is_comment value = starts_with (codes value) (35 ∷ [])

-- The switch over the number of owners.
unfoldable pub codeowners_owner : List Owner → Option Owner
codeowners_owner [] = none
codeowners_owner (o ∷ []) = some o
codeowners_owner (o ∷ p ∷ os) =
    some (record { name = join ", " (map (λ q. q.name) (o ∷ p ∷ os)); email = "" })

module _ (trim quote : String → String) (show : ℕ → String) (fields : String → List String)
    (scan : String → List String × Option String)
    (is_github_owner is_email_owner : String → Bool) where
  unfoldable pub parse_codeowner : String → Option Owner
  parse_codeowner value =
      if is_github_owner value
      then some (record { name = value; email = "" })
      else if is_email_owner value
      then some (record { name = value; email = value })
      else none

  -- The loop over the owners of a line.
  unfoldable pub parse_owners : List Owner → List String → Result String (List Owner)
  parse_owners owners [] = ok owners
  parse_owners owners (field ∷ rest) = elim (is_comment field) [
    | true ↦ ok owners
    | false ↦ elim (parse_codeowner field) [
      | none ↦ err (join "" ("invalid CODEOWNERS owner " ∷ quote field ∷ []))
      | some owner ↦ parse_owners (append_unique_owner owners owner) rest
    ]
  ]

  -- The fields of a line that is not blank and no comment.
  unfoldable pub parse_fields : ℕ → List String → Line
  parse_fields number [] = skipped
  parse_fields number (pattern ∷ rest) = elim (compile_path_matcher (utf8 pattern)) [
    | err e ↦ issue (record { line = number; message = pattern_message e })
    | ok matcher ↦ elim (parse_owners [] rest) [
      | err message ↦ issue (record { line = number; message = message })
      | ok owners ↦
          rule (record { pattern = pattern; matcher = matcher; owners = owners; line = number })
    ]
  ]

  unfoldable pub parse_line : ℕ → String → Line
  parse_line number text =
      let line = trim text in
      if line == "" || is_comment line then skipped else parse_fields number (fields line)

  unfoldable pub parse_lines : ℕ → List String → List CodeownersRule × List ParseIssue
  parse_lines number [] = ([], [])
  parse_lines number (text ∷ texts) =
      let rest = parse_lines (suc number) texts in
      elim (parse_line number text) [
        | skipped ↦ rest
        | issue i ↦ (rest.0, i ∷ rest.1)
        | rule r ↦ (r ∷ rest.0, rest.1)
      ]

  -- The rules, the issues and the error; the argument is what the reader gives.
  unfoldable pub parse_codeowners :
      Result String String → List CodeownersRule × List ParseIssue × Option String
  parse_codeowners (err e) = ([], [], some (join "" ("read CODEOWNERS: " ∷ e ∷ [])))
  parse_codeowners (ok contents) =
      let parsed = parse_lines 1 (scan contents).0 in
      if leb max_codeowners_bytes (bytes contents)
      then (
        [],
        [],
        some (
            join ""
              ("CODEOWNERS must be smaller than " ∷ show max_codeowners_bytes ∷ " bytes" ∷ [])),
      )
      else elim (scan contents).1 [
        | some e ↦ ([], parsed.1, some (join "" ("scan CODEOWNERS: " ∷ e ∷ [])))
        | none ↦ (parsed.0, parsed.1, none)
      ]

unfoldable pub evidence_from_codeowners : (ℕ → String) → String → CodeownersRule → Selected
evidence_from_codeowners show path r = record {
  owner = codeowners_owner r.owners;
  candidates = map (λ o. o.name) r.owners;
  source = source_codeowners;
  confidence = confidence_high;
  rule = join "" (path ∷ ":" ∷ show r.line ∷ " " ∷ r.pattern ∷ []);
  ambiguous = false;
  unassigned = is_empty r.owners;
  rank = 2;
}

module _ (run : List Part → List ℕ → Bool) where
  -- The loop with the result so far.
  unfoldable pub matching_from :
      Option CodeownersRule → List CodeownersRule → String → Option CodeownersRule
  matching_from found [] path = found
  matching_from found (r ∷ rs) path =
      matching_from (if match_path run r.matcher (codes path) then some r else found) rs path

  unfoldable pub matching_codeowners_rule : List CodeownersRule → String → Option CodeownersRule
  matching_codeowners_rule rules path = matching_from none rules path
