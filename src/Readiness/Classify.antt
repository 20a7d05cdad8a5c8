-- ===== src/Readiness/Classify.antt =====
-- internal/readiness/evaluator.go: the state of one consumer, and how the states of several changes
-- are put together and counted.
pub mod Counts
pub mod Laws
use telemetry_change_guard.Common.{
  ℕ, ◌+◌, ◌*◌, ◌/◌, String, Bool, true, false, not, ◌&&◌, ◌||◌, Option, none, some, List, [], ◌∷◌,
  ◌==◌, if◌then◌else◌, ltb, lookup, nat_beq, any, keep, is_some, length,
}
use telemetry_change_guard.Domain.{Change, Consumer, Reference, Symbol}
use telemetry_change_guard.Impact.Matching.{symbol_matches, unresolved_reference_applies}
use telemetry_change_guard.Readiness.Classification
use telemetry_change_guard.Readiness.Status

unfoldable pub classify : Change → Bool → Bool → Bool → String
classify change has_old has_new uncertain =
    if not (is_some change.to)
    then if has_old
      then Classification.legacy_only
      else if uncertain
      then Classification.uncertain
      else Classification.unaffected
    else if has_old && has_new
    then Classification.dual
    else if has_old
    then Classification.legacy_only
    else if uncertain
    then Classification.uncertain
    else if has_new
    then Classification.migrated
    else Classification.unaffected

unfoldable pub has_unresolved_reference : List Reference → String → Change → Bool
has_unresolved_reference references consumer_id change =
    any (λ r. r.consumer_id == consumer_id && unresolved_reference_applies r change) references

-- `change.To != nil && SymbolMatches(reference.Symbol, *change.To)`
unfoldable pub matches_destination : Symbol → Option Symbol → Bool
matches_destination s none = false
matches_destination s (some to) = symbol_matches s to

unfoldable pub references_for : List Reference → String → Change → List Reference
references_for references consumer_id change =
    keep
      (λ r.
        r.consumer_id == consumer_id
        && (symbol_matches r.symbol change.from
            || matches_destination r.symbol change.to
            || unresolved_reference_applies r change))
      references

-- The map `rank`, 0 for a missing key.
unfoldable pub rank : String → ℕ
rank c =
    if c == Classification.unaffected
    then 1
    else if c == Classification.migrated
    then 2
    else if c == Classification.dual
    then 3
    else if c == Classification.uncertain
    then 4
    else if c == Classification.legacy_only
    then 5
    else 0

unfoldable pub worse_classification : String → String → String
worse_classification current candidate =
    if ltb (rank current) (rank candidate) then candidate else current

-- `global[id]`, the empty text for a missing key.
unfoldable pub class_of : String → List (String × String) → String
class_of id m = elim (lookup id m) [ some c ↦ c | none ↦ "" ]

pub record Summary : Type 0 where
  pub status : String
  pub total_consumers : ℕ
  pub legacy_only : ℕ
  pub migrated : ℕ
  pub dual : ℕ
  pub unaffected : ℕ
  pub uncertain : ℕ
  pub progress : ℕ

-- The `switch` of the loop of `summarize`.
unfoldable pub count_class : String → Summary → Summary
count_class c s =
    if c == Classification.legacy_only
    then record s { legacy_only = s.legacy_only + 1 }
    else if c == Classification.migrated
    then record s { migrated = s.migrated + 1 }
    else if c == Classification.dual
    then record s { dual = s.dual + 1 }
    else if c == Classification.uncertain
    then record s { uncertain = s.uncertain + 1 }
    else record s { unaffected = s.unaffected + 1 }

unfoldable pub count_consumers : List Consumer → List (String × String) → Summary → Summary
count_consumers [] m s = s
count_consumers (c ∷ cs) m s = count_consumers cs m (count_class (class_of c.id m) s)

abbrev pub no_counts : ℕ → Summary
no_counts total = record {
  status = "";
  total_consumers = total;
  legacy_only = 0;
  migrated = 0;
  dual = 0;
  unaffected = 0;
  uncertain = 0;
  progress = 0;
}

unfoldable pub with_progress : Summary → Summary
with_progress s =
    let denominator = s.legacy_only + s.migrated + s.dual + s.uncertain in
    if nat_beq denominator 0
    then record s { progress = 100 }
    else record s { progress = (s.migrated + s.dual) * 100 / denominator }

unfoldable pub summarize : List Consumer → List (String × String) → Summary
summarize cs m = with_progress (count_consumers cs m (no_counts (length cs)))
