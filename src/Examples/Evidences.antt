-- ===== src/Examples/Evidences.antt =====
-- The theorems on local files at concrete inputs.
use telemetry_change_guard.Common.{
  ◌≤◌, String, Bool, true, false, List, [], ◌∷◌, Memᴰ, ◌⊎◌, ◌↔◌, ◌≡◌, refl, ok, Result, ◌==◌, arith,
  lookup, assign, sort_by, insert_by,
}
use telemetry_change_guard.Ownership.Patterns.{starts_with}
use telemetry_change_guard.Source.{
  FileSystem, Pattern, Match, Failure, shown_pattern, canonical_pattern, valid_relative,
}
use telemetry_change_guard.Source.Segments.{
  match_segments, match_anywhere, match_here, Fits, match_segments_iff,
}
use telemetry_change_guard.Source.Budget.{
  Handle, open_file, inner_path, is_unchanged, Budget, SourceError, register, register_all, expand,
  relative_path, below, lstat_no_symlinks, check_components, contained, account,
}
use telemetry_change_guard.Source.Budget.Opening.{IsRegistered, open_file-IsRegistered}
use telemetry_change_guard.Source.Budget.Within.{IsWithin, IsAccounted, IsSource, register-IsSource}
use telemetry_change_guard.Source.Patterns.{
  expand_patterns, note_patterns, note_pattern, note_files, note_match, in_order,
}
use telemetry_change_guard.Source.Patterns.Merged.{Implies}
use telemetry_change_guard.Source.Patterns.Complete.{expand_patterns_complete}

abbrev same : String → String → Result String Bool
same p s = ok (p == s)

found : match_segments same ("**" ∷ "rules" ∷ []) ("a" ∷ "rules" ∷ []) ≡ ok true
unfolding match_segments match_anywhere match_here
found = refl

match_segments_iff_example : (true ≡ true) ↔ Fits same ("**" ∷ "rules" ∷ []) ("a" ∷ "rules" ∷ [])
match_segments_iff_example =
    match_segments_iff same ("**" ∷ "rules" ∷ []) ("a" ∷ "rules" ∷ []) true found

-- A file of eight bytes.
abbrev disk : FileSystem
disk = record {
  clean = λ s. s;
  absolute = λ s. ok s;
  relative = λ root s. ok s;
  is_absolute = λ s. false;
  joined = λ current c. c;
  components = λ s. s ∷ [];
  eval_symlinks = λ s. ok s;
  lstat = λ s. ok (record { regular = true; symlink = false; directory = false; size = 8 });
  display = λ s. s;
}

abbrev fresh : Budget
fresh = record {
  lexical_root = "repository";
  resolved_root = "repository";
  max_files = 1;
  max_bytes = 8;
  files = [];
  total_bytes = 0;
}

abbrev used : Budget
used = record fresh { files = ("rules.yaml", 8) ∷ []; total_bytes = 8 }

fresh-IsWithin : IsWithin fresh
fresh-IsWithin = record { few_files = omega arith; few_bytes = omega arith; counted = refl }

registered : register disk fresh "rules.yaml" ≡ ok (used, "rules.yaml", "rules.yaml")
unfolding register relative_path below lstat_no_symlinks check_components contained account
    valid_relative starts_with lookup assign
registered = refl

register-IsSource_example :
    IsWithin used
    × IsAccounted fresh used "rules.yaml"
    × IsSource disk fresh used "rules.yaml" "rules.yaml"
register-IsSource_example =
    register-IsSource disk fresh used "rules.yaml" "rules.yaml" "rules.yaml" fresh-IsWithin
      registered

abbrev one_file : String → Result String (List String)
one_file pattern = ok ("rules.yaml" ∷ [])

abbrev refused : SourceError → String
refused e = "refused"

abbrev rules : Pattern
rules = record { path = "*.yaml"; required = true }

abbrev rules_file : Match
rules_file = record { path = "rules.yaml"; required = true; patterns = "*.yaml" ∷ [] }

expanded : (expand_patterns disk one_file refused (rules ∷ []) fresh).1 ≡ ok (rules_file ∷ [], [])
unfolding expand_patterns note_patterns note_pattern note_files note_match in_order expand
    register_all register relative_path below lstat_no_symlinks check_components contained account
    valid_relative starts_with lookup assign sort_by insert_by canonical_pattern
expanded = refl

expand_patterns_complete_example :
    ((f : Failure) × Memᴰ f [] × (f.pattern ≡ shown_pattern disk rules) × Implies true f.required)
    ⊎ ((m : Match) × Memᴰ m (rules_file ∷ [])
        × Memᴰ (shown_pattern disk rules) m.patterns
        × Implies true m.required)
expand_patterns_complete_example =
    expand_patterns_complete disk one_file refused (rules ∷ []) fresh (rules_file ∷ [], []) rules
      expanded (Memᴰ.head refl)

abbrev handle : Handle
handle = record {
  info = record { regular = true; symlink = false; directory = false; size = 8 };
  same_file = true;
}

used-IsWithin : IsWithin used
used-IsWithin = record { few_files = omega arith; few_bytes = omega arith; counted = refl }

abbrev joined_disk : FileSystem
joined_disk = record disk { joined = λ root path. path }

is_open : open_file joined_disk (λ path. ok handle) used "rules.yaml" ≡ ok handle
unfolding open_file inner_path relative_path below lstat_no_symlinks check_components valid_relative
    starts_with lookup is_unchanged
is_open = refl

open_file-IsRegistered_example :
    IsRegistered joined_disk (λ path. ok handle) used "rules.yaml" handle × (8 ≤ 8)
open_file-IsRegistered_example =
    open_file-IsRegistered joined_disk (λ path. ok handle) used "rules.yaml" handle used-IsWithin
      is_open
