-- ===== src/Source.antt =====
-- internal/source: the local files that patterns name, and the budget of an execution.
pub mod Segments
pub mod Budget
pub mod Patterns
pub mod Expand
use telemetry_change_guard.Common.{
  ℕ, String, Bool, List, Option, Result, ◌==◌, ◌||◌, ◌&&◌, not, ok, err, str_ltb, codes, true,
  false, if◌then◌else◌,
}
use telemetry_change_guard.Ownership.Patterns.{starts_with}

pub record FileInfo : Type 0 where
  pub regular : Bool
  pub symlink : Bool
  pub directory : Bool
  pub size : ℕ

-- Package filepath and the file system below the root. `components` splits a cleaned path, and `lstat`
-- is the Lstat of the root.
pub record FileSystem : Type 0 where
  pub clean : String → String
  pub absolute : String → Result String String
  pub relative : String → String → Result String String
  pub is_absolute : String → Bool
  pub joined : String → String → String
  pub components : String → List String
  pub eval_symlinks : String → Result String String
  pub lstat : String → Result String FileInfo
  pub display : String → String

-- `validRelative`, with a slash as the separator
unfoldable pub valid_relative : FileSystem → String → Bool
valid_relative fs relative =
    if fs.is_absolute relative || relative == ".." || starts_with (codes relative) (codes "../")
    then false
    else true

-- `Pattern`, `Match` and `Failure`
pub record Pattern : Type 0 where
  pub path : String
  pub required : Bool

pub record Match : Type 0 where
  pub path : String
  pub required : Bool
  pub patterns : List String

pub record Failure : Type 0 where
  pub pattern : String
  pub required : Bool
  pub reason : String

unfoldable pub canonical_pattern : FileSystem → String → String
canonical_pattern fs pattern = elim (fs.absolute (fs.clean pattern)) [
  | err _ ↦ fs.clean pattern
  | ok absolute ↦ fs.clean absolute
]

-- The order in which patterns are expanded.
unfoldable pub pattern_before : FileSystem → Pattern → Pattern → Bool
pattern_before fs a b =
    if not (canonical_pattern fs a.path == canonical_pattern fs b.path)
    then str_ltb (canonical_pattern fs a.path) (canonical_pattern fs b.path)
    else if a.required && not b.required
    then true
    else if not a.required && b.required
    then false
    else str_ltb (fs.clean a.path) (fs.clean b.path)

-- How a pattern is shown.
abbrev pub shown_pattern : FileSystem → Pattern → String
shown_pattern fs p = fs.display (canonical_pattern fs p.path)
