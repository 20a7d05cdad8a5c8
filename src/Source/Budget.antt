-- ===== src/Source/Budget.antt =====
-- internal/source/secure.go: the budget of files and bytes. Sizes are natural numbers, so the test for a
-- negative size has no counterpart.
pub mod Ways
pub mod Within
pub mod Opening
use telemetry_change_guard.Common.{
  ℕ, ◌+◌, String, Bool, true, false, not, ◌&&◌, ◌||◌, Option, none, some, List, [], ◌∷◌, Result, ok,
  err, ◌>>=◌, ◌>>◌, refuse, ◌==◌, if◌then◌else◌, ltb, leb, nat_beq, length, lookup, assign, is_some,
  sort_by, str_ltb,
}
use telemetry_change_guard.Source.{FileInfo, FileSystem, valid_relative}

pub data SourceError : Type 0 where
  no_root no_limits root_not_directory : SourceError
  unresolved : String → SourceError
  outside symbolic_link not_regular : String → SourceError
  escaping not_directory changed : String → SourceError
  too_many_files too_many_bytes : ℕ → SourceError

-- The errors that wrap errPolicyViolation.
unfoldable pub is_policy_violation : SourceError → Bool
is_policy_violation no_root = false
is_policy_violation no_limits = false
is_policy_violation root_not_directory = false
is_policy_violation (unresolved e) = false
is_policy_violation (outside path) = true
is_policy_violation (symbolic_link path) = true
is_policy_violation (not_regular path) = true
is_policy_violation (escaping path) = false
is_policy_violation (not_directory path) = false
is_policy_violation (changed path) = true
is_policy_violation (too_many_files n) = true
is_policy_violation (too_many_bytes n) = true

pub record Budget : Type 0 where
  pub lexical_root : String
  pub resolved_root : String
  pub max_files : ℕ
  pub max_bytes : ℕ
  pub files : List (String × ℕ)
  pub total_bytes : ℕ

-- An open file: what its Stat gives, and whether os.SameFile holds of it and the file before.
pub record Handle : Type 0 where
  pub info : FileInfo
  pub same_file : Bool

-- `fmt.Errorf("...: %w", err)` around an error of the file system
abbrev pub resolved {ℓ} : {A : Type ℓ} → Result String A → Result SourceError A
resolved (ok a) = ok a
resolved (err e) = err (unresolved e)

module _ (fs : FileSystem) (is_blank : String → Bool)
    (is_directory : String → Result String Bool) where
  -- `NewBudget`; the first test is that of strings.TrimSpace.
  unfoldable pub new_budget : String → ℕ → ℕ → Result SourceError Budget
  new_budget root max_files max_bytes = do
    refuse (is_blank root) no_root
    refuse (leb max_files 0 || leb max_bytes 0) no_limits
    lexical ← resolved (fs.absolute (fs.clean root))
    target ← resolved (fs.eval_symlinks lexical)
    directory ← resolved (is_directory target)
    refuse (not directory) root_not_directory
    ok (record {
      lexical_root = lexical;
      resolved_root = fs.clean target;
      max_files = max_files;
      max_bytes = max_bytes;
      files = [];
      total_bytes = 0;
    })

module _ (fs : FileSystem) where
  -- The relative path below a root, if there is one.
  unfoldable pub below : String → String → Option String
  below root path = elim (fs.relative root path) [
    | err e ↦ none
    | ok r ↦ if valid_relative fs r then some r else none
  ]

  -- `relative`
  unfoldable pub relative_path : Budget → String → Result SourceError String
  relative_path b path = elim (below b.lexical_root (fs.clean path)) [
    | some r ↦ ok r
    | none ↦ elim (below b.resolved_root (fs.clean path)) [
      | some r ↦ ok r
      | none ↦ err (outside path)
    ]
  ]

  -- The loop over the components, with the path so far.
  unfoldable pub check_components : String → List String → Option SourceError
  check_components current [] = none
  check_components current (c ∷ cs) =
      let next = fs.joined current c in
      let skip = check_components current cs in
      let rest = check_components next cs in
      if c == "." || c == "" then skip else elim (fs.lstat next) [
        | err e ↦ some (unresolved e)
        | ok info ↦ if info.symlink then some (symbolic_link next) else rest
      ]

  unfoldable pub lstat_no_symlinks : String → Result SourceError FileInfo
  lstat_no_symlinks relative = elim (check_components "" (fs.components (fs.clean relative))) [
    | some e ↦ err e
    | none ↦ resolved (fs.lstat relative)
  ]

  -- `contained`
  unfoldable pub contained : String → String → Bool
  contained root path = is_some (below (fs.clean root) (fs.clean path))

  -- The last lines of `Register`: a file that is new to the budget.
  unfoldable pub account : Budget → String → ℕ → Result SourceError Budget
  account b identity size =
      if is_some (lookup identity b.files)
      then ok b
      else if leb b.max_files (length b.files)
      then err (too_many_files b.max_files)
      else if ltb b.max_bytes (b.total_bytes + size)
      then err (too_many_bytes b.max_bytes)
      else ok
          (record b { files = assign identity size b.files; total_bytes = b.total_bytes + size })

  -- `Register`: the budget after it, the identity and the path to show.
  unfoldable pub register : Budget → String → Result SourceError (Budget × String × String)
  register b path = do
    absolute ← resolved (fs.absolute (fs.clean path))
    relative ← relative_path b absolute
    info ← lstat_no_symlinks relative
    refuse (not info.regular) (not_regular path)
    target ← resolved (fs.eval_symlinks absolute)
    refuse (not (contained b.resolved_root target)) (outside path)
    b' ← account b (fs.clean target) info.size
    ok (b', fs.clean target, fs.display (fs.clean target))

  -- The loop of `Expand` over the files. What was registered before an error stays so.
  unfoldable pub register_all : Budget → List String → Budget × Result SourceError (List String)
  register_all b [] = (b, ok [])
  register_all b (path ∷ paths) = elim (register b path) [
    | err e ↦ (b, err e)
    | ok registered ↦
        let rest = register_all registered.0 paths in
        (rest.0, elim rest.1 [ err e ↦ err e | ok shown ↦ ok (registered.2 ∷ shown) ])
  ]

  -- `Expand` of the budget; `glob` is Expand of files.go, on the state of the file system.
  unfoldable pub expand :
      (String → Result String (List String))
      → Budget
      → String
      → Budget × Result SourceError (List String)
  expand glob b pattern = elim (fs.absolute (fs.clean pattern)) [
    | err e ↦ (b, err (unresolved e))
    | ok absolute ↦ elim (relative_path b absolute) [
      | err e ↦ (b, err (outside pattern))
      | ok _ ↦ elim (glob absolute) [
        | err e ↦ (b, err (unresolved e))
        | ok paths ↦
            let r = register_all b paths in
            (r.0, elim r.1 [ err e ↦ err e | ok shown ↦ ok (sort_by str_ltb shown) ])
      ]
    ]
  ]

  -- `relative`, whose error is returned as it is.
  unfoldable pub inner_path : Budget → String → Result SourceError String
  inner_path b path = elim (relative_path b path) [ err e ↦ err (escaping path) | ok r ↦ ok r ]

  -- The last test of `Open`, with the size that is registered.
  unfoldable pub is_unchanged : FileInfo → Handle → Option ℕ → Bool
  is_unchanged before h none = false
  is_unchanged before h (some size) =
      h.info.regular && h.same_file && nat_beq before.size size && nat_beq h.info.size size

  -- `Open`; the first argument opens a file below the root and takes its Stat.
  unfoldable pub open_file :
      (String → Result String Handle) → Budget → String → Result SourceError Handle
  open_file opened b path = do
    absolute ← resolved (fs.absolute (fs.clean path))
    relative ← inner_path b absolute
    before ← lstat_no_symlinks relative
    h ← resolved (opened relative)
    refuse
        (not
          (is_unchanged before h (lookup (fs.clean (fs.joined b.resolved_root relative)) b.files)))
        (changed path)
    ok h

  unfoldable pub validate_directory : Budget → String → Result SourceError String
  validate_directory b path = do
    absolute ← resolved (fs.absolute (fs.clean path))
    relative ← inner_path b absolute
    info ← lstat_no_symlinks relative
    refuse (not info.directory) (not_directory path)
    target ← resolved (fs.eval_symlinks absolute)
    refuse (not (contained b.resolved_root target)) (escaping path)
    ok (fs.clean target)
