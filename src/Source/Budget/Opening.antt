-- ===== src/Source/Budget/Opening.antt =====
-- internal/source/secure.go, `Open`: which files the adapters read.
use telemetry_change_guard.Common.{
  ℕ, ◌≤◌, String, true, not, Option, none, some, List, [], ◌∷◌, Result, ok, Result-cases,
  ok_injective, >>=-eq-ok, refuse-eq-ok, ◌≡◌, ap, subst, arith, refuse, lookup, Bool-cases, inl,
  inr, ◌==◌,
}
use telemetry_change_guard.Source.{FileInfo, FileSystem}
use telemetry_change_guard.Source.Budget.{
  Budget, Handle, resolved, relative_path, inner_path, lstat_no_symlinks, is_unchanged, open_file,
}
use telemetry_change_guard.Source.Budget.Ways.{
  IsReached, resolved-eq-ok, lstat_no_symlinks-IsReached,
}
use telemetry_change_guard.Source.Budget.Within.{IsWithin, sum_sizes, not-false}

size_counted : (k : String) (m : List (String × ℕ)) {n : ℕ} → lookup k m ≡ some n → n ≤ sum_sizes m
unfolding lookup
size_counted k [] h = cc h
size_counted k ((j, w) ∷ m) {n} h = elim (Bool-cases (j == k)) [
  | inl e ↦ let same : w ≡ n = cc (rw e at h) in omega (arith, same)
  | inr e ↦ let later = size_counted k m (rw e at h) in omega (arith, later)
]

unchanged-size :
    (fs : FileSystem) (before : FileInfo) (h : Handle) (o : Option ℕ)
    → is_unchanged fs before h o ≡ true
    → (o ≡ some h.info.size)
      × (h.info.regular ≡ true)
      × (h.same_file ≡ true)
      × (before.size ≡ h.info.size)
unfolding is_unchanged
unchanged-size fs before h none e = cc e
unchanged-size fs before h (some n) e =
    (ap some (ground (arith, e)), ground (arith, e), ground (arith, e), ground (arith, e))

module _ (fs : FileSystem) (opened : String → Result String Handle) where
  -- The open file is the one that the path names below the root: no symbolic link leads to it, it is the
  -- file that was seen before, and it has the size that is recorded under its place below the root.
  pub record IsRegistered (b : Budget) (path : String) (h : Handle) : Type 0 where
    pub absolute : String
    pub at_absolute : fs.absolute (fs.clean path) ≡ ok absolute
    pub relative : String
    pub at_relative : relative_path fs b absolute ≡ ok relative
    pub before : FileInfo
    pub reached : IsReached fs relative before
    pub at_open : opened relative ≡ ok h
    pub same_file : h.same_file ≡ true
    pub same_size : before.size ≡ h.info.size
    pub regular : h.info.regular ≡ true
    pub recorded : lookup (fs.clean (fs.joined b.resolved_root relative)) b.files ≡ some h.info.size

  inner_path-eq-ok :
      (b : Budget) (path relative : String)
      → inner_path fs b path ≡ ok relative
      → relative_path fs b path ≡ ok relative
  unfolding inner_path
  inner_path-eq-ok b path relative h = elim (Result-cases (relative_path fs b path)) [
    | inl (e, q) ↦ cc (rw (q, inner_path) at h)
    | inr (r, q) ↦ let same : r ≡ relative = cc (rw (q, inner_path) at h) in rw same at q
  ]

  -- A file that the budget opens is the regular file that the path names below the root, reached through no
  -- symbolic link; it is the same file as the one seen just before, and has the size that the budget has
  -- recorded for that place, which is within the limit on bytes.
  pub open_file-IsRegistered :
      (b : Budget) (path : String) (h : Handle)
      → IsWithin b
      → open_file fs opened b path ≡ ok h
      → IsRegistered b path h × (h.info.size ≤ b.max_bytes)
  unfolding open_file
  open_file-IsRegistered b path h w run =
      let (absolute, s1, h1) = >>=-eq-ok (resolved (fs.absolute (fs.clean path))) _ run in
      let (relative, s2, h2) = >>=-eq-ok (inner_path fs b absolute) _ h1 in
      let (before, s3, h3) = >>=-eq-ok (lstat_no_symlinks fs relative) _ h2 in
      let (handle, s4, h4) = >>=-eq-ok (resolved (opened relative)) _ h3 in
      let identity = fs.clean (fs.joined b.resolved_root relative) in
      let (_, s5, h5) =
        >>=-eq-ok (refuse (not (is_unchanged fs before handle (lookup identity b.files))) _) _ h4 in
      let (sized, regular, same, size) =
        unchanged-size fs before handle (lookup identity b.files)
          (not-false _ (refuse-eq-ok _ _ s5)) in
      let counted = size_counted identity b.files sized in
      let few = w.few_bytes in
      let total = w.counted in
      subst (λ x. IsRegistered b path x × (x.info.size ≤ b.max_bytes)) (ok_injective h5)
        (
          record {
            absolute = absolute;
            at_absolute = resolved-eq-ok s1;
            relative = relative;
            at_relative = inner_path-eq-ok b absolute relative s2;
            before = before;
            reached = lstat_no_symlinks-IsReached fs relative before s3;
            at_open = resolved-eq-ok s4;
            same_file = same;
            same_size = size;
            regular = regular;
            recorded = sized;
          },
          omega (arith, counted, few, total),
        )
