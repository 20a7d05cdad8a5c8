-- ===== src/Source/Budget/Within.antt =====
-- internal/source/secure.go, `Register`: the limits of the budget, and the files that it registers.
use telemetry_change_guard.Common.{
  ℕ, ◌+◌, ◌≤◌, String, Bool, true, false, not, some, List, [], ◌∷◌, Result, ok, ok_injective,
  >>=-eq-ok, refuse-eq-ok, ◌≡◌, refl, sym, ap, ◌∙◌, subst, arith, ltb, leb, length, lookup, assign,
  is_some, refuse, lookup-assign, Bool-cases, Result-cases, ◌⊎◌, inl, inr, ◌==◌, eq_iff,
}
use telemetry_change_guard.Source.{FileInfo, FileSystem}
use telemetry_change_guard.Source.Budget.{
  Budget, resolved, relative_path, lstat_no_symlinks, contained, account, register, register_all,
  expand,
}
use telemetry_change_guard.Source.Budget.Ways.{
  IsReached, resolved-eq-ok, lstat_no_symlinks-IsReached,
}

abbrev pub sum_sizes : List (String × ℕ) → ℕ
sum_sizes [] = 0
sum_sizes ((path, size) ∷ files) = size + sum_sizes files

-- The files and the bytes are within the limits, and the bytes are those of the files.
pub record IsWithin (b : Budget) : Type 0 where
  pub few_files : length b.files ≤ b.max_files
  pub few_bytes : b.total_bytes ≤ b.max_bytes
  pub counted : sum_sizes b.files ≡ b.total_bytes

-- A new key adds one entry and its size.
assign_new :
    (k : String) (v : ℕ) (m : List (String × ℕ))
    → is_some (lookup k m) ≡ false
    → (length (assign k v m) ≡ length m + 1) × (sum_sizes (assign k v m) ≡ sum_sizes m + v)
unfolding lookup assign
assign_new k v [] h = (refl, omega arith)
assign_new k v ((j, w) ∷ m) h = elim (Bool-cases (j == k)) [
  | inl e ↦ absurd (cc (rw e at h))
  | inr e ↦ let (a, b) = assign_new k v m (rw e at h) in rw e (omega (arith, a), omega (arith, b))
]

pub not-false : (t : Bool) → not t ≡ false → t ≡ true
not-false true h = refl
not-false false h = cc h

kept_value :
    (k j : String) (v w : ℕ) (m : List (String × ℕ))
    → is_some (lookup k m) ≡ false
    → lookup j m ≡ some w
    → lookup j (assign k v m) ≡ some w
kept_value k j v w m h e = elim (Bool-cases (k == j)) [
  | inl same ↦ absurd (cc (h, e, (eq_iff k j).0 same))
  | inr other ↦ rw (lookup-assign k j v m, other) e
]

-- The identity stands in the files, and the limits and the other files are as before.
pub record IsAccounted (b b' : Budget) (identity : String) : Type 0 where
  pub registered : is_some (lookup identity b'.files) ≡ true
  pub kept :
      (path : String) (size : ℕ)
      → lookup path b.files ≡ some size
      → lookup path b'.files ≡ some size
  pub same_files : b'.max_files ≡ b.max_files
  pub same_bytes : b'.max_bytes ≡ b.max_bytes
  pub same_root : b'.resolved_root ≡ b.resolved_root

module _ (fs : FileSystem) where
  account-IsWithin :
      (b b' : Budget) (identity : String) (size : ℕ)
      → IsWithin b
      → account fs b identity size ≡ ok b'
      → IsWithin b' × IsAccounted b b' identity
  unfolding account
  account-IsWithin b b' identity size w h = elim (Bool-cases (is_some (lookup identity b.files))) [
    | inl known ↦
        let same = ok_injective (rw known at h) in
        subst (λ x. IsWithin x × IsAccounted b x identity) same
          (
            w,
            record {
              registered = known;
              kept = λ path size e. e;
              same_files = refl;
              same_bytes = refl;
              same_root = refl;
            },
          )
    | inr new ↦ elim (Bool-cases (leb b.max_files (length b.files))) [
      | inl full ↦ absurd (cc (rw (new, full) at h))
      | inr room ↦ elim (Bool-cases (ltb b.max_bytes (b.total_bytes + size))) [
        | inl large ↦ absurd (cc (rw (new, room, large) at h))
        | inr fits ↦
            let same = ok_injective (rw (new, room, fits) at h) in
            let (one_more, more_bytes) = assign_new identity size b.files new in
            subst (λ x. IsWithin x × IsAccounted b x identity) same
              (
                record {
                  few_files = ground (arith, one_more, room);
                  few_bytes = ground (arith, fits);
                  counted = more_bytes ∙ ap (λ n. n + size) w.counted;
                },
                record {
                  registered =
                      rw
                        (
                          lookup-assign identity identity size b.files,
                          (eq_iff identity identity).1 refl,
                        )
                        refl;
                  kept = λ path old e. kept_value identity path size old b.files new e;
                  same_files = refl;
                  same_bytes = refl;
                  same_root = refl;
                },
              )
      ]
    ]
  ]

  account_size :
      (b b' : Budget) (identity : String) (size : ℕ)
      → account fs b identity size ≡ ok b'
      → (b' ≡ b) ⊎ (lookup identity b'.files ≡ some size)
  unfolding account
  account_size b b' identity size h = elim (Bool-cases (is_some (lookup identity b.files))) [
    | inl known ↦ inl (sym (ok_injective (rw known at h)))
    | inr new ↦ elim (Bool-cases (leb b.max_files (length b.files))) [
      | inl full ↦ absurd (cc (rw (new, full) at h))
      | inr room ↦ elim (Bool-cases (ltb b.max_bytes (b.total_bytes + size))) [
        | inl large ↦ absurd (cc (rw (new, room, large) at h))
        | inr fits ↦ inr (
            subst (λ (x : Budget). lookup identity x.files ≡ some size)
              (ok_injective (rw (new, room, fits) at h))
              (rw (lookup-assign identity identity size b.files, (eq_iff identity identity).1 refl)
                refl))
      ]
    ]
  ]

  -- The identity is the path without symbolic links, the path is that of a regular file below the root, it
  -- leads through no symbolic link below the root; and either the budget stays as it is, or the file's
  -- size is recorded.
  pub record IsSource (b b' : Budget) (path identity : String) : Type 0 where
    pub absolute : String
    pub at_absolute : fs.absolute (fs.clean path) ≡ ok absolute
    pub target : String
    pub at_target : fs.eval_symlinks absolute ≡ ok target
    pub named : identity ≡ fs.clean target
    pub inside : contained fs b.resolved_root target ≡ true
    pub relative : String
    pub at_relative : relative_path fs b absolute ≡ ok relative
    pub info : FileInfo
    pub reached : IsReached fs relative info
    pub regular : info.regular ≡ true
    pub recorded : (b' ≡ b) ⊎ (lookup identity b'.files ≡ some info.size)

  -- A registration keeps the budget within its limits, forgets no file, and leaves the file among the files
  -- of the budget. The file is known under its absolute path as the system resolves symbolic links, which
  -- lies below the root that the budget was opened on; the path leads through no symbolic link below the
  -- root to a regular file, and the budget stays as it is or records the file with its size.
  pub register-IsSource :
      (b b' : Budget) (path identity shown : String)
      → IsWithin b
      → register fs b path ≡ ok (b', identity, shown)
      → IsWithin b' × IsAccounted b b' identity × IsSource b b' path identity
  unfolding register
  register-IsSource b b' path identity shown w h =
      let (absolute, s1, h1) = >>=-eq-ok (resolved (fs.absolute (fs.clean path))) _ h in
      let (relative, s2, h2) = >>=-eq-ok (relative_path fs b absolute) _ h1 in
      let (info, s3, h3) = >>=-eq-ok (lstat_no_symlinks fs relative) _ h2 in
      let (_, s4, h4) = >>=-eq-ok (refuse (not info.regular) _) _ h3 in
      let (target, s5, h5) = >>=-eq-ok (resolved (fs.eval_symlinks absolute)) _ h4 in
      let (_, s6, h6) = >>=-eq-ok (refuse (not (contained fs b.resolved_root target)) _) _ h5 in
      let (after, s7, h7) = >>=-eq-ok (account fs b (fs.clean target) info.size) _ h6 in
      let done = ok_injective h7 in
      let same_budget : after ≡ b' = ap (λ x. x.0) done in
      let same_identity : fs.clean target ≡ identity = ap (λ x. x.1) done in
      let (within, kept) = account-IsWithin b after (fs.clean target) info.size w s7 in
      let origin : IsSource b after path (fs.clean target) = record {
        absolute = absolute;
        at_absolute = resolved-eq-ok s1;
        target = target;
        at_target = resolved-eq-ok s5;
        named = refl;
        inside = not-false _ (refuse-eq-ok _ _ s6);
        relative = relative;
        at_relative = s2;
        info = info;
        reached = lstat_no_symlinks-IsReached fs relative info s3;
        regular = not-false _ (refuse-eq-ok _ _ s4);
        recorded = account_size b after (fs.clean target) info.size s7;
      } in
      (
        subst IsWithin same_budget within,
        subst (λ x. IsAccounted b x identity) same_budget
            (subst (IsAccounted b after) same_identity kept),
        subst (λ x. IsSource b x path identity) same_budget
            (subst (IsSource b after path) same_identity origin),
      )

  -- All the files of an expansion keep the budget within its limits, also if one of them is refused.
  register_all-IsWithin :
      (paths : List String) (b : Budget) → IsWithin b → IsWithin (register_all fs b paths).0
  unfolding register_all
  register_all-IsWithin [] b w = w
  register_all-IsWithin (path ∷ paths) b w = elim (Result-cases (register fs b path)) [
    | inl (e, q) ↦ rw (q, register_all) w
    | inr (r, q) ↦
        rw (q, register_all)
          (register_all-IsWithin paths r.0 (register-IsSource b r.0 path r.1 r.2 w q).0)
  ]

  pub expand-IsWithin :
      (glob : String → Result String (List String)) (b : Budget) (pattern : String)
      → IsWithin b
      → IsWithin (expand fs glob b pattern).0
  unfolding expand
  expand-IsWithin glob b pattern w = elim (Result-cases (fs.absolute (fs.clean pattern))) [
    | inl (e, q) ↦ rw (q, expand) w
    | inr (absolute, q) ↦ elim (Result-cases (relative_path fs b absolute)) [
      | inl (e, z) ↦ rw (q, z, expand) w
      | inr (r, z) ↦ elim (Result-cases (glob absolute)) [
        | inl (e, y) ↦ rw (q, z, y, expand) w
        | inr (paths, y) ↦ rw (q, z, y, expand) (register_all-IsWithin paths b w)
      ]
    ]
  ]
