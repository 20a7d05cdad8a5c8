-- ===== src/Source/Budget/Ways.antt =====
-- internal/source/secure.go, `lstatNoSymlinks`: the components that it looks at.
use telemetry_change_guard.Common.{
  String, true, false, none, List, ◌∷◌, Result, ok, err, ◌≡◌, ◌≢◌, ◌⊎◌, inl, inr, ◌==◌, ◌||◌,
  eq_iff, arith, Bool-cases, Result-cases, Option-cases,
}
use telemetry_change_guard.Source.{FileInfo, FileSystem}
use telemetry_change_guard.Source.Budget.{resolved, check_components, lstat_no_symlinks}

pub resolved-eq-ok {ℓ} : {A : Type ℓ} {r : Result String A} {a : A} → resolved r ≡ ok a → r ≡ ok a
resolved-eq-ok {r = ok a} h = cc h
resolved-eq-ok {r = err e} h = cc h

module _ (fs : FileSystem) where
  -- A path that leads through some components, from a path on; a component that is empty or a dot leads
  -- nowhere else.
  pub data Passes : String → List String → String → Type 0 where
    here :
        {from c : String} {cs : List String}
        → c ≢ "."
        → c ≢ ""
        → Passes from (c ∷ cs) (fs.joined from c)
    on :
        {from c : String} {cs : List String} {path : String}
        → c ≢ "."
        → c ≢ ""
        → Passes (fs.joined from c) cs path
        → Passes from (c ∷ cs) path
    skip :
        {from c : String} {cs : List String} {path : String}
        → (c ≡ ".") ⊎ (c ≡ "")
        → Passes from cs path
        → Passes from (c ∷ cs) path

  -- The path exists, and is no symbolic link.
  pub record IsDirect (path : String) : Type 0 where
    pub info : FileInfo
    pub found : fs.lstat path ≡ ok info
    pub no_link : info.symlink ≡ false

  check_components-head :
      (from c : String) (cs : List String)
      → c ≢ "."
      → c ≢ ""
      → check_components fs from (c ∷ cs) ≡ none
      → IsDirect (fs.joined from c) × (check_components fs (fs.joined from c) cs ≡ none)
  unfolding check_components
  check_components-head from c cs a b h =
      let step : (c == "." || c == "") ≡ false = ground (arith, a, b, eq_iff c ".", eq_iff c "") in
      elim (Result-cases (fs.lstat (fs.joined from c))) [
        | inl (e, q) ↦ cc (rw (step, q, check_components) at h)
        | inr (info, q) ↦ elim (Bool-cases info.symlink) [
          | inl link ↦ cc (rw (step, q, link, check_components) at h)
          | inr direct ↦ (
            record { info = info; found = q; no_link = direct },
            rw (step, q, direct, check_components) at h,
          )
        ]
      ]

  check_components-skip :
      (from c : String) (cs : List String)
      → (c ≡ ".") ⊎ (c ≡ "")
      → check_components fs from (c ∷ cs) ≡ none
      → check_components fs from cs ≡ none
  unfolding check_components
  check_components-skip from c cs s h =
      let step : (c == "." || c == "") ≡ true = ground (arith, s, eq_iff c ".", eq_iff c "") in
      rw (step, check_components) at h

  check_components-IsDirect :
      {from path : String} {cs : List String}
      → check_components fs from cs ≡ none
      → Passes from cs path
      → IsDirect path
  check_components-IsDirect h (here {from} {c} {cs} a b) = (check_components-head from c cs a b h).0
  check_components-IsDirect h (on {from} {c} {cs} a b p) =
      check_components-IsDirect (check_components-head from c cs a b h).1 p
  check_components-IsDirect h (skip {from} {c} {cs} s p) =
      check_components-IsDirect (check_components-skip from c cs s h) p

  -- The path leads through no symbolic link, and its own information is given.
  pub record IsReached (relative : String) (info : FileInfo) : Type 0 where
    pub direct :
        (path : String) → Passes "" (fs.components (fs.clean relative)) path → IsDirect path
    pub found : fs.lstat relative ≡ ok info

  pub lstat_no_symlinks-IsReached :
      (relative : String) (info : FileInfo)
      → lstat_no_symlinks fs relative ≡ ok info
      → IsReached relative info
  unfolding lstat_no_symlinks
  lstat_no_symlinks-IsReached relative info h =
      elim (Option-cases (check_components fs "" (fs.components (fs.clean relative)))) [
        | inl e ↦ record {
          direct = λ path p. check_components-IsDirect e p;
          found = resolved-eq-ok (rw (e, lstat_no_symlinks) at h);
        }
        | inr (x, e) ↦ cc (rw (e, lstat_no_symlinks) at h)
      ]
