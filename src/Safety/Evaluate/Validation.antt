-- ===== src/Safety/Evaluate/Validation.antt =====
-- internal/safety/evaluator.go, `validateFindings`: what it accepts.
use telemetry_change_guard.Common.{
  String, false, none, List, [], ◌∷◌, ◌≡◌, refl, ◌↔◌, ◌≢◌, arith, Permᴰ, All, All_member,
  All-of_members, Distinct, Distinct-perm, Memᴰ-perm, Permᴰ-sym, has, eq_iff, sort_by-perm,
}
use telemetry_change_guard.Impact.Findings.{Finding}
use telemetry_change_guard.Safety.Evaluate.{
  check_finding, check_findings, validate_findings, finding_key, sort_findings, finding_before,
}

-- Each finding passes its own tests, and no two share change, consumer and impact.
abbrev pub AreValid : List Finding → Type 0
AreValid fs = All (λ f. check_finding f ≡ none) fs × Distinct finding_key fs

abbrev AreNew : List String → List Finding → Type 0
AreNew seen fs = All (λ f. has (finding_key f) seen ≡ false) fs

AreNew-cons :
    (k : String) (seen : List String) (fs : List Finding)
    → AreNew (k ∷ seen) fs ↔ (All (λ f. k ≢ finding_key f) fs × AreNew seen fs)
unfolding has
AreNew-cons k seen [] = (λ a. (tt, tt), λ a. tt)
AreNew-cons k seen (f ∷ fs) = ground (arith, eq_iff k (finding_key f), AreNew-cons k seen fs)

check_findings_iff :
    (seen : List String) (fs : List Finding)
    → (check_findings seen fs ≡ none) ↔ (AreValid fs × AreNew seen fs)
unfolding check_findings
check_findings_iff seen [] = (λ h. ((tt, tt), tt), λ h. refl)
check_findings_iff seen (f ∷ fs) =
    ground
      (arith, check_findings_iff (finding_key f ∷ seen) fs, AreNew-cons (finding_key f) seen fs)

pub AreValid-perm : {fs gs : List Finding} → Permᴰ fs gs → AreValid fs → AreValid gs
AreValid-perm {fs} {gs} h (a, d) = (
  All-of_members _ gs (λ f m. All_member _ fs a (Memᴰ-perm (Permᴰ-sym h) m)),
  Distinct-perm finding_key h d,
)

AreNew-nil : (fs : List Finding) → AreNew [] fs
unfolding has
AreNew-nil [] = tt
AreNew-nil (f ∷ fs) = (refl, AreNew-nil fs)

pub sort_findings-perm : (fs : List Finding) → Permᴰ (sort_findings fs) fs
unfolding sort_findings
sort_findings-perm fs = sort_by-perm finding_before fs

-- `validateFindings` accepts exactly the valid findings.
pub accepted_iff : (fs : List Finding) → (validate_findings fs ≡ none) ↔ AreValid fs
unfolding validate_findings
accepted_iff fs =
    let (to, from) = check_findings_iff [] fs in (λ h. (to h).0, λ v. from (v, AreNew-nil fs))

-- The sorted findings are accepted exactly if the findings are valid.
pub validate_findings_iff :
    (fs : List Finding) → (validate_findings (sort_findings fs) ≡ none) ↔ AreValid fs
validate_findings_iff fs =
    let (to, from) = accepted_iff (sort_findings fs) in
    (
      λ h. AreValid-perm (sort_findings-perm fs) (to h),
      λ v. from (AreValid-perm (Permᴰ-sym (sort_findings-perm fs)) v),
    )
