-- ===== src/Safety/Evaluate/Statuses.antt =====
-- internal/safety/evaluator.go, `Evaluate`: when each status is given.
use telemetry_change_guard.Common.{
  String, Bool, true, false, List, [], ◌∷◌, ◌≡◌, refl, sym, ◌∙◌, ◌↔◌, ◌≢◌, inl, inr, ◌⊎◌, arith,
  Memᴰ, map, any, any-map, is_empty, not, any_witness, any_member, ◌||◌, if◌then◌else◌,
}
use telemetry_change_guard.Domain.{ChangeSet, Diagnostic}
use telemetry_change_guard.Impact.Findings.{Finding}
use telemetry_change_guard.Safety.Mode
use telemetry_change_guard.Safety.Status
use telemetry_change_guard.Safety.Policy.{Policy, decide}
use telemetry_change_guard.Safety.Evaluate.{aggregate_status}
use telemetry_change_guard.Safety.Evaluate.Apart.{statuses_apart}
use telemetry_change_guard.Safety.Evaluate.Verdict.{
  IsAccepted, IsBlocked, result, evaluate_accepted, evaluate_refused, is_required, is_unsure,
  blocks, decide-blocks_iff,
}

abbrev pub HasRequired : List Diagnostic → Type 0
HasRequired ds = (d : Diagnostic) × Memᴰ d ds × (d.required ≡ true)

abbrev pub HasUncertain : List Finding → Type 0
HasUncertain fs = (f : Finding) × Memᴰ f fs × (f.uncertain ≡ true)

-- What stands between the input and a safe answer.
abbrev pub IsUnproven : List Finding → List Diagnostic → Type 0
IsUnproven fs ds = HasRequired ds ⊎ HasUncertain fs

abbrev pub HasBlocked : (String → String) → Policy → List Finding → Type 0
HasBlocked lower p fs = (f : Finding) × Memᴰ f fs × IsBlocked lower p f

any_iff {ℓ} :
    {A : Type ℓ} (t : A → Bool) (xs : List A)
    → (any t xs ≡ true) ↔ ((x : A) × Memᴰ x xs × (t x ≡ true))
any_iff t xs = (any_witness t xs, λ (x, m, e). any_member t xs m e)

module _ (required unsure blocked : Bool) where
  -- `aggregate_status` over the answers of its tests.
  pub ladder : Bool → String
  ladder quiet =
      if required
      then Status.incomplete
      else if unsure
      then Status.incomplete
      else if blocked
      then Status.block
      else if quiet
      then Status.warn
      else Status.pass

  ladder-incomplete :
      (q : Bool) → (ladder q ≡ Status.incomplete) ↔ ((required ≡ true) ⊎ (unsure ≡ true))
  unfolding ladder
  ladder-incomplete q = ground (arith, statuses_apart)

  ladder-block :
      (q : Bool)
      → (ladder q ≡ Status.block) ↔ ((required ≡ false) × (unsure ≡ false) × (blocked ≡ true))
  unfolding ladder
  ladder-block q = ground (arith, statuses_apart)

  pub ladder-pass :
      (q : Bool)
      → (ladder q ≡ Status.pass)
        ↔ ((required ≡ false) × (unsure ≡ false) × (blocked ≡ false) × (q ≡ false))
  unfolding ladder
  ladder-pass q = ground (arith, statuses_apart)

  pub ladder_ne_error : (q : Bool) → ladder q ≢ Status.error
  unfolding ladder
  ladder_ne_error q = ground (arith, statuses_apart)

module _ (lower : String → String) (cs : ChangeSet) (fs : List Finding) (ds : List Diagnostic)
    (p : Policy) where
  abbrev pub quiet : Bool
  quiet = not (is_empty fs) || not (is_empty ds)

  abbrev pub climbed : String
  climbed =
      ladder (any is_required ds) (any is_unsure fs) (any blocks (map (decide lower p) fs)) quiet

  pub status_accepted : IsAccepted lower cs fs ds p → (result lower cs fs ds p).status ≡ climbed
  unfolding ladder aggregate_status
  status_accepted a = (evaluate_accepted lower cs fs ds p a).1

  pub status_cases :
      IsAccepted lower cs fs ds p × ((result lower cs fs ds p).status ≡ climbed)
      ⊎ ((result lower cs fs ds p).status ≡ Status.error)
  status_cases = elim (evaluate_refused lower cs fs ds p) [
    | inl a ↦ inl (a, status_accepted a)
    | inr (_, e) ↦ inr e
  ]

  -- A status other than ERROR is given exactly to accepted input, by the ladder.
  status_iff :
      (s : String)
      → s ≢ Status.error
      → ((result lower cs fs ds p).status ≡ s) ↔ (IsAccepted lower cs fs ds p × (climbed ≡ s))
  status_iff s ne = (
    λ h. elim status_cases [ inl (a, e) ↦ (a, sym e ∙ h) | inr e ↦ absurd (ne (sym h ∙ e)) ],
    λ (a, e). status_accepted a ∙ e,
  )

  IsUnproven-iff : ((any is_required ds ≡ true) ⊎ (any is_unsure fs ≡ true)) ↔ IsUnproven fs ds
  IsUnproven-iff = (
    λ c. elim c [
      | inl r ↦ inl ((any_iff is_required ds).0 r)
      | inr u ↦ inr ((any_iff is_unsure fs).0 u)
    ],
    λ c. elim c [
      | inl r ↦ inl ((any_iff is_required ds).1 r)
      | inr u ↦ inr ((any_iff is_unsure fs).1 u)
    ],
  )

  pub proven_iff : ((any is_required ds ≡ false) × (any is_unsure fs ≡ false)) ↔ ¬ IsUnproven fs ds
  proven_iff = (
    λ (r, u) c. elim (IsUnproven-iff.1 c) [ inl e ↦ cc (r, e) | inr e ↦ cc (u, e) ],
    λ n.
        let f =
          λ (c : (any is_required ds ≡ true) ⊎ (any is_unsure fs ≡ true)). n (IsUnproven-iff.0 c) in
        (refute _ (λ e. f (inl e)), refute _ (λ e. f (inr e))),
  )
    where
      refute : (b : Bool) → ¬ (b ≡ true) → b ≡ false
      refute true n = absurd (n refl)
      refute false n = refl

  blocked_iff :
      (any blocks (map (decide lower p) fs) ≡ true)
      ↔ ((p.mode ≡ Mode.enforce) × HasBlocked lower p fs)
  blocked_iff = rw (any-map blocks (decide lower p) fs) (
    λ h.
        let (f, m, e) = (any_iff _ fs).0 h in
        let (mode, b) = (decide-blocks_iff lower p f).0 e in (mode, (f, m, b)),
    λ (mode, h). (any_iff _ fs).1 (h.0, h.1, (decide-blocks_iff lower p h.0).1 (mode, h.2)),
  )

  -- INCOMPLETE is given exactly to accepted input with a required diagnostic or an uncertain finding,
  -- whatever the policy blocks.
  pub evaluate_incomplete_iff :
      ((result lower cs fs ds p).status ≡ Status.incomplete)
      ↔ (IsAccepted lower cs fs ds p × IsUnproven fs ds)
  evaluate_incomplete_iff =
      let (to, from) = status_iff Status.incomplete (search statuses_apart) in
      let (a, b) =
        ladder-incomplete (any is_required ds) (any is_unsure fs)
          (any blocks (map (decide lower p) fs)) quiet in
      (
        λ h. let (ok, e) = to h in (ok, IsUnproven-iff.0 (a e)),
        λ (ok, u). from (ok, b (IsUnproven-iff.1 u)),
      )

  -- BLOCK is given exactly to accepted input that lacks no evidence, in the mode `enforce`, with a
  -- finding that the policy blocks.
  pub evaluate_block_iff : ((result lower cs fs ds p).status ≡ Status.block) ↔ (
      IsAccepted lower cs fs ds p
      × (¬ IsUnproven fs ds)
      × (p.mode ≡ Mode.enforce)
      × HasBlocked lower p fs)
  evaluate_block_iff =
      let (to, from) = status_iff Status.block (search statuses_apart) in
      let (a, b) =
        ladder-block (any is_required ds) (any is_unsure fs) (any blocks (map (decide lower p) fs))
          quiet in
      (
        λ h.
            let (ok, e) = to h in
            let (r, u, t) = a e in
            let (mode, w) = blocked_iff.0 t in (ok, proven_iff.0 (r, u), mode, w),
        λ (ok, n, mode, w).
            let (r, u) = proven_iff.1 n in from (ok, b (r, u, blocked_iff.1 (mode, w))),
      )

  quiet_iff : (quiet ≡ false) ↔ ((fs ≡ []) × (ds ≡ []))
  quiet_iff = go fs ds
    where
      go :
          (xs : List Finding) (ys : List Diagnostic)
          → ((not (is_empty xs) || not (is_empty ys)) ≡ false) ↔ ((xs ≡ []) × (ys ≡ []))
      go [] [] = (λ h. (refl, refl), λ h. refl)
      go [] (y ∷ ys) = (λ h. cc h, λ h. cc h.1)
      go (x ∷ xs) ys = (λ h. cc h, λ h. cc h.0)

  -- PASS is given exactly to accepted input with no finding and no diagnostic at all.
  pub evaluate_pass_iff :
      ((result lower cs fs ds p).status ≡ Status.pass)
      ↔ (IsAccepted lower cs fs ds p × (fs ≡ []) × (ds ≡ []))
  evaluate_pass_iff =
      let (to, from) = status_iff Status.pass (search statuses_apart) in
      let (a, b) =
        ladder-pass (any is_required ds) (any is_unsure fs) (any blocks (map (decide lower p) fs))
          quiet in
      (
        λ h.
            let (ok, e) = to h in
            let (_, _, _, q) = a e in let (f, d) = quiet_iff.0 q in (ok, f, d),
        λ (ok, f, d). from (ok, b (rw f (rw d (refl, refl, refl, refl)))),
      )
