-- ===== src/Readiness/Gate/Laws.antt =====
-- internal/readiness/evaluator.go: when each status is given.
use telemetry_change_guard.Common.{
  String, Bool, true, false, List, [], ◌∷◌, ◌≡◌, refl, ◌↔◌, ◌⊎◌, arith, ◌==◌, any, All,
  if◌then◌else◌,
}
use telemetry_change_guard.Domain.{Diagnostic}
use telemetry_change_guard.Readiness.Apart.{statuses_apart}
use telemetry_change_guard.Readiness.Status
use telemetry_change_guard.Readiness.Gate.{
  Gates, ConsumerResult, ChangeResult, has_required_diagnostic, is_blocking, is_open,
  status_for_consumers, status_for_changes,
}

-- Both statuses as a function of three tests.
abbrev gate : Bool → Bool → Bool → String
gate blocking required unknown =
    if blocking
    then Status.blocked
    else if required
    then Status.incomplete
    else if unknown
    then Status.incomplete
    else Status.ready

gate-blocked : (b r o : Bool) → (gate b r o == Status.blocked) ≡ b
gate-blocked true r o = refl
gate-blocked false true o = refl
gate-blocked false false true = refl
gate-blocked false false false = refl

gate-incomplete : (o : Bool) → (gate false false o == Status.incomplete) ≡ o
gate-incomplete true = refl
gate-incomplete false = refl

module _ (lower : String → String) (ds : List Diagnostic) (p : Gates) where
  -- The status of each change is the one that its consumers give.
  abbrev pub AreGated : List ChangeResult → Type 0
  AreGated cs = All (λ c. c.status ≡ status_for_consumers lower c.consumers ds p) cs

  abbrev pub any_blocking : List ChangeResult → Bool
  any_blocking cs = any (λ c. any (is_blocking lower p) c.consumers) cs

  abbrev pub any_open : List ChangeResult → Bool
  any_open cs = any (λ c. any (is_open lower p) c.consumers) cs

  consumers_blocked :
      (rs : List ConsumerResult)
      → (status_for_consumers lower rs ds p == Status.blocked) ≡ any (is_blocking lower p) rs
  unfolding status_for_consumers
  consumers_blocked rs = gate-blocked _ _ _

  changes_blocked :
      (cs : List ChangeResult)
      → AreGated cs
      → any (λ c. c.status == Status.blocked) cs ≡ any_blocking cs
  changes_blocked [] g = refl
  changes_blocked (c ∷ cs) (e, g) = rw (e, consumers_blocked, changes_blocked cs g) refl

  consumers_incomplete :
      (rs : List ConsumerResult)
      → has_required_diagnostic ds ≡ false
      → any (is_blocking lower p) rs ≡ false
      → (status_for_consumers lower rs ds p == Status.incomplete) ≡ any (is_open lower p) rs
  unfolding status_for_consumers
  consumers_incomplete rs h k = rw (h, k) (gate-incomplete _)

  changes_incomplete :
      (cs : List ChangeResult)
      → AreGated cs
      → has_required_diagnostic ds ≡ false
      → any_blocking cs ≡ false
      → any (λ c. c.status == Status.incomplete) cs ≡ any_open cs
  changes_incomplete [] g h k = refl
  changes_incomplete (c ∷ cs) (e, g) h k =
      rw e (ground (arith, consumers_incomplete c.consumers h, changes_incomplete cs g h))

  -- The status of a migration, from its consumers.
  pub status_for_changes_iff :
      (cs : List ChangeResult)
      → AreGated cs
      → ((status_for_changes cs ds ≡ Status.blocked) ↔ (any_blocking cs ≡ true))
        × ((status_for_changes cs ds ≡ Status.ready) ↔ (
            (any_blocking cs ≡ false)
            × (has_required_diagnostic ds ≡ false)
            × (any_open cs ≡ false)))
        × ((status_for_changes cs ds ≡ Status.incomplete) ↔ (
            (any_blocking cs ≡ false)
            × ((has_required_diagnostic ds ≡ true) ⊎ (any_open cs ≡ true))))
  unfolding status_for_changes
  status_for_changes_iff cs g =
      rw (changes_blocked cs g) (ground (arith, statuses_apart, changes_incomplete cs g))
