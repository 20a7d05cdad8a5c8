-- ===== src/Safety/Policy/Accepts.antt =====
-- internal/safety/evaluator.go, `validatePolicy`: which policies it accepts.
use mathlib.Core.List.Memᴰ
use telemetry_change_guard.Common.{
  String, true, some, none, List, [], ◌∷◌, ◌≡◌, refl, ◌↔◌, ◌⊎◌, inl, inr, arith, Memᴰ-perm,
  Permᴰ-sym, map, lookup, Memᴰ-lookup, lookup_of_key, All, All_member, All-of_members, Bool-cases,
  eq_iff, sort_by, sort_by-perm, str_ltb,
}
use telemetry_change_guard.Safety.Action
use telemetry_change_guard.Safety.Policy.{
  Policy, ImpactRule, valid_mode, valid_impact_type, valid_criticality, check_rule, check_rules,
  rule_at, validate_policy,
}

-- A rule that can be applied.
pub record IsUsable (key : String) (r : ImpactRule) : Type 0 where
  pub known_impact : valid_impact_type key ≡ true
  pub known_action : (r.action ≡ Action.warn) ⊎ (r.action ≡ Action.block)
  pub known_minimum : valid_criticality r.minimum_criticality ≡ true

check_rule_iff : (key : String) (r : ImpactRule) → (check_rule key r ≡ none) ↔ IsUsable key r
unfolding check_rule
check_rule_iff key r = ground (arith, eq_iff r.action Action.warn, eq_iff r.action Action.block)

check_rules_iff :
    (p : Policy) (keys : List String)
    → (check_rules p keys ≡ none) ↔ All (λ k. check_rule k (rule_at p k) ≡ none) keys
unfolding check_rules
check_rules_iff p [] = (λ h. tt, λ a. refl)
check_rules_iff p (k ∷ keys) = ground (arith, check_rules_iff p keys)

abbrev sorted_keys : Policy → List String
sorted_keys p = sort_by str_ltb (map (λ e. e.0) p.impacts)

rules_iff :
    (p : Policy)
    → All (λ k. check_rule k (rule_at p k) ≡ none) (sorted_keys p)
      ↔ ((k : String) (r : ImpactRule) → lookup k p.impacts ≡ some r → IsUsable k r)
unfolding rule_at
rules_iff p = (
  λ a k r h.
      let listed =
        Memᴰ-perm (Permᴰ-sym (sort_by-perm str_ltb _))
          (Memᴰ.map (λ (e : String × ImpactRule). e.0) (Memᴰ-lookup k p.impacts h)) in
      let ok = All_member _ (sorted_keys p) a listed in
      (check_rule_iff k r).0 (rw (h, rule_at) at ok),
  λ f. All-of_members _ (sorted_keys p) (λ k m.
      let (r, h) = lookup_of_key k p.impacts (Memᴰ-perm (sort_by-perm str_ltb _) m) in
      rw (h, rule_at) ((check_rule_iff k r).1 (f k r h))),
)

-- A policy is accepted exactly if its mode is one of the three and every rule that it holds for some
-- impact is usable.
pub validate_policy_iff :
    (p : Policy)
    → (validate_policy p ≡ none) ↔ (
        (valid_mode p.mode ≡ true)
        × ((k : String) (r : ImpactRule) → lookup k p.impacts ≡ some r → IsUsable k r))
unfolding validate_policy
validate_policy_iff p = elim (Bool-cases (valid_mode p.mode)) [
  | inl known ↦ rw known (
    λ h. (refl, (rules_iff p).0 ((check_rules_iff p _).0 h)),
    λ (_, f). (check_rules_iff p _).1 ((rules_iff p).1 f),
  )
  | inr other ↦ rw other (λ h. cc h, λ (e, _). cc e)
]
