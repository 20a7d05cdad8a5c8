-- ===== src/Ownership/Enrich/Precedence.antt =====
-- internal/ownership/ownership.go and codeowners.go: which evidence is selected.
use telemetry_change_guard.Common.{
  String, Bool, true, false, Option, none, some, List, [], ◌∷◌, ◌≡◌, refl, sym, ap, ◌∙◌, ◌⊎◌, ◌==◌,
  if◌then◌else◌, codes, is_empty, sort_by, str_ltb, Bool-cases, Option-cases, inl, inr,
}
use telemetry_change_guard.Domain.{Owner, Consumer}
use telemetry_change_guard.Ownership.Patterns.{match_path}
use telemetry_change_guard.Ownership.Evidence.{
  Selected, no_evidence, choose_evidence, existing_owner_evidence, tag_evidence, tag_names,
}
use telemetry_change_guard.Ownership.Rules.{
  CodeownersRule, matching_from, matching_codeowners_rule, evidence_from_codeowners,
}
use telemetry_change_guard.Ownership.Metadata.{MetadataRule, matches}
use telemetry_change_guard.Ownership.Outside.{Texts}
use telemetry_change_guard.Ownership.Loading.Codeowners.{CodeownersEvidence}
use telemetry_change_guard.Ownership.Enrich.{
  dashboard_tags, metadata_evidence, select_metadata, select_codeowners, select_evidence,
}

-- The last member of a list that passes a test.
pub last_match {ℓ} : {A : Type ℓ} → (A → Bool) → List A → Option A
last_match p [] = none
last_match p (x ∷ xs) = elim (last_match p xs) [
  | some y ↦ some y
  | none ↦ if p x then some x else none
]

abbrev pub or_else {ℓ κ} : {A : Type ℓ} {B : Type κ} → Option A → (A → B) → B → B
or_else none f b = b
or_else (some a) f b = f a

-- What overwriting a value at each match leaves.
or_else-last_match {ℓ κ} :
    {A : Type ℓ} {B : Type κ} (p : A → Bool) (f : A → B) (b : B) (x : A) (xs : List A)
    → or_else (last_match p (x ∷ xs)) f b ≡ or_else (last_match p xs) f (if p x then f x else b)
unfolding last_match
or_else-last_match p f b x xs = elim (Option-cases (last_match p xs)) [
  | inl q ↦ elim (Bool-cases (p x)) [
    | inl z ↦ rw (q, z, last_match) refl
    | inr z ↦ rw (q, z, last_match) refl
  ]
  | inr (y, q) ↦ rw (q, last_match) refl
]

or_else-some {ℓ} : {A : Type ℓ} (o : Option A) → or_else o (λ r. some r) none ≡ o
or_else-some none = refl
or_else-some (some r) = refl

or_else_ap {ℓ κ} :
    {A : Type ℓ} {B : Type κ} (o : Option A) (f g : A → B) (b : B)
    → ((a : A) → f a ≡ g a)
    → or_else o f b ≡ or_else o g b
or_else_ap none f g b h = refl
or_else_ap (some a) f g b h = h a

module _ (t : Texts) where
  abbrev covers : String → CodeownersRule → Bool
  covers path r = match_path t.run r.matcher (codes path)

  matching_from_lem :
      (found : Option CodeownersRule) (rules : List CodeownersRule) (path : String)
      → matching_from t.run found rules path
        ≡ or_else (last_match (covers path) rules) (λ r. some r) found
  unfolding matching_from last_match
  matching_from_lem found [] path = refl
  matching_from_lem found (r ∷ rs) path =
      matching_from_lem (if covers path r then some r else found) rs path
      ∙ sym (or_else-last_match (covers path) (λ q. some q) found r rs)

  -- Of the rules of a CODEOWNERS file, the last that matches the path counts.
  pub matching-last :
      (rules : List CodeownersRule) (path : String)
      → matching_codeowners_rule t.run rules path ≡ last_match (covers path) rules
  unfolding matching_codeowners_rule
  matching-last rules path =
      matching_from_lem none rules path ∙ or_else-some (last_match (covers path) rules)

  select_metadata_lem :
      (e : Selected) (rules : List MetadataRule) (c : Consumer) (path : String) (tags : List String)
      → select_metadata t e rules c path tags
        ≡ or_else (last_match (λ r. matches t.run r c path tags) rules) metadata_evidence e
  unfolding select_metadata last_match
  select_metadata_lem e [] c path tags = refl
  select_metadata_lem e (r ∷ rs) c path tags =
      select_metadata_lem (if matches t.run r c path tags then metadata_evidence r else e) rs c path
        tags
      ∙ sym (or_else-last_match (λ q. matches t.run q c path tags) metadata_evidence e r rs)

  -- The CODEOWNERS rule that applies to a path.
  pub owning_rule : Option CodeownersEvidence → String → Option (String × CodeownersRule)
  owning_rule none path = none
  owning_rule (some o) path =
      if path == ""
      then none
      else elim (last_match (covers path) o.rules) [ none ↦ none | some r ↦ some (o.path, r) ]

  abbrev tags_of : Consumer → Selected
  tags_of c = tag_evidence t.trim t.lower (dashboard_tags t c)

  tag_evidence_cases :
      (tags : List String)
      → (tag_evidence t.trim t.lower tags ≡ no_evidence)
        ⊎ ((tag_evidence t.trim t.lower tags).rank ≡ 1)
  unfolding tag_evidence
  tag_evidence_cases tags =
      elim (Bool-cases (is_empty (sort_by str_ltb (tag_names t.trim t.lower tags)))) [
        | inl z ↦ inl (rw z refl)
        | inr z ↦ inr (rw z refl)
      ]

  -- The choice between the consumer's owner and its tags.
  abbrev before_codeowners : Bool → Consumer → Selected
  before_codeowners with_tags c =
      if with_tags
      then choose_evidence (existing_owner_evidence c.owner) (tags_of c)
      else existing_owner_evidence c.owner

  abbrev without_owner : Bool → Consumer → Selected
  without_owner with_tags c = if with_tags then tags_of c else no_evidence

  before_codeowners_owned :
      (with_tags : Bool) (c : Consumer) (o : Owner)
      → c.owner ≡ some o
      → before_codeowners with_tags c ≡ existing_owner_evidence (some o)
  unfolding choose_evidence existing_owner_evidence
  before_codeowners_owned true c o q = elim (tag_evidence_cases (dashboard_tags t c)) [
    | inl z ↦ rw (z, q) refl
    | inr z ↦ rw (z, q) refl
  ]
  before_codeowners_owned false c o q = rw q refl

  before_codeowners_unowned :
      (with_tags : Bool) (c : Consumer)
      → c.owner ≡ none
      → before_codeowners with_tags c ≡ without_owner with_tags c
  unfolding choose_evidence existing_owner_evidence
  before_codeowners_unowned true c q = elim (tag_evidence_cases (dashboard_tags t c)) [
    | inl z ↦ rw (z, q) refl
    | inr z ↦ rw (z, q) refl
  ]
  before_codeowners_unowned false c q = rw q refl

  abbrev rule_evidence : String × CodeownersRule → Selected
  rule_evidence r = evidence_from_codeowners t.show r.0 r.1

  select_codeowners_lem :
      (e : Selected) (codeowners : Option CodeownersEvidence) (path : String)
      → select_codeowners t e codeowners path
        ≡ or_else (owning_rule codeowners path) (λ r. choose_evidence e (rule_evidence r)) e
  unfolding select_codeowners owning_rule
  select_codeowners_lem e none path = refl
  select_codeowners_lem e (some o) path = elim (Bool-cases (path == "")) [
    | inl b ↦ rw b refl
    | inr b ↦
        rw (b, matching-last o.rules path)
          (elim (Option-cases (last_match (covers path) o.rules)) [
            | inl q ↦ rw q refl
            | inr (r, q) ↦ rw q refl
          ])
  ]

  choose_unowned :
      (with_tags : Bool) (c : Consumer) (r : String × CodeownersRule)
      → choose_evidence (without_owner with_tags c) (rule_evidence r) ≡ rule_evidence r
  unfolding choose_evidence evidence_from_codeowners
  choose_unowned true c r = elim (tag_evidence_cases (dashboard_tags t c)) [
    | inl z ↦ rw z refl
    | inr z ↦ rw z refl
  ]
  choose_unowned false c r = refl

  or_else_const {ℓ} : {A : Type ℓ} (o : Option A) (e : Selected) → or_else o (λ _. e) e ≡ e
  or_else_const none e = refl
  or_else_const (some a) e = refl

  -- The evidence without the metadata rules.
  unruled :
      (with_tags : Bool) (codeowners : Option CodeownersEvidence) (path : String) (c : Consumer)
      → select_codeowners t (before_codeowners with_tags c) codeowners path
        ≡ or_else c.owner
            (λ o. existing_owner_evidence (some o))
            (or_else (owning_rule codeowners path) rule_evidence (without_owner with_tags c))
  unfolding choose_evidence existing_owner_evidence evidence_from_codeowners
  unruled with_tags codeowners path c = elim (Option-cases c.owner) [
    | inr (o, q) ↦
        ap (λ e. select_codeowners t e codeowners path) (before_codeowners_owned with_tags c o q)
        ∙ select_codeowners_lem (existing_owner_evidence (some o)) codeowners path
        ∙ or_else_const (owning_rule codeowners path) (existing_owner_evidence (some o))
        ∙ ap
            (λ x.
              or_else x (λ p. existing_owner_evidence (some p))
                (or_else (owning_rule codeowners path) rule_evidence (without_owner with_tags c)))
            (sym q)
    | inl q ↦
        ap (λ e. select_codeowners t e codeowners path) (before_codeowners_unowned with_tags c q)
        ∙ select_codeowners_lem (without_owner with_tags c) codeowners path
        ∙ or_else_ap (owning_rule codeowners path)
            (λ r. choose_evidence (without_owner with_tags c) (rule_evidence r)) rule_evidence
            (without_owner with_tags c) (choose_unowned with_tags c)
        ∙ ap
            (λ x.
              or_else x (λ p. existing_owner_evidence (some p))
                (or_else (owning_rule codeowners path) rule_evidence (without_owner with_tags c)))
            (sym q)
  ]

  -- The evidence that is selected for a consumer is that of the last metadata rule that matches it; if none
  -- does, the owner that its adapter found; without one, the last CODEOWNERS rule that matches its path, if
  -- it has one; and else, if they are enabled, its dashboard tags.
  pub select_evidence_lem :
      (with_tags : Bool) (codeowners : Option CodeownersEvidence) (rules : List MetadataRule)
      (path : String) (c : Consumer)
      → select_evidence t with_tags codeowners rules path c
        ≡ or_else
            (last_match (λ r. matches t.run r c path (dashboard_tags t c)) rules)
            metadata_evidence
            (or_else c.owner
              (λ o. existing_owner_evidence (some o))
              (or_else
                (owning_rule codeowners path)
                (λ r. evidence_from_codeowners t.show r.0 r.1)
                (if with_tags
                  then tag_evidence t.trim t.lower (dashboard_tags t c)
                  else no_evidence)))
  unfolding select_evidence
  select_evidence_lem with_tags codeowners rules path c =
      select_metadata_lem (select_codeowners t (before_codeowners with_tags c) codeowners path)
        rules c path (dashboard_tags t c)
      ∙ ap
          (or_else (last_match (λ r. matches t.run r c path (dashboard_tags t c)) rules)
            metadata_evidence)
          (unruled with_tags codeowners path c)
