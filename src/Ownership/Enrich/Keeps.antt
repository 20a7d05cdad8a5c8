-- ===== src/Ownership/Enrich/Keeps.antt =====
-- internal/ownership/ownership.go: what `EnrichWithBudget` leaves as it was.
use mathlib.Core.Path.{ap₂}
use mathlib.Core.List.{append_assoc, append-nil}
use telemetry_change_guard.Common.{
  String, Option, none, List, [], ◌∷◌, ◌++◌, ◌≡◌, refl, sym, ap, map, ltb, Bool-cases, Option-cases,
  Result-cases, inl, inr,
}
use telemetry_change_guard.Domain.{Consumer, Discovery, Diagnostic}
use telemetry_change_guard.Ownership.Evidence.{Selected, apply_evidence}
use telemetry_change_guard.Ownership.Metadata.{MetadataRule}
use telemetry_change_guard.Ownership.Outside.{Texts, Files}
use telemetry_change_guard.Ownership.Loading.{
  OwnershipConfig, ownership_diagnostic, load_metadata_rules,
}
use telemetry_change_guard.Ownership.Loading.Codeowners.{CodeownersEvidence, load_codeowners}
use telemetry_change_guard.Ownership.Loading.Advisory.{
  IsAdvisory, append-IsAdvisory, load_metadata_rules-IsAdvisory, load_codeowners-IsAdvisory,
}
use telemetry_change_guard.Ownership.Enrich.{
  forget_tags, enrich_consumer, enrich_consumers, enrich_in, enrich,
}

-- A consumer without its owner and metadata.
unfoldable pub unowned : Consumer → Consumer
unowned c = record c { owner = none; metadata = [] }

-- The second discovery has the references and productions of the first, its consumers up to their owners
-- and metadata, and its diagnostics with further ones that are not required.
pub record Keeps (d d' : Discovery) : Type 0 where
  pub references : d'.references ≡ d.references
  pub productions : d'.productions ≡ d.productions
  pub consumers : map unowned d'.consumers ≡ map unowned d.consumers
  pub added : List Diagnostic
  pub diagnostics : d'.diagnostics ≡ d.diagnostics ++ added
  pub advisory : IsAdvisory added

apply_evidence-unowned :
    (encode : List String → String) (c : Consumer) (e : Selected)
    → unowned (apply_evidence encode c e) ≡ unowned c
unfolding apply_evidence unowned
apply_evidence-unowned encode c e = elim (Bool-cases (ltb 0 e.rank)) [
  | inl q ↦ rw q refl
  | inr q ↦ rw q refl
]

forget_tags-unowned : (cs : List Consumer) → map unowned (map forget_tags cs) ≡ map unowned cs
unfolding forget_tags unowned
forget_tags-unowned [] = refl
forget_tags-unowned (c ∷ cs) = ap (λ rest. unowned c ∷ rest) (forget_tags-unowned cs)

module _ (t : Texts) {S : Type 0} (files : Files S) where
  enrich_consumers-unowned :
      (config : OwnershipConfig) (root : String) (o : Option CodeownersEvidence)
      (rules : List MetadataRule) (s : S) (cs : List Consumer)
      → map unowned (enrich_consumers t files config root o rules s cs).1 ≡ map unowned cs
  unfolding enrich_consumers enrich_consumer
  enrich_consumers-unowned config root o rules s [] = refl
  enrich_consumers-unowned config root o rules s (c ∷ cs) = elim (Option-cases (files.poll s).1) [
    | inl q ↦
        rw (q, enrich_consumers)
          (ap₂ (λ x xs. x ∷ xs) (apply_evidence-unowned _ c _)
            (enrich_consumers-unowned config root o rules (files.poll s).0 cs))
    | inr (e, q) ↦ rw (q, enrich_consumers) refl
  ]

  enrich_in-Keeps :
      (config : OwnershipConfig) (root : String) (s : S) (d : Discovery)
      → Keeps d (enrich_in t files config root s d).1
  unfolding enrich_in
  enrich_in-Keeps config root s d =
      let loaded = load_metadata_rules t files root config.metadata s in
      let found = load_codeowners t files root config.codeowners loaded.state in
      record {
        references = refl;
        productions = refl;
        consumers = enrich_consumers-unowned config root found.1 loaded.rules found.0 d.consumers;
        added = loaded.diagnostics ++ found.2;
        diagnostics = append_assoc d.diagnostics loaded.diagnostics found.2;
        advisory =
            append-IsAdvisory loaded.diagnostics found.2
              (load_metadata_rules-IsAdvisory t files root config.metadata s)
              (load_codeowners-IsAdvisory t files root config.codeowners loaded.state);
      }

  same :
      (d : Discovery) (cs : List Consumer)
      → map unowned cs ≡ map unowned d.consumers
      → Keeps d (record d { consumers = cs })
  same d cs h = record {
    references = refl;
    productions = refl;
    consumers = h;
    added = [];
    diagnostics = sym (append-nil d.diagnostics);
    advisory = refl;
  }

  -- Whatever the configuration, the files and the context, and also if it returns an error, enriching a
  -- discovery keeps its references and productions, changes nothing of its consumers but their owners and
  -- metadata, and adds no required diagnostic.
  pub enrich-Keeps :
      (config : OwnershipConfig) (s : S) (d : Discovery) → Keeps d (enrich t files config s d).1
  unfolding enrich ownership_diagnostic
  enrich-Keeps config s d = elim (Bool-cases config.enabled) [
    | inr b ↦
        rw (b, enrich) (same d (map forget_tags d.consumers) (forget_tags-unowned d.consumers))
    | inl b ↦ elim (Option-cases (files.poll s).1) [
      | inr (e, q) ↦ rw (b, q, enrich) (same d d.consumers refl)
      | inl q ↦ elim (Result-cases (files.absolute config.repository_root)) [
        | inl (e, z) ↦
            rw (b, q, z, enrich)
              (record {
                references = refl;
                productions = refl;
                consumers = refl;
                added = ownership_diagnostic "ownership" config.repository_root 0 e ∷ [];
                diagnostics = refl;
                advisory = refl;
              })
        | inr (root, z) ↦
            rw (b, q, z, enrich) (enrich_in-Keeps config (files.clean root) (files.poll s).0 d)
      ]
    ]
  ]
