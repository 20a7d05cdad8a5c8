-- ===== src/Manifest/ChangeSets.antt =====
-- internal/config/changeset.go: MarshalChangeSet and ParseChangeSet.
use telemetry_change_guard.Common.{
  ℕ, ◌≤◌, String, Bool, Option, none, some, List, [], ◌∷◌, map, ◌≡◌, refl, sym, ap, ◌∙◌, ◌↔◌, inl,
  inr, Result, ok, err, ◌>>=◌, >>=-eq-ok, is_empty, List-cases, subst, if◌then◌else◌,
}
use mathlib.Core.Option.{map as option_map}
use telemetry_change_guard.Domain.{Symbol, Change, ChangeSet, Metadata}
use telemetry_change_guard.Config.{validate_change_set, bytes}
use telemetry_change_guard.Config.Normalize.{IsChangeSet, validate_change_set_iff}
use telemetry_change_guard.Manifest.{
  ManifestError, invalid, encoding_failed, Decoding, only, max_manifest_bytes, read_document,
  read_document_iff,
}

pub record CanonicalSymbol : Type 0 where
  pub domain : String
  pub kind : String
  pub name : String
  pub parent : String

pub record CanonicalChange : Type 0 where
  pub id : String
  pub kind : String
  pub domain : String
  pub from : CanonicalSymbol
  pub to : Option CanonicalSymbol
  pub metadata : Metadata

pub record ChangeSetDocument : Type 0 where
  pub api_version : String
  pub kind : String
  pub name : String
  pub description : String
  pub changes : List CanonicalChange

abbrev pub canonical_symbol_from_domain : Symbol → CanonicalSymbol
canonical_symbol_from_domain s = record {
  domain = s.domain;
  kind = s.kind;
  name = s.name;
  parent = s.parent;
}

abbrev pub symbol_to_domain : CanonicalSymbol → Symbol
symbol_to_domain s = record { domain = s.domain; kind = s.kind; name = s.name; parent = s.parent }

unfoldable pub change_document : Change → CanonicalChange
change_document c = record {
  id = c.id;
  kind = c.kind;
  domain = c.domain;
  from = canonical_symbol_from_domain c.from;
  to = option_map canonical_symbol_from_domain c.to;
  metadata = c.metadata;
}

unfoldable pub change_to_domain : CanonicalChange → Change
change_to_domain c = record {
  id = c.id;
  kind = c.kind;
  domain = c.domain;
  from = symbol_to_domain c.from;
  to = option_map symbol_to_domain c.to;
  metadata = c.metadata;
}

-- The document that `MarshalChangeSet` encodes.
unfoldable pub change_set_document : ChangeSet → ChangeSetDocument
change_set_document s = record {
  api_version = s.api_version;
  kind = s.kind;
  name = s.name;
  description = s.description;
  changes = map change_document s.changes;
}

unfoldable pub change_set_to_domain : ChangeSetDocument → ChangeSet
change_set_to_domain d = record {
  api_version = d.api_version;
  kind = d.kind;
  name = d.name;
  description = d.description;
  changes = map change_to_domain d.changes;
}

symbols-back :
    (o : Option Symbol)
    → option_map symbol_to_domain (option_map canonical_symbol_from_domain o) ≡ o
symbols-back none = refl
symbols-back (some s) = refl

change_to_domain-change_document : (c : Change) → change_to_domain (change_document c) ≡ c
unfolding change_to_domain change_document
change_to_domain-change_document c = λ i. record {
  id = c.id;
  kind = c.kind;
  domain = c.domain;
  from = c.from;
  to = symbols-back c.to i;
  metadata = c.metadata;
}

changes-back :
    (changes : List Change) → map change_to_domain (map change_document changes) ≡ changes
changes-back [] = refl
changes-back (c ∷ changes) = λ i. change_to_domain-change_document c i ∷ changes-back changes i

change_set_to_domain-change_set_document :
    (s : ChangeSet) → change_set_to_domain (change_set_document s) ≡ s
unfolding change_set_to_domain change_set_document
change_set_to_domain-change_set_document s = λ i. record {
  api_version = s.api_version;
  kind = s.kind;
  name = s.name;
  description = s.description;
  changes = changes-back s.changes i;
}

abbrev encoded : Option String → Result ManifestError String
encoded none = err encoding_failed
encoded (some text) = ok text

encoded-ok : (o : Option String) (text : String) → encoded o ≡ ok text → o ≡ some text
encoded-ok none text h = cc h
encoded-ok (some t) text h = cc h

module _ (is_blank : String → Bool) (show : ℕ → String) (quote : String → String) where
  unfoldable pub valid_change_set : ChangeSet → Result ManifestError ChangeSet
  valid_change_set s =
      if is_empty (validate_change_set is_blank show quote s)
      then ok s
      else err (invalid (validate_change_set is_blank show quote s))

  valid_change_set_iff :
      (s t : ChangeSet) → (valid_change_set s ≡ ok t) ↔ ((s ≡ t) × IsChangeSet is_blank s)
  unfolding valid_change_set
  valid_change_set_iff s t =
      let (to, from) = validate_change_set_iff is_blank show quote s in
      elim (List-cases (validate_change_set is_blank show quote s)) [
        | inl e ↦ rw e (λ h. (cc h, to e), λ (k, _). ap ok k)
        | inr (x, xs, e) ↦ rw e (λ h. cc h, λ (_, v). cc (sym e ∙ from v))
      ]

  module _ (encode : ChangeSetDocument → Option String) where
    unfoldable pub marshal_change_set : ChangeSet → Result ManifestError String
    marshal_change_set s = do
      valid ← valid_change_set s
      encoded (encode (change_set_document valid))

  module _ (decode : String → Decoding ChangeSetDocument) where
    unfoldable pub parse_change_set : String → Result ManifestError ChangeSet
    parse_change_set text = do
      document ← read_document decode text
      valid_change_set (change_set_to_domain document)

    -- A text is parsed to a change set exactly if it keeps the bound on its size, holds that change
    -- set as its only document, and the change set is valid.
    pub parse_change_set_iff :
        (text : String) (s : ChangeSet)
        → (parse_change_set text ≡ ok s) ↔ (
            (bytes text ≤ max_manifest_bytes)
            × IsChangeSet is_blank s
            × ((document : ChangeSetDocument) × (decode text ≡ only document)
                × (change_set_to_domain document ≡ s)))
    unfolding parse_change_set
    parse_change_set_iff text s = (
      λ h.
          let (d, read, rest) = >>=-eq-ok (read_document decode text) _ h in
          let (fits, single) = (read_document_iff decode text d).0 read in
          let (same, v) = (valid_change_set_iff (change_set_to_domain d) s).0 rest in
          (fits, subst (IsChangeSet is_blank) same v, (d, single, same)),
      λ (fits, v, (d, single, same)). rw ((read_document_iff decode text d).1 (fits, single)) (
          (valid_change_set_iff (change_set_to_domain d) s).1
            (same, subst (IsChangeSet is_blank) (sym same) v)),
    )

  -- What `MarshalChangeSet` returns for a change set, `ParseChangeSet` parses to that change set, where
  -- the text keeps the bound on its size and the YAML library decodes the text of the document that it
  -- encoded to that document alone.
  pub parse-marshal_change_set :
      (encode : ChangeSetDocument → Option String) (decode : String → Decoding ChangeSetDocument)
      (s : ChangeSet) (text : String)
      → ((t : String)
          → encode (change_set_document s) ≡ some t
          → decode t ≡ only (change_set_document s))
      → marshal_change_set encode s ≡ ok text
      → bytes text ≤ max_manifest_bytes
      → parse_change_set decode text ≡ ok s
  unfolding marshal_change_set
  parse-marshal_change_set encode decode s text faithful run fits =
      let (t, checked, rest) = >>=-eq-ok (valid_change_set s) _ run in
      let (same, v) = (valid_change_set_iff s t).0 checked in
      let sent = subst (λ u. encoded (encode (change_set_document u)) ≡ ok text) (sym same) rest in
      (parse_change_set_iff decode text s).1 (
        fits,
        v,
        (
          change_set_document s,
          faithful text (encoded-ok (encode (change_set_document s)) text sent),
          change_set_to_domain-change_set_document s,
        ),
      )
