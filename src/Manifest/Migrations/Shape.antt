-- ===== src/Manifest/Migrations/Shape.antt =====
-- internal/config/migration.go: what a change keeps of the fields that its kind allows.
use telemetry_change_guard.Common.{
  String, true, false, Option, none, some, [], ◌≡◌, refl, sym, ap, subst, if◌then◌else◌,
}
use mathlib.Core.Option.{map as option_map}
use telemetry_change_guard.Domain.SymbolKind
use telemetry_change_guard.Domain.ChangeKind
use telemetry_change_guard.Config.{expected_symbol_kind, is_supported_change_kind}
use telemetry_change_guard.Config.Accepts.{append_iff, add_if_iff, not_same_iff}
use telemetry_change_guard.Manifest.Migrations.{
  SymbolDocument, document_name, symbol_to_domain, is_set, is_metric_change, is_label_change,
  is_attribute_change, check_metric_fields, check_label_fields, check_attribute_fields,
  check_fields,
}
use telemetry_change_guard.Manifest.Migrations.Written.{symbol_document, by_kind}

unset :
    (field : SymbolDocument → String) (d : SymbolDocument)
    → is_set field (some d) ≡ false
    → field d ≡ ""
unfolding is_set
unset field d h = (not_same_iff (field d) "").0 h

-- What a change keeps of the fields of its document, where the fields that its kind does not allow are empty.
unfoldable pub Keeps : String → String → String → SymbolDocument → Option SymbolDocument → Type 0
Keeps domain kind metric from to =
    let symbol = symbol_to_domain domain (expected_symbol_kind kind) metric in
    ((if is_label_change kind then (symbol from).parent else "") ≡ metric)
    × (symbol_document kind (symbol from) ≡ from)
    × (option_map (symbol_document kind) (option_map symbol to) ≡ to)

abbrev Kept : String → String → String → SymbolDocument → Type 0
Kept domain kind metric d =
    symbol_document kind (symbol_to_domain domain (expected_symbol_kind kind) metric d) ≡ d

written_destination :
    (domain kind metric : String) (to : Option SymbolDocument)
    → ((d : SymbolDocument) → to ≡ some d → Kept domain kind metric d)
    → option_map
        (symbol_document kind)
        (option_map (symbol_to_domain domain (expected_symbol_kind kind) metric) to)
      ≡ to
written_destination domain kind metric none h = refl
written_destination domain kind metric (some d) h = ap some (h d refl)

module _ (domain kind metric : String) (d : SymbolDocument) where
  metric_Kept :
      is_metric_change kind ≡ true
      → is_label_change kind ≡ false
      → is_attribute_change kind ≡ false
      → expected_symbol_kind kind ≡ SymbolKind.metric
      → d.label ≡ ""
      → d.attribute ≡ ""
      → Kept domain kind metric d
  unfolding symbol_document symbol_to_domain document_name
  metric_Kept m l a e p q =
      rw (m, l, a, e) (λ i. record { metric = d.metric; label = sym p i; attribute = sym q i })

  label_Kept :
      is_metric_change kind ≡ false
      → is_label_change kind ≡ true
      → is_attribute_change kind ≡ false
      → expected_symbol_kind kind ≡ SymbolKind.label
      → d.metric ≡ ""
      → d.attribute ≡ ""
      → Kept domain kind metric d
  unfolding symbol_document symbol_to_domain document_name
  label_Kept m l a e p q =
      rw (m, l, a, e) (λ i. record { metric = sym p i; label = d.label; attribute = sym q i })

  attribute_Kept :
      is_metric_change kind ≡ false
      → is_label_change kind ≡ false
      → is_attribute_change kind ≡ true
      → document_name (expected_symbol_kind kind) d ≡ d.attribute
      → d.metric ≡ ""
      → d.label ≡ ""
      → Kept domain kind metric d
  unfolding symbol_document symbol_to_domain
  attribute_Kept m l a e p q =
      rw (m, l, a, e) (λ i. record { metric = sym p i; label = sym q i; attribute = d.attribute })

module _ (path domain kind metric : String) (from : SymbolDocument)
    (to : Option SymbolDocument) where
  metric_change-Keeps :
      is_metric_change kind ≡ true
      → is_label_change kind ≡ false
      → is_attribute_change kind ≡ false
      → expected_symbol_kind kind ≡ SymbolKind.metric
      → check_metric_fields path metric from to ≡ []
      → Keeps domain kind metric from to
  unfolding Keeps check_metric_fields
  metric_change-Keeps m l a e h =
      let ((((no_metric, no_label), no_to_label), no_attribute), no_to_attribute) =
        (append_iff
            (append_iff
              (append_iff
                (append_iff (add_if_iff _ _ (not_same_iff metric ""))
                  (add_if_iff _ _ (not_same_iff from.label "")))
                (add_if_iff _ _ (λ n. n, λ n. n)))
              (add_if_iff _ _ (not_same_iff from.attribute "")))
            (add_if_iff _ _ (λ n. n, λ n. n))).0
          h in
      (
        rw l (sym no_metric),
        metric_Kept domain kind metric from m l a e no_label no_attribute,
        written_destination domain kind metric to (λ d k.
            metric_Kept domain kind metric d m l a e
              (unset (λ x. x.label) d (subst (λ o. is_set (λ x. x.label) o ≡ false) k no_to_label))
              (unset (λ x. x.attribute) d
                (subst (λ o. is_set (λ x. x.attribute) o ≡ false) k no_to_attribute))),
      )

  label_change-Keeps :
      is_metric_change kind ≡ false
      → is_label_change kind ≡ true
      → is_attribute_change kind ≡ false
      → expected_symbol_kind kind ≡ SymbolKind.label
      → check_label_fields path from to ≡ []
      → Keeps domain kind metric from to
  unfolding Keeps check_label_fields symbol_to_domain
  label_change-Keeps m l a e h =
      let (((no_metric, no_to_metric), no_attribute), no_to_attribute) =
        (append_iff
            (append_iff
              (append_iff (add_if_iff _ _ (not_same_iff from.metric ""))
                (add_if_iff _ _ (λ n. n, λ n. n)))
              (add_if_iff _ _ (not_same_iff from.attribute "")))
            (add_if_iff _ _ (λ n. n, λ n. n))).0
          h in
      (
        rw (l, e) refl,
        label_Kept domain kind metric from m l a e no_metric no_attribute,
        written_destination domain kind metric to (λ d k.
            label_Kept domain kind metric d m l a e
              (unset (λ x. x.metric) d
                (subst (λ o. is_set (λ x. x.metric) o ≡ false) k no_to_metric))
              (unset (λ x. x.attribute) d
                (subst (λ o. is_set (λ x. x.attribute) o ≡ false) k no_to_attribute))),
      )

  attribute_change-Keeps :
      is_metric_change kind ≡ false
      → is_label_change kind ≡ false
      → is_attribute_change kind ≡ true
      → ((d : SymbolDocument) → document_name (expected_symbol_kind kind) d ≡ d.attribute)
      → check_attribute_fields path metric from to ≡ []
      → Keeps domain kind metric from to
  unfolding Keeps check_attribute_fields
  attribute_change-Keeps m l a e h =
      let ((((no_parent, no_metric), no_label), no_to_metric), no_to_label) =
        (append_iff
            (append_iff
              (append_iff
                (append_iff (add_if_iff _ _ (not_same_iff metric ""))
                  (add_if_iff _ _ (not_same_iff from.metric "")))
                (add_if_iff _ _ (not_same_iff from.label "")))
              (add_if_iff _ _ (λ n. n, λ n. n)))
            (add_if_iff _ _ (λ n. n, λ n. n))).0
          h in
      (
        rw l (sym no_parent),
        attribute_Kept domain kind metric from m l a (e from) no_metric no_label,
        written_destination domain kind metric to (λ d k.
            attribute_Kept domain kind metric d m l a (e d)
              (unset (λ x. x.metric) d
                (subst (λ o. is_set (λ x. x.metric) o ≡ false) k no_to_metric))
              (unset (λ x. x.label) d
                (subst (λ o. is_set (λ x. x.label) o ≡ false) k no_to_label))),
      )

pub fields-Keeps :
    (path domain metric : String) (from : SymbolDocument) (to : Option SymbolDocument)
    (kind : String)
    → is_supported_change_kind kind ≡ true
    → check_fields path kind metric from to ≡ []
    → Keeps domain kind metric from to
unfolding check_fields is_metric_change is_label_change is_attribute_change expected_symbol_kind
    document_name
fields-Keeps path domain metric from to =
    by_kind (λ kind. check_fields path kind metric from to ≡ [] → Keeps domain kind metric from to)
      (metric_change-Keeps path domain ChangeKind.metric_rename metric from to refl refl refl refl)
      (metric_change-Keeps path domain ChangeKind.metric_remove metric from to refl refl refl refl)
      (label_change-Keeps path domain ChangeKind.label_rename metric from to refl refl refl refl)
      (label_change-Keeps path domain ChangeKind.label_remove metric from to refl refl refl refl)
      (attribute_change-Keeps path domain ChangeKind.span_attribute_rename metric from to refl refl
        refl (λ d. refl))
      (attribute_change-Keeps path domain ChangeKind.span_attribute_remove metric from to refl refl
        refl (λ d. refl))
      (attribute_change-Keeps path domain ChangeKind.resource_attribute_rename metric from to refl
        refl refl (λ d. refl))
      (attribute_change-Keeps path domain ChangeKind.resource_attribute_remove metric from to refl
        refl refl (λ d. refl))
