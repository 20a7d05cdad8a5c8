-- ===== src/Impact/Matching.antt =====
-- internal/impact/finding.go: which references a change concerns.
pub mod Laws
use telemetry_change_guard.Common.{
  String, Bool, true, false, not, ◌&&◌, ◌||◌, Option, none, some, List, [], ◌∷◌, ◌==◌,
  if◌then◌else◌, any, keep, concat, nat_beq, ltb, str_ltb, sort_by,
}
use telemetry_change_guard.Domain.{Symbol, Change, Reference, scope_labels}
use telemetry_change_guard.Domain.Signal
use telemetry_change_guard.Domain.SymbolKind

abbrev pub family_suffixes : List String
family_suffixes = "_bucket" ∷ "_sum" ∷ "_count" ∷ "_created" ∷ []

unfoldable pub metric_family_matches : String → String → Bool
metric_family_matches reference base =
    if reference == base
    then true
    else any (λ suffix. reference == concat base suffix) family_suffixes

unfoldable pub symbol_matches : Symbol → Symbol → Bool
symbol_matches reference changed =
    if not (reference.domain == changed.domain) || not (reference.kind == changed.kind)
    then false
    else if reference.domain == Signal.prometheus && reference.kind == SymbolKind.metric
    then metric_family_matches reference.name changed.name
    else if reference.domain == Signal.prometheus && reference.kind == SymbolKind.label
    then reference.name == changed.name && metric_family_matches reference.parent changed.parent
    else reference.name == changed.name && reference.parent == changed.parent

-- The last lines of `UnresolvedReferenceApplies`.
unfoldable pub destination_matches : Reference → Option Symbol → Bool
destination_matches reference none = false
destination_matches reference (some to) = metric_family_matches reference.symbol.name to.parent

unfoldable pub unresolved_reference_applies : Reference → Change → Bool
unfolding destination_matches
unresolved_reference_applies reference change =
    if not reference.requires_resolution
    then false
    else if not (reference.resolution_scope == scope_labels)
    then true
    else if not (change.from.kind == SymbolKind.label)
        || not (reference.symbol.kind == SymbolKind.metric)
    then false
    else if metric_family_matches reference.symbol.name change.from.parent
    then true
    else destination_matches reference change.to

-- `if a != b { return a < b }`, and what comes behind it.
abbrev pub text_order : String → String → Bool → Bool
text_order a b rest = if not (a == b) then str_ltb a b else rest

-- The order of `sourceReferences`.
unfoldable pub reference_before : Reference → Reference → Bool
reference_before l r = text_order l.symbol.domain r.symbol.domain (
    text_order l.symbol.kind r.symbol.kind (
      text_order l.symbol.parent r.symbol.parent (
        text_order l.symbol.name r.symbol.name (
          text_order l.evidence.source.file r.evidence.source.file (
            if not (nat_beq l.evidence.source.line r.evidence.source.line)
            then ltb l.evidence.source.line r.evidence.source.line
            else if not (nat_beq l.evidence.source.column r.evidence.source.column)
            then ltb l.evidence.source.column r.evidence.source.column
            else text_order l.evidence.source.url r.evidence.source.url (
                text_order l.evidence.source.repo r.evidence.source.repo (
                  text_order l.evidence.method r.evidence.method (
                    text_order l.evidence.confidence r.evidence.confidence (
                      text_order l.evidence.expression r.evidence.expression (
                        text_order l.evidence.explanation r.evidence.explanation (
                          text_order l.usage r.usage (
                            text_order l.pattern r.pattern (
                              if l.requires_resolution && not r.requires_resolution
                              then false
                              else if not l.requires_resolution && r.requires_resolution
                              then true
                              else str_ltb l.resolution_scope r.resolution_scope)))))))))))))

unfoldable pub concerns : String → Change → Reference → Bool
concerns consumer_id change reference =
    reference.consumer_id == consumer_id
    && (symbol_matches reference.symbol change.from
        || unresolved_reference_applies reference change)

unfoldable pub source_references : List Reference → String → Change → List Reference
unfolding concerns
source_references references consumer_id change =
    sort_by reference_before (keep (concerns consumer_id change) references)

unfoldable pub has_unresolved : List Reference → Bool
has_unresolved references = any (λ reference. reference.requires_resolution) references
