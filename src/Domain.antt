-- ===== src/Domain.antt =====
-- internal/domain: the telemetry model that every other package shares. The string types of Go are
-- texts, with their constants in the child modules; an unset string is the empty text. Pointers are
-- options, and maps are association lists whose first entry for a key counts. Line and column numbers are natural numbers.
pub mod Signal
pub mod SymbolKind
pub mod ChangeKind
pub mod ConsumerKind
pub mod Criticality
use telemetry_change_guard.Common.{ℕ, String, Bool, Option, List, ◌++◌}

pub record SourceLocation : Type 0 where
  pub file : String
  pub line : ℕ
  pub column : ℕ
  pub url : String
  pub repo : String

pub record Owner : Type 0 where
  pub name : String
  pub email : String

pub record RuntimeEvidence : Type 0 where
  pub format : String
  pub execution_count : ℕ
  pub first_seen : String
  pub last_seen : String
  pub window : String
  pub window_start : String
  pub window_anchor : String
  pub executions_per_day : String
  pub origins : List String
  pub origin_details : List String

pub record Symbol : Type 0 where
  pub domain : String
  pub kind : String
  pub name : String
  pub parent : String

abbrev pub Metadata : Type 0
Metadata = List (String × String)

pub record Change : Type 0 where
  pub id : String
  pub kind : String
  pub domain : String
  pub from : Symbol
  pub to : Option Symbol
  pub metadata : Metadata

pub record ChangeSet : Type 0 where
  pub api_version : String
  pub kind : String
  pub name : String
  pub description : String
  pub changes : List Change

pub record Migration : Type 0 where
  pub api_version : String
  pub kind : String
  pub name : String
  pub description : String
  pub changes : List Change

pub record Consumer : Type 0 where
  pub id : String
  pub kind : String
  pub name : String
  pub source : SourceLocation
  pub criticality : String
  pub owner : Option Owner
  pub runtime : Option RuntimeEvidence
  pub expression : String
  pub metadata : Metadata
  pub unresolved : Bool

pub record Evidence : Type 0 where
  pub method : String
  pub confidence : String
  pub source : SourceLocation
  pub expression : String
  pub explanation : String

pub record Reference : Type 0 where
  pub consumer_id : String
  pub symbol : Symbol
  pub evidence : Evidence
  pub usage : String
  pub pattern : String
  pub requires_resolution : Bool
  pub resolution_scope : String

pub record Production : Type 0 where
  pub consumer_id : String
  pub symbol : Symbol

pub record Diagnostic : Type 0 where
  pub adapter : String
  pub source : SourceLocation
  pub message : String
  pub required : Bool

pub record Discovery : Type 0 where
  pub consumers : List Consumer
  pub references : List Reference
  pub productions : List Production
  pub diagnostics : List Diagnostic

-- `Discovery.Append`
unfoldable pub append_discovery : Discovery → Discovery → Discovery
append_discovery d more = record {
  consumers = d.consumers ++ more.consumers;
  references = d.references ++ more.references;
  productions = d.productions ++ more.productions;
  diagnostics = d.diagnostics ++ more.diagnostics;
}

-- `ResolutionScopeLabels`
abbrev pub scope_labels : String
scope_labels = "labels"

abbrev pub change_set_api_version : String
change_set_api_version = "tcg/v1alpha1"

abbrev pub change_set_kind : String
change_set_kind = "ChangeSet"

abbrev pub migration_api_version : String
migration_api_version = "telemetry-migration/v1alpha1"

abbrev pub migration_kind : String
migration_kind = "Migration"
