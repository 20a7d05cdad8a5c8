-- ===== src/Analysis.antt =====
-- internal/analysis/engine.go: the pipeline from a set of changes to its verdict. Of the configuration
-- (internal/config/config.go) only what the modelled part reads is here.
pub mod Limits
pub mod Sources
pub mod Discover
pub mod Run
use telemetry_change_guard.Common.{ℕ, String, Bool, List}
use telemetry_change_guard.Config.{FieldError}
use telemetry_change_guard.Impact.{ImpactError}
use telemetry_change_guard.Safety.Evaluate.{SafetyError}
use telemetry_change_guard.Ownership.Loading.{OwnershipConfig}

pub record ExecutionPolicy : Type 0 where
  pub repository_root : String
  pub max_source_files : ℕ
  pub max_source_bytes : ℕ
  pub max_consumers : ℕ
  pub max_references : ℕ
  pub max_productions : ℕ
  pub max_graph_nodes : ℕ
  pub max_graph_edges : ℕ
  pub max_findings : ℕ

pub record SourcePattern : Type 0 where
  pub pattern : String
  pub required : Bool

pub record TempoQuerySource : Type 0 where
  pub url : String
  pub pattern : String
  pub required : Bool
  pub timeout : String
  pub bearer_token_env : String
  pub criticality : String

pub record TraceAttributeMapping : Type 0 where
  pub scope : String
  pub open_telemetry : String
  pub tempo : String

-- `PolicyConfig`
pub record PolicyConfig : Type 0 where
  pub fail_on_critical_legacy_consumer : Bool
  pub fail_on_critical_unknown : Bool
  pub minimum_blocking_criticality : String

pub record Configuration : Type 0 where
  pub prometheus_rules : List SourcePattern
  pub grafana : List SourcePattern
  pub sloth : List SourcePattern
  pub pyrra : List SourcePattern
  pub keda : List SourcePattern
  pub argo_rollouts : List SourcePattern
  pub tempo_queries : List TempoQuerySource
  pub trace_attributes : List TraceAttributeMapping
  pub ownership : OwnershipConfig
  pub include_transitive_dependencies : Bool
  pub policy : PolicyConfig
  pub execution : ExecutionPolicy

-- The errors, with what they report.
pub data AnalysisError : Type 0 where
  invalid_change_set invalid_migration : List FieldError → AnalysisError
  cancelled setup ownership_root ownership : String → AnalysisError
  source_policy : String → String → AnalysisError
  secured_source : String → String → String → AnalysisError
  over_limit : String → ℕ → ℕ → AnalysisError
  graph_error impact_error readiness_error : ImpactError → AnalysisError
  safety_error : SafetyError → AnalysisError
