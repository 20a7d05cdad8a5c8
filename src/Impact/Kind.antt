-- ===== src/Impact/Kind.antt =====
-- internal/impact/finding.go: the operational consequences.
use telemetry_change_guard.Common.{String}

abbrev pub visibility_loss : String
visibility_loss = "VISIBILITY_LOSS"

abbrev pub alerting_risk : String
alerting_risk = "ALERTING_RISK"

abbrev pub slo_risk : String
slo_risk = "SLO_RISK"

abbrev pub scaling_risk : String
scaling_risk = "SCALING_RISK"

abbrev pub deployment_gate_risk : String
deployment_gate_risk = "DEPLOYMENT_GATE_RISK"

abbrev pub automation_risk : String
automation_risk = "AUTOMATION_RISK"

abbrev pub semantic_risk : String
semantic_risk = "SEMANTIC_RISK"
