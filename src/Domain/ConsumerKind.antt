-- ===== src/Domain/ConsumerKind.antt =====
-- internal/domain/consumer.go: the kinds of consumers.
use telemetry_change_guard.Common.{String}

abbrev pub dashboard : String
dashboard = "dashboard"

abbrev pub dashboard_panel : String
dashboard_panel = "dashboard_panel"

abbrev pub alert_rule : String
alert_rule = "alert_rule"

abbrev pub recording_rule : String
recording_rule = "recording_rule"

abbrev pub slo : String
slo = "slo"

abbrev pub collector : String
collector = "collector_config"

abbrev pub query : String
query = "query"

abbrev pub source_code : String
source_code = "source_code"

abbrev pub runbook : String
runbook = "runbook"

abbrev pub autoscaler : String
autoscaler = "autoscaler"

abbrev pub deployment_gate : String
deployment_gate = "deployment_gate"

abbrev pub automation : String
automation = "automation"
