-- ===== src/Detection/CompiledRule.antt =====
-- One type for all rules (backend/src/detection/compiled_rule.rs), with the trait's methods
-- (backend/src/detection/rules/mod.rs) dispatched by hand.
use mini_siem_project.Prelude.{String, Option, List}
use mini_siem_project.Prelude.Eff.{Eff}
use mini_siem_project.Types.Log.{Log, Call}
use mini_siem_project.Types.Tag.{LogTag}
use mini_siem_project.Types.Alert.{Alert}
use mini_siem_project.Types.External.{External}
use mini_siem_project.Detection.Cache.{Cache}
use mini_siem_project.Detection.Rules.BruteForce
use mini_siem_project.Detection.Rules.BruteForce.{BruteForceRule}
use mini_siem_project.Detection.Rules.PortScan
use mini_siem_project.Detection.Rules.PortScan.{PortScanRule}
use mini_siem_project.Detection.Rules.Malware
use mini_siem_project.Detection.Rules.Malware.{MalwareDetectionRule}
use mini_siem_project.Detection.Rules.Generic
use mini_siem_project.Detection.Rules.Generic.{GenericRule}
use mini_siem_project.Detection.Rules.Correlation.State.{CorrelationRule}
use mini_siem_project.Detection.Rules.Correlation.State
use mini_siem_project.Detection.Rules.Correlation.Evaluate.{Codec}
use mini_siem_project.Detection.Rules.Correlation.Evaluate

pub data CompiledRule : Type 0 where
  brute_force : BruteForceRule → CompiledRule
  port_scan : PortScanRule → CompiledRule
  malware : MalwareDetectionRule → CompiledRule
  generic : GenericRule → CompiledRule
  correlation : CorrelationRule → CompiledRule

abbrev pub name : CompiledRule → String
name (brute_force r) = r.name
name (port_scan r) = r.name
name (malware r) = r.name
name (generic r) = r.name
name (correlation r) = r.name

abbrev pub log_types : CompiledRule → List LogTag
log_types (brute_force r) = BruteForce.log_types r
log_types (port_scan r) = PortScan.log_types r
log_types (malware r) = Malware.log_types r
log_types (generic r) = Generic.log_types r
log_types (correlation r) = State.log_types r

abbrev pub tenant_id : CompiledRule → String
tenant_id (brute_force r) = r.tenant_id
tenant_id (port_scan r) = r.tenant_id
tenant_id (malware r) = r.tenant_id
tenant_id (generic r) = r.tenant_id
tenant_id (correlation r) = r.tenant_id

unfoldable pub evaluate :
    {S : Type 0} → Cache S → Codec → External → Call → Log → CompiledRule → Eff S (Option Alert)
evaluate cache codec x c log (brute_force r) = BruteForce.evaluate cache r c log
evaluate cache codec x c log (port_scan r) = PortScan.evaluate r log
evaluate cache codec x c log (malware r) = Malware.evaluate cache x r c log
evaluate cache codec x c log (generic r) = Generic.evaluate x r c log
evaluate cache codec x c log (correlation r) = Evaluate.evaluate cache codec x r c log
