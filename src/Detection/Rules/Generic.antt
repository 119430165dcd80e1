-- ===== src/Detection/Rules/Generic.antt =====
-- A rule that is one condition (backend/src/detection/rules/generic.rs).
use mini_siem_project.Prelude.{String, Option, none, some, List, [], ◌∷◌, if◌then◌else◌}
use mini_siem_project.Prelude.Text.{◌++ₛ◌, str_eq}
use mini_siem_project.Prelude.Eff.{Eff, pure}
use mini_siem_project.Types.Log.{Log, Call}
use mini_siem_project.Types.Tag.{LogTag, auth, network, malware}
use mini_siem_project.Types.Alert.{Alert, AlertSeverity, critical, high, medium, low, info, new}
use mini_siem_project.Types.External.{External}
use mini_siem_project.Detection.Evaluator.{RuleCondition}
use mini_siem_project.Detection.Evaluator

pub record GenericRule : Type 0 where
  pub tenant_id : String
  pub id : String
  pub name : String
  pub severity : AlertSeverity
  pub condition : RuleCondition

-- The severity of a rule's text; an unknown one is `info`.
abbrev pub rule_severity : External → String → AlertSeverity
rule_severity x s =
    let u = x.to_uppercase s in
    if str_eq u "CRITICAL"
    then critical
    else if str_eq u "HIGH"
    then high
    else if str_eq u "MEDIUM"
    then medium
    else if str_eq u "LOW"
    then low
    else info

abbrev pub new_generic : External → String → String → String → String → RuleCondition → GenericRule
new_generic x tenant_id id name severity condition = record {
  tenant_id = tenant_id;
  id = id;
  name = name;
  severity = rule_severity x severity;
  condition = condition;
}

abbrev pub log_types : GenericRule → List LogTag
log_types r = auth ∷ network ∷ malware ∷ []

-- An alert on one log, whose times are the log's own.
abbrev pub log_alert : Call → String → String → AlertSeverity → String → Log → Alert
log_alert c rule_id rule_name severity description log = record {
  id = c.fresh_id;
  tenant_id = log.tenant_id;
  rule_id = rule_id;
  rule_name = rule_name;
  severity = severity;
  description = description;
  source_ip = log.source_ip;
  events = log ∷ [];
  first_seen = log.timestamp;
  last_seen = log.timestamp;
  status = new;
  events_count = 1;
}

unfoldable pub evaluate : {S : Type 0} → External → GenericRule → Call → Log → Eff S (Option Alert)
evaluate x r c log =
    if Evaluator.evaluate x c log r.condition
    then pure (some (log_alert c r.id r.name r.severity ("Rule triggered: " ++ₛ r.name) log))
    else pure none
