-- ===== src/Types/Alert.antt =====
-- Alerts, their severity and their status (backend/src/types/alert.rs).
use mini_siem_project.Prelude.{
  ℕ, String, Bool, true, false, List, length, if◌then◌else◌, Option, none, some,
}
use mini_siem_project.Prelude.Text.{str_eq}
use mini_siem_project.Prelude.Int.{ℤ}
use mini_siem_project.Types.Log.{Log, Call}

pub data AlertSeverity : Type 0 where
  critical high medium low info : AlertSeverity

pub data AlertStatus : Type 0 where
  new investigating resolved false_positive : AlertStatus

pub record Alert : Type 0 where
  pub id : ℕ
  pub tenant_id : String
  pub rule_id : String
  pub rule_name : String
  pub severity : AlertSeverity
  pub description : String
  pub source_ip : String
  pub events : List Log
  pub first_seen : ℤ
  pub last_seen : ℤ
  pub status : AlertStatus
  pub events_count : ℕ

abbrev pub show_alert_severity : AlertSeverity → String
show_alert_severity critical = "CRITICAL"
show_alert_severity high = "HIGH"
show_alert_severity medium = "MEDIUM"
show_alert_severity low = "LOW"
show_alert_severity info = "INFO"

abbrev pub show_status : AlertStatus → String
show_status new = "NEW"
show_status investigating = "INVESTIGATING"
show_status resolved = "RESOLVED"
show_status false_positive = "FALSEPOSITIVE"

abbrev pub severity_eq : AlertSeverity → AlertSeverity → Bool
severity_eq critical critical = true
severity_eq high high = true
severity_eq medium medium = true
severity_eq low low = true
severity_eq info info = true
severity_eq _ _ = false

-- The texts are compared after `to_uppercase`, which the first argument stands for.
module _ (to_uppercase : String → String) where
  unfoldable pub severity_from_str : String → Option AlertSeverity
  severity_from_str s =
      let u = to_uppercase s in
      if str_eq u "CRITICAL"
      then some critical
      else if str_eq u "HIGH"
      then some high
      else if str_eq u "MEDIUM"
      then some medium
      else if str_eq u "LOW"
      then some low
      else if str_eq u "INFO"
      then some info
      else none

  unfoldable pub status_from_str : String → Option AlertStatus
  status_from_str s =
      let u = to_uppercase s in
      if str_eq u "NEW"
      then some new
      else if str_eq u "INVESTIGATING"
      then some investigating
      else if str_eq u "RESOLVED"
      then some resolved
      else if str_eq u "FALSEPOSITIVE"
      then some false_positive
      else none

-- `Alert::new`
abbrev pub new_alert :
    Call → String → String → String → AlertSeverity → String → String → List Log → Alert
new_alert c tenant_id rule_id rule_name severity description source_ip events = record {
  id = c.fresh_id;
  tenant_id = tenant_id;
  rule_id = rule_id;
  rule_name = rule_name;
  severity = severity;
  description = description;
  source_ip = source_ip;
  events = events;
  first_seen = c.now;
  last_seen = c.now;
  status = new;
  events_count = length events;
}
