-- ===== src/Types/Log.antt =====
-- A log entry and its severity (backend/src/types/log.rs). An instant is a number of nanoseconds
-- since 1970, an identifier a number.
use mini_siem_project.Prelude.{ℕ, String, Bool, ◌||◌, Option, none}
use mini_siem_project.Prelude.Text.{contains}
use mini_siem_project.Prelude.Int.{ℤ, div_floor}
use mini_siem_project.Types.Json.{Value, null}

pub data LogSeverity : Type 0 where
  critical high medium low info debug : LogSeverity

-- `impl Display for LogSeverity`
abbrev pub show_severity : LogSeverity → String
show_severity critical = "CRITICAL"
show_severity high = "HIGH"
show_severity medium = "MEDIUM"
show_severity low = "LOW"
show_severity info = "INFO"
show_severity debug = "DEBUG"

pub record Log : Type 0 where
  pub id : ℕ
  pub tenant_id : String
  pub timestamp : ℤ
  pub event_type : String
  pub source_ip : String
  pub target_user : Option String
  pub service : Option String
  pub message : String
  pub severity : LogSeverity
  pub metadata : Value
  pub received_at : ℤ

-- What a call reads from the outside: the clock and a fresh identifier.
pub record Call : Type 0 where
  pub now : ℤ
  pub fresh_id : ℕ

abbrev pub new_log : Call → String → String → String → String → Log
new_log c tenant_id event_type source_ip message = record {
  id = c.fresh_id;
  tenant_id = tenant_id;
  timestamp = c.now;
  event_type = event_type;
  source_ip = source_ip;
  target_user = none;
  service = none;
  message = message;
  severity = info;
  metadata = null;
  received_at = c.now;
}

-- The seconds of an instant, rounded down.
abbrev pub seconds : ℤ → ℤ
seconds t = div_floor t 1_000_000_000

unfoldable pub is_failed_login : Log → Bool
is_failed_login l =
    contains l.event_type "login_failed"
    || (contains l.message "Failed password" || contains l.message "authentication failure")

unfoldable pub is_successful_login : Log → Bool
is_successful_login l =
    contains l.event_type "login_success" || contains l.message "Accepted password"
