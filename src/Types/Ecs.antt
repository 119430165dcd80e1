-- ===== src/Types/Ecs.antt =====
-- The normalised form of a log entry (backend/src/types/ecs.rs).
use mini_siem_project.Prelude.{ℕ, String, Option, none, List, []}
use mini_siem_project.Prelude.Int.{ℤ}
use mini_siem_project.Types.Log.{Call}

pub record EcsLog : Type 0 where
  pub timestamp : ℤ
  pub log_level : Option String
  pub message : Option String
  pub event_kind : Option String
  pub event_category : List String
  pub event_type : List String
  pub event_outcome : Option String
  pub source_ip : Option String
  pub source_port : Option ℕ
  pub destination_ip : Option String
  pub destination_port : Option ℕ
  pub user_name : Option String
  pub user_id : Option String
  pub host_name : Option String
  pub host_ip : List String
  pub process_name : Option String
  pub process_pid : Option ℕ
  pub process_executable : Option String
  pub process_args : List String
  pub labels : List (String × String)
  pub tags : List String
  pub event_original : Option String
  pub event_id : ℕ

abbrev pub new_ecs : Call → EcsLog
new_ecs c = record {
  timestamp = c.now;
  log_level = none;
  message = none;
  event_kind = none;
  event_category = [];
  event_type = [];
  event_outcome = none;
  source_ip = none;
  source_port = none;
  destination_ip = none;
  destination_port = none;
  user_name = none;
  user_id = none;
  host_name = none;
  host_ip = [];
  process_name = none;
  process_pid = none;
  process_executable = none;
  process_args = [];
  labels = [];
  tags = [];
  event_original = none;
  event_id = c.fresh_id;
}
