-- ===== src/Detection/Normalization.antt =====
-- Logs to their normalised form (backend/src/utils/normalization.rs).
pub mod Laws
use mini_siem_project.Prelude.{String, ◌||◌, Option, none, some, List, [], ◌∷◌, ◌++◌, if◌then◌else◌}
use mini_siem_project.Prelude.Text.{str_eq}
use mini_siem_project.Types.Log.{Log, Call, show_severity, is_failed_login, is_successful_login}
use mini_siem_project.Types.Ecs.{EcsLog, new_ecs}
use mini_siem_project.Types.External.{External, Captures}

abbrev bind_option {ℓ κ} : {A : Type ℓ} {B : Type κ} → Option A → (A → Option B) → Option B
bind_option none f = none
bind_option (some a) f = f a

abbrev with_captures : External → EcsLog → Captures → EcsLog
with_captures x ecs caps = record ecs {
  user_name = caps.user;
  source_ip = caps.ip;
  source_port = bind_option caps.port x.parse_u16;
}

pub parse_ssh_log : External → String → EcsLog → EcsLog
parse_ssh_log x message ecs = elim (x.ssh_accepted message) [
  | some caps ↦ with_captures x ecs caps
  | none ↦ elim (x.ssh_failed message) [ some caps ↦ with_captures x ecs caps | none ↦ ecs ]
]

-- The fields that every log has.
abbrev base_fields : Log → EcsLog → EcsLog
base_fields log ecs = record ecs {
  timestamp = log.timestamp;
  event_id = log.id;
  message = some log.message;
  event_original = some log.message;
  source_ip = some log.source_ip;
  log_level = some (show_severity log.severity);
  event_kind = some "event";
}

-- The heuristic on logins: a failed one is tested first.
abbrev login_fields : Log → EcsLog → EcsLog
login_fields log ecs =
    if is_failed_login log
    then record ecs {
      event_category = ecs.event_category ++ "authentication" ∷ [];
      event_type = ecs.event_type ++ "authentication_failure" ∷ [];
      event_outcome = some "failure";
    }
    else if is_successful_login log
    then record ecs {
      event_category = ecs.event_category ++ "authentication" ∷ [];
      event_type = ecs.event_type ++ "authentication_success" ∷ [];
      event_outcome = some "success";
    }
    else ecs

abbrev insert_label : String → String → List (String × String) → List (String × String)
insert_label k v [] = (k, v) ∷ []
insert_label k v ((j, w) ∷ m) = if str_eq j k then (k, v) ∷ m else (j, w) ∷ insert_label k v m

abbrev service_fields : External → Log → Option String → EcsLog → EcsLog
service_fields x log none ecs = ecs
service_fields x log (some service) ecs =
    let labelled : EcsLog = record ecs { labels = insert_label "service" service ecs.labels } in
    if str_eq service "ssh" || str_eq service "sshd"
    then parse_ssh_log x log.message labelled
    else labelled

abbrev user_field : Option String → EcsLog → EcsLog
user_field none ecs = ecs
user_field (some user) ecs = record ecs { user_name = some user }

unfoldable pub normalize_log : External → Call → Log → EcsLog
unfolding parse_ssh_log
normalize_log x c log =
    user_field log.target_user
      (service_fields x log log.service (login_fields log (base_fields log (new_ecs c))))
