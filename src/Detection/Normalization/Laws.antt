-- ===== src/Detection/Normalization/Laws.antt =====
-- What a normalised log says of its source.
use mini_siem_project.Prelude.{
  String, Option, none, some, ◌≡◌, refl, ap, ◌∙◌, arith, if◌then◌else◌, ◌||◌,
}
use mini_siem_project.Prelude.Text.{str_eq}
use mini_siem_project.Types.Ecs.{EcsLog, new_ecs}
use mini_siem_project.Types.Log.{Log, Call, is_failed_login, is_successful_login}
use mini_siem_project.Types.External.{External, Captures}
use mini_siem_project.Detection.Normalization.{
  normalize_log, parse_ssh_log, user_field, service_fields, login_fields, base_fields, insert_label,
}

outcome_user :
    (u : Option String) (ecs : EcsLog) → (user_field u ecs).event_outcome ≡ ecs.event_outcome
outcome_user none ecs = refl
outcome_user (some u) ecs = refl

outcome_ssh :
    (x : External) (m : String) (ecs : EcsLog)
    → (parse_ssh_log x m ecs).event_outcome ≡ ecs.event_outcome
unfolding parse_ssh_log
outcome_ssh x m ecs = ground arith

outcome_service :
    (x : External) (log : Log) (s : Option String) (ecs : EcsLog)
    → (service_fields x log s ecs).event_outcome ≡ ecs.event_outcome
outcome_service x log none ecs = refl
outcome_service x log (some s) ecs =
    ground (
      arith,
      outcome_ssh x log.message (record ecs { labels = insert_label "service" s ecs.labels }),
    )

outcome_login :
    (log : Log) (ecs : EcsLog)
    → ecs.event_outcome ≡ none
    → (login_fields log (base_fields log ecs)).event_outcome ≡ (
        if is_failed_login log
        then some "failure"
        else if is_successful_login log
        then some "success"
        else none)
outcome_login log ecs e = ground arith

abbrev captured_user : Option Captures → Option Captures → Option String
captured_user (some accepted) failed = accepted.user
captured_user none (some failed) = failed.user
captured_user none none = none

-- The user that the service's own format names.
abbrev ssh_user : External → Option String → String → Option String
ssh_user x none message = none
ssh_user x (some s) message =
    if str_eq s "ssh" || str_eq s "sshd"
    then captured_user (x.ssh_accepted message) (x.ssh_failed message)
    else none

abbrev or_else : Option String → Option String → Option String
or_else (some u) v = some u
or_else none v = v

user_field_name :
    (u : Option String) (ecs : EcsLog) → (user_field u ecs).user_name ≡ or_else u ecs.user_name
user_field_name none ecs = refl
user_field_name (some u) ecs = refl

service_name :
    (x : External) (log : Log) (s : Option String) (ecs : EcsLog)
    → ecs.user_name ≡ none
    → (service_fields x log s ecs).user_name ≡ ssh_user x s log.message
unfolding parse_ssh_log
service_name x log none ecs e = e
service_name x log (some s) ecs e = ground arith

login_name :
    (log : Log) (ecs : EcsLog) → ecs.user_name ≡ none → (login_fields log ecs).user_name ≡ none
login_name log ecs e = ground arith

-- The outcome of a normalised log is `failure` for a failed login, also where the same log reads as
-- a successful one, else `success` for a successful login, else it is absent: whatever the service.
pub event_outcome-normalize_log :
    (x : External) (c : Call) (log : Log)
    → (normalize_log x c log).event_outcome ≡ (
        if is_failed_login log
        then some "failure"
        else if is_successful_login log
        then some "success"
        else none)
unfolding normalize_log
event_outcome-normalize_log x c log =
    outcome_user log.target_user _
    ∙ outcome_service x log log.service _
    ∙ outcome_login log (new_ecs c) refl

-- The user of a normalised log is the log's target user where it has one. Else, for the services
-- `ssh` and `sshd`, it is the user group of the message's accepted line, else of its failed line;
-- for any other log there is none.
pub user_name-normalize_log :
    (x : External) (c : Call) (log : Log)
    → (normalize_log x c log).user_name
      ≡ or_else log.target_user (ssh_user x log.service log.message)
unfolding normalize_log
user_name-normalize_log x c log =
    user_field_name log.target_user _
    ∙ ap (or_else log.target_user)
        (service_name x log log.service _ (login_name log (base_fields log (new_ecs c)) refl))
