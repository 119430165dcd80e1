-- ===== src/Cases/Data.antt =====
-- The data of cases.
use mini_siem_project.Prelude.{ℕ, String, Bool, Option, none, some, List, if◌then◌else◌, ◌≡◌}
use mini_siem_project.Prelude.Text.{str_eq}
use mini_siem_project.Prelude.Int.{ℤ}
use mini_siem_project.Types.Json.{Value}

pub data CaseStatus : Type 0 where
  new investigating awaiting_customer mitigated resolved false_positive escalated closed :
      CaseStatus

abbrev pub show_case_status : CaseStatus → String
show_case_status new = "NEW"
show_case_status investigating = "INVESTIGATING"
show_case_status awaiting_customer = "AWAITINGCUSTOMER"
show_case_status mitigated = "MITIGATED"
show_case_status resolved = "RESOLVED"
show_case_status false_positive = "FALSEPOSITIVE"
show_case_status escalated = "ESCALATED"
show_case_status closed = "CLOSED"

-- The text is compared after `to_uppercase`, which the first argument stands for.
unfoldable pub case_status_from_str : (String → String) → String → Option CaseStatus
case_status_from_str to_uppercase s =
    let u = to_uppercase s in
    if str_eq u "NEW"
    then some new
    else if str_eq u "INVESTIGATING"
    then some investigating
    else if str_eq u "AWAITINGCUSTOMER"
    then some awaiting_customer
    else if str_eq u "MITIGATED"
    then some mitigated
    else if str_eq u "RESOLVED"
    then some resolved
    else if str_eq u "FALSEPOSITIVE"
    then some false_positive
    else if str_eq u "ESCALATED"
    then some escalated
    else if str_eq u "CLOSED"
    then some closed
    else none

pub case_status_from_str-show :
    (to_uppercase : String → String)
    → ((c : CaseStatus) → to_uppercase (show_case_status c) ≡ show_case_status c)
    → (c : CaseStatus) → case_status_from_str to_uppercase (show_case_status c) ≡ some c
unfolding case_status_from_str
case_status_from_str-show u h new = rw (h new)
case_status_from_str-show u h investigating = rw (h investigating)
case_status_from_str-show u h awaiting_customer = rw (h awaiting_customer)
case_status_from_str-show u h mitigated = rw (h mitigated)
case_status_from_str-show u h resolved = rw (h resolved)
case_status_from_str-show u h false_positive = rw (h false_positive)
case_status_from_str-show u h escalated = rw (h escalated)
case_status_from_str-show u h closed = rw (h closed)

pub record CaseRecord : Type 0 where
  pub id : ℕ
  pub tenant_id : String
  pub primary_alert_id : ℕ
  pub title : String
  pub summary : String
  pub severity : String
  pub status : String
  pub owner_user_id : Option String
  pub owner_email : Option String
  pub playbook_id : Option ℕ
  pub sla_due_at : Option ℤ
  pub escalation_at : Option ℤ
  pub escalated_at : Option ℤ
  pub resolved_at : Option ℤ
  pub outcome : Option String
  pub postmortem_summary : Option String
  pub created_at : ℤ
  pub updated_at : ℤ

pub record CasePlaybook : Type 0 where
  pub id : ℕ
  pub tenant_id : String
  pub name : String
  pub description : String
  pub severity : String
  pub sla_minutes : ℤ
  pub escalate_after_minutes : ℤ
  pub steps : Value
  pub is_enabled : Bool
  pub created_at : ℤ
  pub updated_at : ℤ

pub record CaseTimelineEvent : Type 0 where
  pub id : ℕ
  pub case_id : ℕ
  pub tenant_id : String
  pub event_type : String
  pub message : String
  pub actor_user_id : Option String
  pub actor_email : Option String
  pub metadata : Value
  pub created_at : ℤ

pub record CaseDetail : Type 0 where
  pub case_record : CaseRecord
  pub alerts : List ℕ
  pub timeline : List CaseTimelineEvent
  pub playbook : Option CasePlaybook

pub record CreateCaseRequest : Type 0 where
  pub alert_id : ℕ
  pub owner_user_id : Option String
  pub owner_email : Option String
  pub title : Option String
  pub summary : Option String

pub record UpdateCaseRequest : Type 0 where
  pub status : Option CaseStatus
  pub owner_user_id : Option String
  pub owner_email : Option String
  pub outcome : Option String
  pub postmortem_summary : Option String

pub record AddCaseEventRequest : Type 0 where
  pub event_type : String
  pub message : String
  pub metadata : Option Value

pub record RunPlaybookRequest : Type 0 where
  pub playbook_id : Option ℕ
