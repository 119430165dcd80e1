-- ===== src/Cases/Store.antt =====
-- Cases in the database: opening one for an alert, and changing one. Each query is one operation of
-- the database; the rest is the program's.
pub mod Laws
use mini_siem_project.Prelude.{
  ℕ, ◌*◌, ltb, Bool, true, false, ◌||◌, not, unwrap_or, String, Option, none, some, List, [], ◌∷◌,
  if◌then◌else◌,
}
use mini_siem_project.Prelude.Text.{◌++ₛ◌, str_eq}
use mini_siem_project.Prelude.Int.{ℤ, pos, ◌+ℤ◌, max_ℤ, pos_part}
use mini_siem_project.Prelude.Eff.{Result, Eff, pure, fail, ◌>>=◌, ◌>>◌, ignore_then}
use mini_siem_project.Types.Json.{Value, null, string, bool, array, object, nil, cons, end, field}
use mini_siem_project.Types.Log.{Call}
use mini_siem_project.Types.Alert.{Alert, show_alert_severity}
use mini_siem_project.Cases.Data.{
  CaseStatus, escalated, resolved, false_positive, closed, mitigated, new, CaseRecord, CasePlaybook,
  CaseTimelineEvent, CaseDetail, show_case_status, case_status_from_str,
}

-- The columns that an update sets.
pub record CaseUpdate : Type 0 where
  pub status : String
  pub owner_user_id : Option String
  pub owner_email : Option String
  pub outcome : Option String
  pub postmortem_summary : Option String
  pub escalated_at : Option ℤ
  pub resolved_at : Option ℤ

-- A line of a case's timeline, without its identifier and time.
pub record CaseEvent : Type 0 where
  pub tenant_id : String
  pub case_id : ℕ
  pub event_type : String
  pub message : String
  pub actor_user_id : Option String
  pub actor_email : Option String
  pub metadata : Value

-- The queries on the tables of cases.
pub record CaseTables (S : Type 0) : Type 0 where
  pub get_case_by_id : String → ℕ → Eff S (Option CaseRecord)
  pub get_case_by_alert_id : String → ℕ → Eff S (Option CaseRecord)
  -- UPDATE … RETURNING
  pub write_case : CaseUpdate → String → ℕ → Eff S CaseRecord
  -- INSERT … RETURNING
  pub insert_case : CaseRecord → Eff S CaseRecord
  pub insert_link : ℕ → ℕ → String → Eff S (Unit {0})
  pub record_case_event : CaseEvent → Eff S (Unit {0})
  pub count_playbooks : String → Eff S ℕ
  pub insert_playbook : CasePlaybook → Eff S (Unit {0})
  pub select_playbooks : String → Eff S (List CasePlaybook)
  pub get_case_playbook : String → ℕ → Eff S (Option CasePlaybook)
  pub list_case_alert_ids : String → ℕ → Eff S (List ℕ)
  pub list_case_timeline : String → ℕ → Eff S (List CaseTimelineEvent)

unfoldable pub or_string : Option String → Value
or_string none = null
or_string (some s) = string s

-- `a != b` of two optional texts.
unfoldable pub differ : Option String → Option String → Bool
differ none none = false
differ (some a) (some b) = not (str_eq a b)
differ none (some b) = true
differ (some a) none = true

unfoldable pub is_final : CaseStatus → Bool
is_final resolved = true
is_final false_positive = true
is_final closed = true
is_final mitigated = true
is_final _ = false

unfoldable pub is_escalated : CaseStatus → Bool
is_escalated escalated = true
is_escalated _ = false

-- The time that is there, else, where the test holds, the time of now.
unfoldable pub stamp : Bool → ℤ → Option ℤ → Option ℤ
stamp b now (some t) = some t
stamp true now none = some now
stamp false now none = none

-- What a caller asks for: a field that is `none` is to stay.
pub record Changes : Type 0 where
  pub status : Option CaseStatus
  pub owner_user_id : Option (Option String)
  pub owner_email : Option (Option String)
  pub outcome : Option (Option String)
  pub postmortem_summary : Option (Option String)

unfoldable pub next_status : (String → String) → Option CaseStatus → CaseRecord → CaseStatus
next_status to_uppercase status existing =
    unwrap_or (unwrap_or new (case_status_from_str to_uppercase existing.status)) status

unfoldable pub next_columns : (String → String) → ℤ → Changes → CaseRecord → CaseUpdate
unfolding next_status is_final is_escalated stamp
next_columns to_uppercase now changes existing =
    let next = next_status to_uppercase changes.status existing in
    record {
      status = show_case_status next;
      owner_user_id = unwrap_or existing.owner_user_id changes.owner_user_id;
      owner_email = unwrap_or existing.owner_email changes.owner_email;
      outcome = unwrap_or existing.outcome changes.outcome;
      postmortem_summary = unwrap_or existing.postmortem_summary changes.postmortem_summary;
      escalated_at = stamp (is_escalated next) now existing.escalated_at;
      resolved_at = stamp (is_final next) now existing.resolved_at;
    }

-- `metadata` with two entries.
abbrev pair : String → Value → String → Value → Value
pair k v l w = object (field k v (field l w end))

module _ {S : Type 0} (tables : CaseTables S) where
  abbrev pub when_event : Bool → CaseEvent → Eff S CaseRecord → Eff S CaseRecord
  when_event true e m = ignore_then (tables.record_case_event e) m
  when_event false e m = m

  -- The lines of the timeline for a change of status and for one of owner.
  unfoldable pub note_changes : String → ℕ → CaseUpdate → CaseRecord → CaseRecord → Eff S CaseRecord
  unfolding or_string differ
  note_changes tenant_id case_id next existing row =
      when_event (not (str_eq existing.status row.status))
        (record {
          tenant_id = tenant_id;
          case_id = case_id;
          event_type = "case.status_changed";
          message = "Case status changed from " ++ₛ existing.status ++ₛ " to " ++ₛ row.status;
          actor_user_id = next.owner_user_id;
          actor_email = next.owner_email;
          metadata = pair "from" (string existing.status) "to" (string row.status);
        })
        (when_event
          (differ existing.owner_user_id row.owner_user_id
            || differ existing.owner_email row.owner_email)
          (record {
            tenant_id = tenant_id;
            case_id = case_id;
            event_type = "case.owner_changed";
            message = "Case ownership updated";
            actor_user_id = next.owner_user_id;
            actor_email = next.owner_email;
            metadata =
                pair "owner_email" (or_string row.owner_email) "owner_user_id"
                  (or_string row.owner_user_id);
          })
          (pure row))

  abbrev pub or_not_found : Option CaseRecord → Eff S CaseRecord
  or_not_found none = fail "case not found"
  or_not_found (some c) = pure c

  unfoldable pub update_case : (String → String) → ℤ → String → ℕ → Changes → Eff S CaseRecord
  unfolding next_columns note_changes
  update_case to_uppercase now tenant_id case_id changes = do
    found ← tables.get_case_by_id tenant_id case_id
    existing ← or_not_found found
    row ← tables.write_case (next_columns to_uppercase now changes existing) tenant_id case_id
    note_changes tenant_id case_id (next_columns to_uppercase now changes existing) existing row

  abbrev pub optional_playbook : String → Option ℕ → Eff S (Option CasePlaybook)
  optional_playbook tenant_id none = pure none
  optional_playbook tenant_id (some id) = tables.get_case_playbook tenant_id id

  abbrev pub detail_of : String → ℕ → Option CaseRecord → Eff S (Option CaseDetail)
  detail_of tenant_id case_id none = pure none
  detail_of tenant_id case_id (some c) = do
    alerts ← tables.list_case_alert_ids tenant_id case_id
    timeline ← tables.list_case_timeline tenant_id case_id
    playbook ← optional_playbook tenant_id c.playbook_id
    pure (
        some
          (record { case_record = c; alerts = alerts; timeline = timeline; playbook = playbook }))

  unfoldable pub get_case_detail : String → ℕ → Eff S (Option CaseDetail)
  get_case_detail tenant_id case_id = do
    found ← tables.get_case_by_id tenant_id case_id
    detail_of tenant_id case_id found
