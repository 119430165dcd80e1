-- ===== src/Api/Cases/Timeline.antt =====
-- The handlers that add to the timeline of a case: an event by hand, and the run of a playbook.
use mini_siem_project.Prelude.{
  ℕ, Bool, false, ◌||◌, unwrap_or, String, Option, none, some, List, [], ◌∷◌, if◌then◌else◌,
}
use mini_siem_project.Prelude.Text.{◌++ₛ◌, trim, is_empty_str}
use mini_siem_project.Types.Json.{Value, string, bool, object, field, end, get, as_str, as_array}
use mini_siem_project.Types.Log.{Call}
use mini_siem_project.Auth.Claims.{Claims}
use mini_siem_project.Cases.Data.{
  CasePlaybook, AddCaseEventRequest, RunPlaybookRequest, investigating,
}
use mini_siem_project.Cases.Store.{CaseEvent, update_case}
use mini_siem_project.Cases.Open.{list_case_playbooks}
use mini_siem_project.Api.Handler.{Handler, done, with_status, with_fields, perform, ◌>>=◌, ◌>>◌}
use mini_siem_project.Api.Audit.{record_case_audit}
use mini_siem_project.Api.Cases.{
  CaseServer, error_text, admitted, with_role, answered, found, writes, audited,
}

abbrev pub or_playbook : Option ℕ → Option ℕ → Option ℕ
or_playbook (some n) other = some n
or_playbook none other = other

abbrev as_bool : Value → Option Bool
as_bool (bool b) = some b
as_bool _ = none

abbrev text_at : String → String → Value → String
text_at key default step = elim (get step key) [
  | none ↦ default
  | some v ↦ unwrap_or default (as_str v)
]

abbrev is_automated : Value → Bool
is_automated step = elim (get step "automated") [
  | none ↦ false
  | some v ↦ unwrap_or false (as_bool v)
]

abbrev case_event : Claims → ℕ → String → String → Value → CaseEvent
case_event claims case_id event_type message metadata = record {
  tenant_id = claims.tenant_id;
  case_id = case_id;
  event_type = event_type;
  message = message;
  actor_user_id = some claims.sub;
  actor_email = some claims.email;
  metadata = metadata;
}

-- The line of the timeline for one step of a playbook.
unfoldable pub step_event : Claims → ℕ → Value → CaseEvent
step_event claims case_id step =
    let title = text_at "title" "Unnamed step" step in
    case_event claims case_id
      (if is_automated step then "playbook.step.automated" else "playbook.step.manual") title
      (object (
        field "action_type" (string (text_at "action_type" "manual" step)) (
          field "automated" (bool (is_automated step)) (
            field "description" (string (text_at "description" title step))
              (field "title" (string title) end)))))

abbrev steps_of : CasePlaybook → List Value
steps_of p = unwrap_or [] (as_array p.steps)

module _ {S : Type 0} (server : CaseServer S) where
  abbrev ok_answer : {R : Type 0} → ℕ → List (String × String) → Handler S R (Unit {0})
  ok_answer status more = with_fields status (("status", "ok") ∷ more)

  unfoldable pub add_timeline_event :
      Call → Option Claims → ℕ → AddCaseEventRequest → Handler S (Unit {0}) (Unit {0})
  unfolding admitted record_case_audit
  add_timeline_event c auth case_id body = do
    claims ← writes server auth
    let event_type = trim body.event_type
    (if is_empty_str event_type || is_empty_str (trim body.message)
        then with_fields 400 (error_text "event_type and message are required")
        else done tt)
    row ← answered "failed to load case: " (server.tables.get_case_by_id claims.tenant_id case_id)
    case ← found "case" row
    answered "failed to add timeline event: " (
        server.tables.record_case_event (
          case_event claims case.id event_type body.message (unwrap_or (object end) body.metadata)))
    audited server c claims "case.timeline_event" case.id (
        object (field "event_type" (string event_type) (field "message" (string body.message) end)))
    ok_answer 201 []

  abbrev chosen_playbook : Claims → Option ℕ → Handler S (Unit {0}) CasePlaybook
  chosen_playbook claims none = with_fields 400 (error_text "case has no playbook")
  chosen_playbook claims (some id) = do
    row ← answered "failed to load playbook: " (server.tables.get_case_playbook claims.tenant_id id)
    found "playbook" row

  unfoldable pub record_steps : Claims → ℕ → List Value → Handler S (Unit {0}) (Unit {0})
  unfolding step_event
  record_steps claims case_id [] = done tt
  record_steps claims case_id (step ∷ steps) = do
    perform (server.tables.record_case_event (step_event claims case_id step))
    record_steps claims case_id steps

  abbrev playbook_value : CasePlaybook → Value
  playbook_value p = object (
      field "playbook_id" (string (server.show_id p.id))
        (field "playbook_name" (string p.name) end))

  unfoldable pub run_playbook :
      Call → Option Claims → ℕ → RunPlaybookRequest → Handler S (Unit {0}) (Unit {0})
  unfolding admitted update_case record_steps record_case_audit
  run_playbook c auth case_id body = do
    claims ← writes server auth
    row ← answered "failed to load case: " (server.tables.get_case_by_id claims.tenant_id case_id)
    case ← found "case" row
    playbook ← chosen_playbook claims (or_playbook body.playbook_id case.playbook_id)
    perform (
        update_case server.tables server.to_uppercase c.now claims.tenant_id case.id (record {
          status = some investigating;
          owner_user_id = none;
          owner_email = none;
          outcome = none;
          postmortem_summary = none;
        }))
    perform (
        server.tables.record_case_event (
          case_event claims case.id "playbook.started"
            ("Playbook '" ++ₛ playbook.name ++ₛ "' started") (playbook_value playbook)))
    record_steps claims case.id (steps_of playbook)
    audited server c claims "case.playbook_run" case.id (playbook_value playbook)
    ok_answer 200 (("playbook", playbook.name) ∷ [])

  -- The only one of the handlers that asks for no quota.
  unfoldable pub list_playbooks : Call → Option Claims → Handler S (List CasePlaybook) (Unit {0})
  unfolding with_role list_case_playbooks
  list_playbooks c auth = do
    claims ← with_role auth
    playbooks ←
        answered "failed to list playbooks: "
          (list_case_playbooks server.tables server.show_id c claims.tenant_id)
    with_status 200 playbooks
