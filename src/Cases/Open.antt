-- ===== src/Cases/Open.antt =====
-- Opening a case for an alert, the playbook that a tenant starts with, and the round that escalates
-- what is overdue.
use mini_siem_project.Prelude.{
  ℕ, ◌+◌, ◌*◌, ltb, Bool, true, false, unwrap_or, String, Option, none, some, List, [], ◌∷◌,
  if◌then◌else◌,
}
use mini_siem_project.Prelude.Text.{◌++ₛ◌, str_eq}
use mini_siem_project.Prelude.Int.{ℤ, pos, ◌+ℤ◌, max_ℤ, pos_part}
use mini_siem_project.Prelude.Eff.{Eff, pure, ◌>>=◌, ◌>>◌, ignore_then}
use mini_siem_project.Types.Json.{
  Value, Items, null, string, bool, array, object, nil, cons, end, field,
}
use mini_siem_project.Types.Log.{Call}
use mini_siem_project.Types.Alert.{Alert, show_alert_severity}
use mini_siem_project.Cases.Data.{CaseRecord, CasePlaybook, new, escalated, show_case_status}
use mini_siem_project.Cases.Store.{CaseTables, CaseEvent, or_string, update_case}

abbrev step : String → String → String → Bool → String → Value
step title action description automated details = object (
    field "action_type" (string action) (
      field "automated" (bool automated) (
        field "description" (string description)
          (field "details" (string details) (field "title" (string title) end)))))

abbrev default_steps : Items
default_steps =
    cons
      (step "Confirm owner" "assign" "Assign the case to the on-call responder or analyst" false
        "Review the alert, then set ownership")
      (cons
        (step "Contain source" "containment" "Block or isolate the suspicious source until verified"
          false "Use firewall, EDR, or account controls")
        (cons
          (step "Capture evidence" "collect" "Attach logs, screenshots, and notes to the timeline"
            true "Use the case timeline for evidence preservation")
          nil))

unfoldable pub default_playbook : Call → String → CasePlaybook
default_playbook c tenant_id = record {
  id = c.fresh_id;
  tenant_id = tenant_id;
  name = "Default incident response";
  description =
      "Triaged case path that links alert, ownership, escalation, and postmortem evidence.";
  severity = "HIGH";
  sla_minutes = pos 60;
  escalate_after_minutes = pos 120;
  steps = array default_steps;
  is_enabled = true;
  created_at = c.now;
  updated_at = c.now;
}

abbrev first_enabled : List CasePlaybook → Option CasePlaybook
first_enabled [] = none
first_enabled (p ∷ ps) = if p.is_enabled then some p else first_enabled ps

-- So many minutes later, one at least.
abbrev minutes_after : ℤ → ℤ → ℤ
minutes_after now minutes = now +ℤ pos (pos_part (max_ℤ minutes (pos 1)) * 60_000_000_000)

abbrev sla_of : Option CasePlaybook → ℤ
sla_of none = pos 60
sla_of (some p) = p.sla_minutes

abbrev escalate_after_of : Option CasePlaybook → ℤ
escalate_after_of none = pos 120
escalate_after_of (some p) = p.escalate_after_minutes

abbrev id_of : Option CasePlaybook → Option ℕ
id_of none = none
id_of (some p) = some p.id

-- What a caller of `create_case_from_alert` may give.
pub record CaseWishes : Type 0 where
  pub owner_user_id : Option String
  pub owner_email : Option String
  pub title : Option String
  pub summary : Option String
  pub playbook_id : Option ℕ

unfoldable pub new_case : Call → Alert → CaseWishes → Option CasePlaybook → CaseRecord
new_case c alert wishes playbook = record {
  id = c.fresh_id;
  tenant_id = alert.tenant_id;
  primary_alert_id = alert.id;
  title = unwrap_or (alert.rule_name ++ₛ " on " ++ₛ alert.source_ip) wishes.title;
  summary = unwrap_or alert.description wishes.summary;
  severity = show_alert_severity alert.severity;
  status = show_case_status new;
  owner_user_id = wishes.owner_user_id;
  owner_email = wishes.owner_email;
  playbook_id = id_of playbook;
  sla_due_at = some (minutes_after c.now (sla_of playbook));
  escalation_at = some (minutes_after c.now (escalate_after_of playbook));
  escalated_at = none;
  resolved_at = none;
  outcome = none;
  postmortem_summary = none;
  created_at = c.now;
  updated_at = c.now;
}

-- `show_id` is the text of an identifier.
module _ {S : Type 0} (tables : CaseTables S) (show_id : ℕ → String) where
  abbrev or_id : Option ℕ → Value
  or_id none = null
  or_id (some n) = string (show_id n)

  -- The call `c` is that of the playbook: its identifier and time.
  unfoldable pub ensure_default_case_playbooks : Call → String → Eff S (Unit {0})
  unfolding default_playbook
  ensure_default_case_playbooks c tenant_id = do
    existing ← tables.count_playbooks tenant_id
    (if ltb 0 existing then pure tt else tables.insert_playbook (default_playbook c tenant_id))

  unfoldable pub list_case_playbooks : Call → String → Eff S (List CasePlaybook)
  unfolding ensure_default_case_playbooks
  list_case_playbooks c tenant_id = do
    ensure_default_case_playbooks c tenant_id
    tables.select_playbooks tenant_id

  abbrev pick_playbook : Call → String → Option ℕ → Eff S (Option CasePlaybook)
  pick_playbook c tenant_id (some id) = tables.get_case_playbook tenant_id id
  pick_playbook c tenant_id none = do
    playbooks ← list_case_playbooks c tenant_id
    pure (first_enabled playbooks)

  abbrev event : Alert → ℕ → String → String → Option String → Option String → Value → CaseEvent
  event alert case_id event_type message user email metadata = record {
    tenant_id = alert.tenant_id;
    case_id = case_id;
    event_type = event_type;
    message = message;
    actor_user_id = user;
    actor_email = email;
    metadata = metadata;
  }

  abbrev note_playbook : Alert → ℕ → Option CasePlaybook → Eff S (Unit {0})
  note_playbook alert case_id none = pure tt
  note_playbook alert case_id (some p) = tables.record_case_event (
      event alert case_id "playbook.assigned" ("Playbook '" ++ₛ p.name ++ₛ "' assigned to case")
        none none
        (object (
          field "playbook_id" (string (show_id p.id))
            (field "playbook_name" (string p.name) (field "steps" p.steps end)))))

  -- The first lines of a case's timeline, whose errors are dropped.
  unfoldable pub note_opened :
      Alert → ℕ → CaseWishes → Option CasePlaybook → CaseRecord → Eff S CaseRecord
  unfolding or_string
  note_opened alert case_id wishes playbook row =
      ignore_then
        (tables.record_case_event (
          event alert case_id "case.created" "Case created from incoming alert" wishes.owner_user_id
            wishes.owner_email
            (object (
              field "alert_id" (string (show_id alert.id)) (
                field "playbook_id" (or_id (id_of playbook))
                  (field "severity" (string (show_alert_severity alert.severity)) end))))))
        (ignore_then
          (tables.record_case_event (
            event alert case_id "alert.linked" "Primary alert linked to case" none none (
              object (
                field "alert_id" (string (show_id alert.id)) (
                  field "rule_id" (string alert.rule_id)
                    (field "source_ip" (string alert.source_ip) end))))))
          (ignore_then (note_playbook alert case_id playbook) (pure row)))

  abbrev open_case : Call → Call → Alert → CaseWishes → Eff S CaseRecord
  open_case c d alert wishes = do
    ensure_default_case_playbooks d alert.tenant_id
    playbook ← pick_playbook d alert.tenant_id wishes.playbook_id
    row ← tables.insert_case (new_case c alert wishes playbook)
    tables.insert_link c.fresh_id alert.id alert.tenant_id
    note_opened alert c.fresh_id wishes playbook row

  abbrev or_open : Call → Call → Alert → CaseWishes → Option CaseRecord → Eff S CaseRecord
  or_open c d alert wishes (some existing) = pure existing
  or_open c d alert wishes none = open_case c d alert wishes

  -- `c` is the call for the case, `d` that for a playbook, should the tenant have none.
  unfoldable pub create_case_from_alert : Call → Call → Alert → CaseWishes → Eff S CaseRecord
  unfolding new_case note_opened list_case_playbooks ensure_default_case_playbooks
  create_case_from_alert c d alert wishes = do
    existing ← tables.get_case_by_alert_id alert.tenant_id alert.id
    or_open c d alert wishes existing

  -- The overdue cases, one after the other; the first error ends the round. The result is the number
  -- of cases that are escalated now.
  unfoldable pub escalate_all : (String → String) → ℤ → List CaseRecord → Eff S ℕ
  unfolding update_case
  escalate_all to_uppercase now [] = pure 0
  escalate_all to_uppercase now (c ∷ cs) = do
    updated ← update_case tables to_uppercase now c.tenant_id c.id (record {
      status = some escalated;
      owner_user_id = none;
      owner_email = none;
      outcome = none;
      postmortem_summary = none;
    })
    n ← escalate_all to_uppercase now cs
    pure ((if str_eq updated.status "ESCALATED" then 1 else 0) + n)

  unfoldable pub escalate_overdue_cases : (String → String) → ℤ → Eff S (List CaseRecord) → Eff S ℕ
  unfolding escalate_all
  escalate_overdue_cases to_uppercase now overdue = do
    cs ← overdue
    escalate_all to_uppercase now cs
