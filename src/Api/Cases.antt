-- ===== src/Api/Cases.antt =====
-- The handlers of cases: for analysts and admins of a tenant, within its quotas.
pub mod Timeline
pub mod Laws
use mini_siem_project.Prelude.{
  ℕ, Bool, true, false, ◌||◌, any, unwrap_or, String, Option, none, some, List, [], ◌∷◌,
  if◌then◌else◌,
}
use mini_siem_project.Prelude.Text.{◌++ₛ◌, str_eq, contains, trim, is_empty_str}
use mini_siem_project.Prelude.Eff.{Result, ok, err, Eff}
use mini_siem_project.Types.Json.{
  Value, Items, nil, cons, null, string, bool, array, object, field, end, get, as_str,
}
use mini_siem_project.Types.Log.{Call}
use mini_siem_project.Types.Alert.{Alert, show_alert_severity}
use mini_siem_project.Auth.Claims.{Claims}
use mini_siem_project.Cases.Data.{
  CaseRecord, CaseDetail, CasePlaybook, CreateCaseRequest, UpdateCaseRequest, AddCaseEventRequest,
  RunPlaybookRequest, investigating,
}
use mini_siem_project.Cases.Store.{
  CaseTables, CaseEvent, Changes, or_string, update_case, get_case_detail,
}
use mini_siem_project.Cases.Open.{create_case_from_alert, list_case_playbooks}
use mini_siem_project.Api.Handler.{
  Handler, Response, empty_body, done, respond, with_status, with_fields, outcome_of, perform,
  present, ◌>>=◌, ◌>>◌,
}
use mini_siem_project.Api.Tenant.{FixedWindow, enforce_tenant_fixed_window}
use mini_siem_project.Api.Audit.{AuditLog, record_case_audit}

-- The services behind the handlers, with the limits of a tenant in a minute.
pub record CaseServer (S : Type 0) : Type 0 where
  pub tables : CaseTables S
  pub audit : AuditLog S
  pub get_alert : String → ℕ → Eff S (Option Alert)
  pub list_cases : String → Eff S (List CaseRecord)
  pub allow_fixed_window : FixedWindow S
  pub api_requests_per_minute : ℕ
  pub rule_mutations_per_minute : ℕ
  pub to_uppercase : String → String
  pub show_id : ℕ → String

unfoldable pub require_case_roles : Claims → Bool
require_case_roles claims = any (str_eq "analyst") claims.roles || any (str_eq "admin") claims.roles

abbrev pub error_text : String → List (String × String)
error_text t = ("error", t) ∷ []

-- Every field of the request but the status is passed on as one to write, also when it is absent.
unfoldable pub changes_of : UpdateCaseRequest → Changes
changes_of body = record {
  status = body.status;
  owner_user_id = some body.owner_user_id;
  owner_email = some body.owner_email;
  outcome = some body.outcome;
  postmortem_summary = some body.postmortem_summary;
}

module _ {S R : Type 0} where
  unfoldable pub with_role : Option Claims → Handler S R Claims
  unfolding require_case_roles
  with_role auth = do
    claims ← present (record { status = 401; body = empty_body }) auth
    (if require_case_roles claims
        then done claims
        else with_fields 403 (error_text "insufficient role"))

  -- The checks before a handler: a token, a role, and the quota for what it does.
  unfoldable pub admitted : FixedWindow S → String → ℕ → Option Claims → Handler S R Claims
  unfolding with_role enforce_tenant_fixed_window
  admitted window resource limit auth = do
    claims ← with_role auth
    enforce_tenant_fixed_window window claims.tenant_id resource limit 1
    done claims

  -- A query that is to answer; its error ends the request with status 500.
  abbrev pub answered : {A : Type 0} → String → Eff S A → Handler S R A
  answered what m = do
    r ← outcome_of m
    (elim r [ ok a ↦ done a | err e ↦ with_fields 500 (error_text (what ++ₛ e)) ])

  -- A row that is to be there.
  abbrev pub found : {A : Type 0} → String → Option A → Handler S R A
  found what none = with_fields 404 (error_text (what ++ₛ " not found"))
  found what (some a) = done a

module _ {S : Type 0} (server : CaseServer S) where
  abbrev pub reads : {R : Type 0} → Option Claims → Handler S R Claims
  reads auth = admitted server.allow_fixed_window "api_requests" server.api_requests_per_minute auth

  abbrev pub writes : {R : Type 0} → Option Claims → Handler S R Claims
  writes auth =
      admitted server.allow_fixed_window "rule_mutations" server.rule_mutations_per_minute auth

  -- An audit event, whose errors are dropped.
  abbrev pub audited : {R : Type 0} → Call → Claims → String → ℕ → Value → Handler S R (Unit {0})
  audited c claims action case_id metadata =
      perform
        (record_case_audit server.audit c claims action (some (server.show_id case_id)) metadata)

  unfoldable pub list_cases_handler : Option Claims → Handler S (List CaseRecord) (Unit {0})
  unfolding admitted
  list_cases_handler auth = do
    claims ← reads auth
    cases ← answered "failed to list cases: " (server.list_cases claims.tenant_id)
    with_status 200 cases

  unfoldable pub get_case : Option Claims → ℕ → Handler S CaseDetail (Unit {0})
  unfolding admitted get_case_detail
  get_case auth case_id = do
    claims ← reads auth
    detail ←
        answered "failed to load case: " (get_case_detail server.tables claims.tenant_id case_id)
    case ← found "case" detail
    with_status 200 case

  unfoldable pub create_case :
      Call → Call → Option Claims → CreateCaseRequest → Handler S CaseRecord (Unit {0})
  unfolding admitted create_case_from_alert record_case_audit
  create_case c d auth body = do
    claims ← writes auth
    row ← answered "failed to load alert: " (server.get_alert claims.tenant_id body.alert_id)
    alert ← found "alert" row
    case ← answered "failed to create case: " (
        create_case_from_alert server.tables server.show_id c d alert (record {
          owner_user_id = body.owner_user_id;
          owner_email = body.owner_email;
          title = body.title;
          summary = body.summary;
          playbook_id = none;
        }))
    audited c claims "case.create" case.id (
        object (
          field "alert_id" (string (server.show_id alert.id))
            (field "severity" (string (show_alert_severity alert.severity)) end)))
    with_status 201 case

  abbrev pub update_answer : Call → Claims → Result CaseRecord → Handler S CaseRecord (Unit {0})
  update_answer c claims (ok case) = do
    audited c claims "case.update" case.id (
        object (
          field "outcome" (or_string case.outcome) (
            field "owner_email" (or_string case.owner_email) (
              field "owner_user_id" (or_string case.owner_user_id)
                (field "status" (string case.status) end)))))
    with_status 200 case
  update_answer c claims (err e) =
      if contains e "case not found"
      then with_fields 404 (error_text "case not found")
      else with_fields 500 (error_text ("failed to update case: " ++ₛ e))

  unfoldable pub update_case_handler :
      Call → Option Claims → ℕ → UpdateCaseRequest → Handler S CaseRecord (Unit {0})
  unfolding admitted changes_of update_case record_case_audit or_string
  update_case_handler c auth case_id body = do
    claims ← writes auth
    r ← outcome_of (
        update_case server.tables server.to_uppercase c.now claims.tenant_id case_id
          (changes_of body))
    update_answer c claims r
