-- ===== src/Tests/Cases.antt =====
-- Cases at concrete inputs.
use mini_siem_project.Prelude.{true, none, some, [], ◌∷◌, ◌≡◌, refl}
use mini_siem_project.Prelude.Int.{pos}
use mini_siem_project.Prelude.Eff.{ok}
use mini_siem_project.Auth.Claims.{Claims}
use mini_siem_project.Cases.Data.{
  CaseRecord, CaseStatus, investigating, resolved, closed, UpdateCaseRequest,
}
use mini_siem_project.Cases.Store.{update_case, Changes}
use mini_siem_project.Cases.Store.Laws.{timed, OneCase, one_case, update_all, Kept, update_all-Kept}
use mini_siem_project.Api.Audit.{record_audit, AuditLog, record_case_audit}
use mini_siem_project.Api.Cases.{CaseServer, require_case_roles, update_case_handler}
use mini_siem_project.Api.Cases.Laws.{on_one_case, update_case_handler-row}
use mini_siem_project.Tests.Samples.{call}

abbrev owned_case : CaseRecord
owned_case = record {
  id = 3;
  tenant_id = "acme";
  primary_alert_id = 7;
  title = "Brute force on 10.0.0.7";
  summary = "Two failed logins";
  severity = "HIGH";
  status = "NEW";
  owner_user_id = some "u2";
  owner_email = some "b@acme.example";
  playbook_id = none;
  sla_due_at = none;
  escalation_at = none;
  escalated_at = none;
  resolved_at = none;
  outcome = none;
  postmortem_summary = none;
  created_at = pos 4_000_000_000;
  updated_at = pos 4_000_000_000;
}

abbrev one : OneCase
one = record { clock = pos 5; row = owned_case; timeline = [] }

abbrev to_status : CaseStatus → Changes
to_status s = record {
  status = some s;
  owner_user_id = none;
  owner_email = none;
  outcome = none;
  postmortem_summary = none;
}

update_all-Kept_example :
    Kept
      (λ s. s)
      "acme"
      3
      owned_case
      (update_all
        (λ s. s)
        "acme"
        3
        ((pos 1, to_status resolved)
          ∷ (pos 2, to_status investigating)
          ∷ (pos 3, to_status closed)
          ∷ [])
        one).row
unfolding timed
update_all-Kept_example =
    update_all-Kept (λ s. s) "acme" 3
      ((pos 1, to_status resolved)
        ∷ (pos 2, to_status investigating)
        ∷ (pos 3, to_status closed)
        ∷ [])
      one refl

-- The time of the first closing is the one that stays.
first_closing :
    (update_all
      (λ s. s)
      "acme"
      3
      ((pos 1, to_status resolved)
        ∷ (pos 2, to_status investigating)
        ∷ (pos 3, to_status closed)
        ∷ [])
      one).row.resolved_at
    ≡ some (pos 1)
unfolding update_all update_case
first_closing = refl

abbrev quiet_audit : AuditLog OneCase
quiet_audit = record {
  latest_audit_hash = λ t s. (ok none, s);
  insert_audit_event = λ e s. (ok tt, s);
  hash_audit_payload = λ h v. ok "hash";
  sign_audit_hash = λ h. ok "signature";
}

abbrev case_server : CaseServer OneCase
case_server = record {
  tables = one_case;
  audit = quiet_audit;
  get_alert = λ t i s. (ok none, s);
  list_cases = λ t s. (ok [], s);
  allow_fixed_window = λ k w l n s. (ok true, s);
  api_requests_per_minute = 100;
  rule_mutations_per_minute = 10;
  to_uppercase = λ s. s;
  show_id = λ n. "id";
}

abbrev analyst : Claims
analyst = record {
  sub = "u1";
  tenant_id = "acme";
  email = "a@acme.example";
  roles = "analyst" ∷ [];
  iss = "mini-siem";
  aud = "mini-siem-api";
  token_use = none;
  jti = none;
  exp = 5003600;
  iat = 5000000;
}

abbrev only_status : UpdateCaseRequest
only_status = record {
  status = some investigating;
  owner_user_id = none;
  owner_email = none;
  outcome = none;
  postmortem_summary = none;
}

-- A request that sets the status only takes the case from its owner.
update_case_handler-row_example :
    (update_case_handler (on_one_case case_server) call (some analyst) 3 only_status one).1.row
    ≡ record owned_case {
      status = "INVESTIGATING";
      owner_user_id = none;
      owner_email = none;
      updated_at = pos 5;
    }
unfolding record_case_audit require_case_roles record_audit
update_case_handler-row_example =
    update_case_handler-row case_server (λ k w l n s. refl) (λ c claims a r m s. refl) call analyst
      3 only_status one refl
