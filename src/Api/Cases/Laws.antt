-- ===== src/Api/Cases/Laws.antt =====
-- What an update of a case by a request writes.
use mini_siem_project.Prelude.{ℕ, String, true, false, Option, some, ◌≡◌, refl, ◌∙◌, if◌then◌else◌}
use mini_siem_project.Prelude.Eff.{Result, ok, err}
use mini_siem_project.Prelude.Text.{contains, ◌++ₛ◌}
use mini_siem_project.Types.Json.{Value}
use mini_siem_project.Types.Log.{Call}
use mini_siem_project.Auth.Claims.{Claims}
use mini_siem_project.Cases.Data.{CaseRecord, UpdateCaseRequest}
use mini_siem_project.Cases.Store.{update_case}
use mini_siem_project.Cases.Store.Laws.{
  OneCase, one_case, is_asked, expected_status, since, says_closed, says_escalated, update_case-row,
}
use mini_siem_project.Api.Handler.{with_fields}
use mini_siem_project.Api.Tenant.{enforce_tenant_fixed_window, quota_answer}
use mini_siem_project.Api.Audit.{record_case_audit}
use mini_siem_project.Api.Cases.{
  CaseServer, require_case_roles, with_role, admitted, update_case_handler, changes_of,
  update_answer, error_text,
}

-- The server over a database with one case.
abbrev pub on_one_case : CaseServer OneCase → CaseServer OneCase
on_one_case server = record server { tables = one_case }

module _ (server : CaseServer OneCase)
    (within_quota : (k : String) (w l n : ℕ) (s : OneCase)
      → server.allow_fixed_window k w l n s ≡ (ok true, s))
    (audit_leaves : (c : Call) (claims : Claims) (a : String) (r : Option String) (m : Value)
        (s : OneCase)
      → (record_case_audit server.audit c claims a r m s).1.row ≡ s.row) where
  update_answer-row :
      (c : Call) (claims : Claims) (r : Result CaseRecord) (s : OneCase)
      → (update_answer (on_one_case server) c claims r s).1.row ≡ s.row
  update_answer-row c claims (ok case) s = audit_leaves c claims _ _ _ s
  update_answer-row c claims (err e) s =
      elim (contains e "case not found")
        as (λ b.
          ((if b
              then with_fields {S = OneCase} {R = CaseRecord} {A = Unit {0}} 404
                  (error_text "case not found")
              else with_fields 500 (error_text ("failed to update case: " ++ₛ e)))
            s).1.row
          ≡ s.row) [ true ↦ refl | false ↦ refl ]

  -- A request with a role and within its quota that updates the case of the bearer's tenant and the
  -- identifier writes every column it may write: the status of the request, or the stored one where
  -- it has none, but the owner, the owner's address, the outcome and the summary of the request also
  -- where it has none, so that these are then lost; with the time of the update, and that of closing
  -- or escalation where it is the first. It leaves the case of another tenant or identifier as it is.
  -- This is for a database with one case and an audit that leaves cases alone.
  pub update_case_handler-row :
      (c : Call) (claims : Claims) (id : ℕ) (body : UpdateCaseRequest) (s : OneCase)
      → require_case_roles claims ≡ true
      → (update_case_handler (on_one_case server) c (some claims) id body s).1.row ≡ (
          let status = expected_status server.to_uppercase body.status s.row in
          if is_asked claims.tenant_id id s.row
          then record s.row {
            status = status;
            owner_user_id = body.owner_user_id;
            owner_email = body.owner_email;
            outcome = body.outcome;
            postmortem_summary = body.postmortem_summary;
            escalated_at = since (says_escalated status) c.now s.row.escalated_at;
            resolved_at = since (says_closed status) c.now s.row.resolved_at;
            updated_at = s.clock;
          }
          else s.row)
  unfolding update_case_handler admitted with_role enforce_tenant_fixed_window quota_answer
      changes_of
  update_case_handler-row c claims id body s role =
      let (r, s') =
        update_case one_case server.to_uppercase c.now claims.tenant_id id (changes_of body) s in
      rw (role, within_quota)
        (update_answer-row c claims r s'
          ∙ update_case-row server.to_uppercase claims.tenant_id id c.now (changes_of body) s)
