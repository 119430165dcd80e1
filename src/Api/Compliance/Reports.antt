-- ===== src/Api/Compliance/Reports.antt =====
-- The access review of a tenant and the bundle of its evidence.
use mini_siem_project.Prelude.{
  ℕ, zero, suc, ◌*◌, any, retain, map, String, Option, some, List, [], ◌∷◌, length,
}
use mini_siem_project.Prelude.Int.{ℤ, pos, ◌-ℤ◌}
use mini_siem_project.Prelude.Text.{str_eq}
use mini_siem_project.Types.Json.{Value, bool, string, array, object, field, end, int, items}
use mini_siem_project.Types.Log.{Call}
use mini_siem_project.Auth.Claims.{Claims}
use mini_siem_project.Auth.Users.{User}
use mini_siem_project.Compliance.{
  TenantCompliancePolicy, AccessReviewUser, ComplianceEvidenceBundle, get_tenant_compliance_policy,
}
use mini_siem_project.Api.Handler.{Handler, with_status, ◌>>=◌, ◌>>◌}
use mini_siem_project.Api.Audit.{AuditEvent}
use mini_siem_project.Api.Compliance.{
  ComplianceServer, admin_claims, queried, record_compliance_audit, target_of, or_null,
}

unfoldable pub review_user : User → AccessReviewUser
review_user user = record {
  id = user.id;
  tenant_id = user.tenant_id;
  email = user.email;
  role = user.role;
}

abbrev pub take {ℓ} : {A : Type ℓ} → ℕ → List A → List A
take zero xs = []
take (suc n) [] = []
take (suc n) (x ∷ xs) = x ∷ take n xs

abbrev pub counted_as : String → List AccessReviewUser → ℕ
counted_as role users = length (retain (λ user. str_eq user.role role) users)

-- The events whose actor was an admin then.
abbrev pub admin_actions : List AuditEvent → ℕ
admin_actions events = length (retain (λ event. any (str_eq "admin") event.actor_roles) events)

abbrev days_before : ℕ → ℤ → ℤ
days_before days now = now -ℤ pos (days * 86_400_000_000_000)

module _ (show_id : ℕ → String) (show_time : ℤ → String) where
  abbrev user_value : AccessReviewUser → Value
  user_value user = object (
      field "email" (string user.email) (
        field "id" (string (show_id user.id))
          (field "role" (string user.role) (field "tenant_id" (string user.tenant_id) end))))

  unfoldable pub access_review_summary : List AccessReviewUser → List AuditEvent → Value
  access_review_summary users audit_events = object (
      field "admin_count" (int (pos (counted_as "admin" users))) (
        field "analyst_count" (int (pos (counted_as "analyst" users))) (
          field "recent_admin_actions" (int (pos (admin_actions audit_events))) (
            field "user_count" (int (pos (length users)))
              (field "users" (array (items (map user_value users))) end)))))

  abbrev action_value : AuditEvent → Value
  action_value event = object (
      field "action" (string event.action) (
        field "actor_email" (string event.actor_email)
          (field "created_at" (string (show_time event.created_at)) end)))

  unfoldable pub audit_summary : List AuditEvent → Value
  audit_summary events = object (
      field "event_count" (int (pos (length events))) (
        field "recent_actions" (array (items (map action_value (take 10 events))))
          (field "window_days" (int (pos 30)) end)))

  unfoldable pub retention_summary : TenantCompliancePolicy → Value
  retention_summary p = object (
      field "evidence_export_enabled" (bool p.evidence_export_enabled) (
        field "key_rotation_interval_days" (int p.key_rotation_interval_days) (
          field "last_key_rotation_at" (or_null (λ t. string (show_time t)) p.last_key_rotation_at)
            (field "legal_hold" (bool p.legal_hold) (
              field "legal_hold_reason" (or_null string p.legal_hold_reason) (
                field "legal_hold_until" (or_null (λ t. string (show_time t)) p.legal_hold_until)
                  (field "retention_days" (int p.retention_days) end)))))))

module _ {S : Type 0} (server : ComplianceServer S) where
  open server use {fetch_policy, list_users_by_tenant, list_audit_events_since, show_id, show_time}

  abbrev querying : {R : Type 0} → Option Claims → Handler S R Claims
  querying auth = admin_claims server "audit_queries" server.audit_queries_per_minute auth

  unfoldable pub access_review : Call → Option Claims → Option String → Handler S Value (Unit {0})
  unfolding admin_claims record_compliance_audit review_user access_review_summary
  access_review c auth tenant_id = do
    claims ← querying auth
    let target = target_of claims tenant_id
    rows ← queried server "failed to load users: " (list_users_by_tenant target)
    let users = map review_user rows
    audit_events ←
        queried server "failed to load audit events: "
          (list_audit_events_since target (days_before 90 c.now))
    record_compliance_audit server c claims "compliance.access_review.view" (some target)
        (object (field "user_count" (int (pos (length users))) end))
    with_status 200 (access_review_summary show_id show_time users audit_events)

  -- The flag `evidence_export_enabled` of the policy is reported, but not asked.
  unfoldable pub evidence_bundle :
      Call → Option Claims → Option String → Handler S ComplianceEvidenceBundle (Unit {0})
  unfolding admin_claims record_compliance_audit get_tenant_compliance_policy review_user
  evidence_bundle c auth tenant_id = do
    claims ← querying auth
    let target = target_of claims tenant_id
    policy ←
        queried server "failed to load policy: "
          (get_tenant_compliance_policy fetch_policy c.now target)
    rows ← queried server "failed to load users: " (list_users_by_tenant target)
    let users = map review_user rows
    audit_events ←
        queried server "failed to load audit events: "
          (list_audit_events_since target (days_before 30 c.now))
    record_compliance_audit server c claims "compliance.evidence.export" (some target)
        (object (field "event_count" (int (pos (length audit_events))) end))
    with_status 200 (record {
      tenant_id = target;
      generated_at = c.now;
      policy = policy;
      access_review = access_review_summary show_id show_time users audit_events;
      audit_summary = audit_summary show_id show_time audit_events;
      retention_summary = retention_summary show_id show_time policy;
    })
