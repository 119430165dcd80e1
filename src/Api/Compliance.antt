-- ===== src/Api/Compliance.antt =====
-- The handlers of compliance (backend/src/api/handlers/compliance.rs): the policy of a tenant, key
-- rotations, the access review and the evidence.
pub mod Reports
pub mod Laws
use mini_siem_project.Prelude.{
  ℕ, Bool, any, unwrap_or, String, Option, none, some, List, [], ◌∷◌, length, if◌then◌else◌,
}
use mini_siem_project.Prelude.Int.{ℤ, pos, max_ℤ}
use mini_siem_project.Prelude.Text.{◌++ₛ◌, str_eq}
use mini_siem_project.Prelude.Eff.{Result, ok, err, Eff}
use mini_siem_project.Types.Json.{Value, null, bool, string, object, field, end, int}
use mini_siem_project.Types.Log.{Call}
use mini_siem_project.Auth.Claims.{Claims}
use mini_siem_project.Auth.Users.{User}
use mini_siem_project.Compliance.{TenantCompliancePolicy, get_tenant_compliance_policy}
use mini_siem_project.Api.Handler.{
  Handler, empty_body, done, with_status, with_fields, outcome_of, present, ◌>>=◌, ◌>>◌,
}
use mini_siem_project.Api.Tenant.{FixedWindow, enforce_tenant_fixed_window}
use mini_siem_project.Api.Audit.{AuditEvent, AuditLog, record_audit}

pub record CompliancePolicyRequest : Type 0 where
  pub retention_days : Option ℤ
  pub legal_hold : Option Bool
  pub legal_hold_reason : Option String
  pub legal_hold_until : Option ℤ
  pub access_review_interval_days : Option ℤ
  pub key_rotation_interval_days : Option ℤ
  pub evidence_export_enabled : Option Bool

-- The row of a tenant and its writing, which gives the new row; the users and audit events of a
-- tenant; and the texts of moments and identifiers.
pub record ComplianceServer (S : Type 0) : Type 0 where
  pub fetch_policy : String → Eff S (Option TenantCompliancePolicy)
  pub upsert_policy : TenantCompliancePolicy → Eff S TenantCompliancePolicy
  pub list_users_by_tenant : String → Eff S (List User)
  pub list_audit_events_since : String → ℤ → Eff S (List AuditEvent)
  pub audit : AuditLog S
  pub allow_fixed_window : FixedWindow S
  pub api_requests_per_minute : ℕ
  pub rule_mutations_per_minute : ℕ
  pub audit_queries_per_minute : ℕ
  pub show_time : ℤ → String
  pub show_id : ℕ → String

abbrev or_some : {A : Type 0} → Option A → Option A → Option A
or_some (some a) b = some a
or_some none b = b

abbrev at_least_1 : ℤ → Option ℤ → ℤ
at_least_1 old none = old
at_least_1 old (some value) = max_ℤ value (pos 1)

-- The fields of the request that are there, in place of the policy's.
unfoldable pub changed_policy :
    CompliancePolicyRequest → ℤ → TenantCompliancePolicy → TenantCompliancePolicy
changed_policy body now policy = record policy {
  retention_days = at_least_1 policy.retention_days body.retention_days;
  legal_hold = unwrap_or policy.legal_hold body.legal_hold;
  legal_hold_reason = or_some body.legal_hold_reason policy.legal_hold_reason;
  legal_hold_until = or_some body.legal_hold_until policy.legal_hold_until;
  access_review_interval_days =
      at_least_1 policy.access_review_interval_days body.access_review_interval_days;
  key_rotation_interval_days =
      at_least_1 policy.key_rotation_interval_days body.key_rotation_interval_days;
  evidence_export_enabled = unwrap_or policy.evidence_export_enabled body.evidence_export_enabled;
  updated_at = now;
}

unfoldable pub rotated_policy : ℤ → TenantCompliancePolicy → TenantCompliancePolicy
rotated_policy now policy = record policy { last_key_rotation_at = some now; updated_at = now }

abbrev pub or_null : {A : Type 0} → (A → Value) → Option A → Value
or_null f none = null
or_null f (some a) = f a

unfoldable pub policy_value : (ℤ → String) → TenantCompliancePolicy → Value
policy_value show_time p = object (
    field "access_review_interval_days" (int p.access_review_interval_days) (
      field "evidence_export_enabled" (bool p.evidence_export_enabled) (
        field "key_rotation_interval_days" (int p.key_rotation_interval_days) (
          field "last_key_rotation_at" (or_null (λ t. string (show_time t)) p.last_key_rotation_at)
            (field "legal_hold" (bool p.legal_hold) (
              field "legal_hold_reason" (or_null string p.legal_hold_reason) (
                field "legal_hold_until" (or_null (λ t. string (show_time t)) p.legal_hold_until) (
                  field "retention_days" (int p.retention_days) (
                    field "tenant_id" (string p.tenant_id)
                      (field "updated_at" (string (show_time p.updated_at)) end))))))))))

unfoldable pub is_admin : Claims → Bool
is_admin claims = any (str_eq "admin") claims.roles

-- The tenant that a request names, or that of its claims.
abbrev pub target_of : Claims → Option String → String
target_of claims tenant_id = unwrap_or claims.tenant_id tenant_id

module _ {S : Type 0} (server : ComplianceServer S) where
  open server use {fetch_policy, upsert_policy, allow_fixed_window, show_time}

  module _ {R : Type 0} where
    -- The checks before a handler: a token, the role of an admin, and the quota.
    unfoldable pub admin_claims : String → ℕ → Option Claims → Handler S R Claims
    unfolding is_admin enforce_tenant_fixed_window
    admin_claims resource limit auth = do
      claims ← present (record { status = 401; body = empty_body }) auth
      (if is_admin claims then done tt else with_fields 403 (("error", "admin role required") ∷ []))
      enforce_tenant_fixed_window allow_fixed_window claims.tenant_id resource limit 1
      done claims

    abbrev pub queried : {A : Type 0} → String → Eff S A → Handler S R A
    queried what m = do
      r ← outcome_of m
      (elim r [ ok a ↦ done a | err e ↦ with_fields 500 (("error", what ++ₛ e) ∷ []) ])

    -- An audit event, whose error ends the request.
    unfoldable pub record_compliance_audit :
        Call → Claims → String → Option String → Value → Handler S R (Unit {0})
    unfolding record_audit
    record_compliance_audit c claims action target metadata =
        queried "" (record_audit server.audit "compliance" c claims action none target metadata)

    -- The policy is read, changed, written and audited.
    unfoldable pub write_policy :
        Call
        → Claims
        → Option String
        → String
        → (TenantCompliancePolicy → TenantCompliancePolicy)
        → Handler S R TenantCompliancePolicy
    unfolding record_compliance_audit get_tenant_compliance_policy policy_value
    write_policy c claims tenant_id action change = do
      let target = target_of claims tenant_id
      policy ←
          queried "failed to load policy: " (get_tenant_compliance_policy fetch_policy c.now target)
      row ← queried "failed to save policy: " (upsert_policy (change policy))
      record_compliance_audit c claims action (some target)
          (object (field "policy" (policy_value show_time row) end))
      done row

  unfoldable pub get_policy :
      Call → Option Claims → Option String → Handler S TenantCompliancePolicy (Unit {0})
  unfolding admin_claims get_tenant_compliance_policy
  get_policy c auth tenant_id = do
    claims ← admin_claims "api_requests" server.api_requests_per_minute auth
    policy ←
        queried "failed to load policy: "
          (get_tenant_compliance_policy fetch_policy c.now (target_of claims tenant_id))
    with_status 200 policy

  unfoldable pub update_policy :
      Call
      → Option Claims
      → Option String
      → CompliancePolicyRequest
      → Handler S TenantCompliancePolicy (Unit {0})
  unfolding admin_claims write_policy changed_policy
  update_policy c auth tenant_id body = do
    claims ← admin_claims "rule_mutations" server.rule_mutations_per_minute auth
    row ← write_policy c claims tenant_id "compliance.policy.update" (changed_policy body c.now)
    with_status 200 row

  unfoldable pub record_key_rotation :
      Call → Option Claims → Option String → Handler S TenantCompliancePolicy (Unit {0})
  unfolding admin_claims write_policy rotated_policy
  record_key_rotation c auth tenant_id = do
    claims ← admin_claims "rule_mutations" server.rule_mutations_per_minute auth
    row ← write_policy c claims tenant_id "compliance.key_rotation.record" (rotated_policy c.now)
    with_status 200 row
