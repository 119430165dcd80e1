-- ===== src/Compliance.antt =====
-- How long a tenant keeps its data, legal holds and reviews (backend/src/db/models/compliance.rs and
-- the queries of its table in backend/src/db/postgres.rs).
use mini_siem_project.Prelude.{ℕ, Bool, true, false, String, Option, none, some, unwrap_or}
use mini_siem_project.Prelude.Int.{ℤ, pos, ltb_ℤ}
use mini_siem_project.Prelude.Eff.{Eff, pure, ◌>>=◌}
use mini_siem_project.Types.Json.{Value}

pub record TenantCompliancePolicy : Type 0 where
  pub tenant_id : String
  pub retention_days : ℤ
  pub legal_hold : Bool
  pub legal_hold_reason : Option String
  pub legal_hold_until : Option ℤ
  pub access_review_interval_days : ℤ
  pub key_rotation_interval_days : ℤ
  pub last_key_rotation_at : Option ℤ
  pub evidence_export_enabled : Bool
  pub updated_at : ℤ

pub record AccessReviewUser : Type 0 where
  pub id : ℕ
  pub tenant_id : String
  pub email : String
  pub role : String

pub record ComplianceEvidenceBundle : Type 0 where
  pub tenant_id : String
  pub generated_at : ℤ
  pub policy : TenantCompliancePolicy
  pub access_review : Value
  pub audit_summary : Value
  pub retention_summary : Value

unfoldable pub default_for_tenant : ℤ → String → TenantCompliancePolicy
default_for_tenant now tenant_id = record {
  tenant_id = tenant_id;
  retention_days = pos 365;
  legal_hold = false;
  legal_hold_reason = none;
  legal_hold_until = none;
  access_review_interval_days = pos 90;
  key_rotation_interval_days = pos 90;
  last_key_rotation_at = none;
  evidence_export_enabled = true;
  updated_at = now;
}

-- The row of a tenant, or the default where it has none.
unfoldable pub get_tenant_compliance_policy :
    {S : Type 0}
    → (String → Eff S (Option TenantCompliancePolicy))
    → ℤ
    → String
    → Eff S TenantCompliancePolicy
unfolding default_for_tenant
get_tenant_compliance_policy fetch now tenant_id = do
  row ← fetch tenant_id
  pure (unwrap_or (default_for_tenant now tenant_id) row)

-- Whether a legal hold keeps the data of the tenant now: one without an end, or with an end to come.
unfoldable pub hold_active : ℤ → TenantCompliancePolicy → Bool
hold_active now policy = elim policy.legal_hold [
  | true ↦ elim policy.legal_hold_until [ some until ↦ ltb_ℤ now until | none ↦ true ]
  | false ↦ false
]
