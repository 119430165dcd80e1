-- ===== src/Api/Costs.antt =====
-- The handlers of the data budget of a tenant (backend/src/api/handlers/cost.rs); what the dashboard
-- shows is a parameter.
use mini_siem_project.Prelude.{
  ℕ, Bool, any, ◌||◌, unwrap_or, String, Option, none, some, [], ◌∷◌, if◌then◌else◌,
}
use mini_siem_project.Prelude.Int.{ℤ}
use mini_siem_project.Prelude.Text.{◌++ₛ◌, str_eq}
use mini_siem_project.Prelude.Eff.{ok, err, Eff}
use mini_siem_project.Types.Json.{Value, bool, object, field, end, int}
use mini_siem_project.Types.Log.{Call}
use mini_siem_project.Auth.Claims.{Claims}
use mini_siem_project.Costs.Policy.{TenantDataCostPolicy}
use mini_siem_project.Costs.Usage.{
  CostStore, PolicyCodec, load_tenant_cost_policy, save_tenant_cost_policy,
}
use mini_siem_project.Api.Handler.{
  Handler, empty_body, done, with_status, with_fields, outcome_of, perform, present, ◌>>=◌, ◌>>◌,
}
use mini_siem_project.Api.Tenant.{FixedWindow, enforce_tenant_fixed_window}
use mini_siem_project.Api.Audit.{AuditLog, record_audit}

pub record TenantDataCostPolicyUpdate : Type 0 where
  pub daily_ingest_bytes_budget : Option ℤ
  pub hot_storage_bytes_budget : Option ℤ
  pub warm_storage_bytes_budget : Option ℤ
  pub cold_storage_bytes_budget : Option ℤ
  pub sampling_enabled : Option Bool
  pub low_value_sampling_percent : Option ℤ
  pub high_value_sampling_percent : Option ℤ
  pub drop_low_value_when_over_budget : Option Bool
  pub schema_drop_rules : Option Value
  pub source_budgets : Option Value
  pub integration_budgets : Option Value
  pub team_budgets : Option Value

-- The store of policies and usage, the dashboard over it, the audit log and the quotas.
pub record CostServer (S D : Type 0) : Type 0 where
  pub store : CostStore S
  pub codec : PolicyCodec
  pub build_cost_dashboard : String → Eff S D
  pub audit : AuditLog S
  pub allow_fixed_window : FixedWindow S
  pub api_requests_per_minute : ℕ
  pub rule_mutations_per_minute : ℕ

unfoldable pub require_cost_roles : Claims → Bool
require_cost_roles claims = any (str_eq "analyst") claims.roles || any (str_eq "admin") claims.roles

-- The fields of the request that are there, in place of the policy's.
unfoldable pub changed_budget :
    TenantDataCostPolicyUpdate → TenantDataCostPolicy → TenantDataCostPolicy
changed_budget body policy = record policy {
  daily_ingest_bytes_budget =
      unwrap_or policy.daily_ingest_bytes_budget body.daily_ingest_bytes_budget;
  hot_storage_bytes_budget =
      unwrap_or policy.hot_storage_bytes_budget body.hot_storage_bytes_budget;
  warm_storage_bytes_budget =
      unwrap_or policy.warm_storage_bytes_budget body.warm_storage_bytes_budget;
  cold_storage_bytes_budget =
      unwrap_or policy.cold_storage_bytes_budget body.cold_storage_bytes_budget;
  sampling_enabled = unwrap_or policy.sampling_enabled body.sampling_enabled;
  low_value_sampling_percent =
      unwrap_or policy.low_value_sampling_percent body.low_value_sampling_percent;
  high_value_sampling_percent =
      unwrap_or policy.high_value_sampling_percent body.high_value_sampling_percent;
  drop_low_value_when_over_budget =
      unwrap_or policy.drop_low_value_when_over_budget body.drop_low_value_when_over_budget;
  schema_drop_rules = unwrap_or policy.schema_drop_rules body.schema_drop_rules;
  source_budgets = unwrap_or policy.source_budgets body.source_budgets;
  integration_budgets = unwrap_or policy.integration_budgets body.integration_budgets;
  team_budgets = unwrap_or policy.team_budgets body.team_budgets;
}

module _ {S D : Type 0} (server : CostServer S D) where
  open server use {store, codec, allow_fixed_window}

  module _ {R : Type 0} where
    abbrev queried : {A : Type 0} → String → Eff S A → Handler S R A
    queried what m = do
      r ← outcome_of m
      (elim r [ ok a ↦ done a | err e ↦ with_fields 500 (("error", what ++ₛ e) ∷ []) ])

    unfoldable pub cost_claims : Option Claims → Handler S R Claims
    unfolding require_cost_roles
    cost_claims auth = do
      claims ← present (record { status = 401; body = empty_body }) auth
      (if require_cost_roles claims
          then done claims
          else with_fields 403 (("error", "insufficient role") ∷ []))

  unfoldable pub get_cost_policy : Option Claims → Handler S TenantDataCostPolicy (Unit {0})
  unfolding cost_claims load_tenant_cost_policy
  get_cost_policy auth = do
    claims ← cost_claims auth
    policy ←
        queried "failed to load cost policy: "
          (load_tenant_cost_policy store codec claims.tenant_id)
    with_status 200 policy

  -- An error of the audit event is dropped.
  unfoldable pub update_cost_policy :
      Call → Option Claims → TenantDataCostPolicyUpdate → Handler S TenantDataCostPolicy (Unit {0})
  unfolding cost_claims enforce_tenant_fixed_window load_tenant_cost_policy save_tenant_cost_policy
      changed_budget record_audit
  update_cost_policy c auth body = do
    claims ← cost_claims auth
    enforce_tenant_fixed_window allow_fixed_window claims.tenant_id "rule_mutations"
        server.rule_mutations_per_minute 1
    policy ←
        queried "failed to load cost policy: "
          (load_tenant_cost_policy store codec claims.tenant_id)
    saved ←
        queried "failed to save cost policy: "
          (save_tenant_cost_policy store codec (changed_budget body policy))
    perform (
        record_audit server.audit "data_cost" c claims "data_cost.policy_update"
          (some saved.tenant_id) none
          (object (
            field "daily_ingest_bytes_budget" (int saved.daily_ingest_bytes_budget)
              (field "sampling_enabled" (bool saved.sampling_enabled) end))))
    with_status 200 saved

  unfoldable pub get_cost_dashboard : Option Claims → Handler S D (Unit {0})
  unfolding cost_claims enforce_tenant_fixed_window
  get_cost_dashboard auth = do
    claims ← cost_claims auth
    enforce_tenant_fixed_window allow_fixed_window claims.tenant_id "api_requests"
        server.api_requests_per_minute 1
    dashboard ←
        queried "failed to build cost dashboard: " (server.build_cost_dashboard claims.tenant_id)
    with_status 200 dashboard
