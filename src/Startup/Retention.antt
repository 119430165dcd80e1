-- ===== src/Startup/Retention.antt =====
-- The hourly round that deletes what the tenants no longer keep.
pub mod Laws
use mini_siem_project.Prelude.{
  ℕ, ◌*◌, Bool, true, false, String, Option, none, some, List, [], ◌∷◌, if◌then◌else◌,
}
use mini_siem_project.Prelude.Int.{ℤ, pos, ◌-ℤ◌, max_ℤ, ltb_ℤ}
use mini_siem_project.Prelude.Eff.{Result, ok, err, Eff}
use mini_siem_project.Types.Json.{Value, Items, nil, cons, string, array, object, field, end}
use mini_siem_project.Compliance.{TenantCompliancePolicy, hold_active}

-- The table of policies, the deletions from the tables of audit events and alerts, the client of
-- the search index if there is one, and its deletion by a query. A date before `first_instant`
-- cannot be represented, and the subtraction that would give it panics.
pub record Purging (S E : Type 0) : Type 0 where
  pub list_tenant_compliance_policies : Eff S (List TenantCompliancePolicy)
  pub purge_audit_events_before : String → ℤ → Eff S ℕ
  pub purge_alerts_before : String → ℤ → Eff S ℕ
  pub borrow : S → Option E
  pub delete_by_query : E → String → Value → Eff S (Unit {0})
  pub utc_now : S → ℤ
  pub first_instant : ℤ
  pub rfc3339 : ℤ → String

-- How a round or a part of it ends.
pub data Ended : Type 0 where
  completed : Ended
  panicked : Ended

-- A day in nanoseconds.
abbrev pub day : ℕ
day = 86_400_000_000_000

abbrev pub times_day : ℤ → ℤ
times_day (pos n) = pos (n * day)
times_day z = z

unfoldable pub retention_days : TenantCompliancePolicy → ℤ
retention_days policy = max_ℤ policy.retention_days (pos 1)

-- The moment before which the tenant's data goes, or nothing if there is no such date.
unfoldable pub cutoff_at : ℤ → ℤ → TenantCompliancePolicy → Option ℤ
unfolding retention_days
cutoff_at first_instant now policy =
    let cutoff = now -ℤ times_day (retention_days policy) in
    if ltb_ℤ cutoff first_instant then none else some cutoff

-- The logs of a tenant before a moment.
unfoldable pub old_logs_query : String → String → Value
old_logs_query tenant_id cutoff = object (
    field "bool"
      (object (
        field "filter"
          (array (
            cons (object (field "term" (object (field "tenant_id" (string tenant_id) end)) end)) (
              cons
                (object (
                  field "range"
                    (object (field "@timestamp" (object (field "lt" (string cutoff) end)) end))
                    end))
                nil)))
          end))
      end)

module _ {S E : Type 0} (services : Purging S E) (elastic_index : String) where
  unfoldable pub purge_logs : String → ℤ → S → S
  unfolding old_logs_query
  purge_logs tenant_id cutoff s = elim (services.borrow s) [
    | none ↦ s
    | some client ↦
        (services.delete_by_query client elastic_index
          (old_logs_query tenant_id (services.rfc3339 cutoff)) s).1
  ]

  unfoldable pub purge_tenant : TenantCompliancePolicy → ℤ → S → S
  unfolding purge_logs
  purge_tenant policy cutoff s =
      let s₁ = (services.purge_audit_events_before policy.tenant_id cutoff s).1 in
      let s₂ = (services.purge_alerts_before policy.tenant_id cutoff s₁).1 in
      purge_logs policy.tenant_id cutoff s₂

  -- One tenant. A failed deletion is logged and the round goes on.
  unfoldable pub retain_tenant : TenantCompliancePolicy → S → Ended × S
  unfolding hold_active cutoff_at purge_tenant
  retain_tenant policy s =
      if hold_active (services.utc_now s) policy
      then (completed, s)
      else (elim (cutoff_at services.first_instant (services.utc_now s) policy) [
        | none ↦ (panicked, s)
        | some cutoff ↦ (completed, purge_tenant policy cutoff s)
      ])

  -- A panic ends the task, and with it the tenants that are left.
  unfoldable pub retain_all : List TenantCompliancePolicy → S → Ended × S
  unfolding retain_tenant
  retain_all [] s = (completed, s)
  retain_all (policy ∷ policies) s =
      let (ended, s') = retain_tenant policy s in
      elim ended [ completed ↦ retain_all policies s' | panicked ↦ (panicked, s') ]

  unfoldable pub run_tenant_retention_cycle : S → Ended × S
  unfolding retain_all
  run_tenant_retention_cycle s =
      let (r, s') = services.list_tenant_compliance_policies s in
      elim r [ ok policies ↦ retain_all policies s' | err e ↦ (completed, s') ]
