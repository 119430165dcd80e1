-- ===== src/Api/AuditTrail.antt =====
-- The handler that lists audit events (backend/src/api/handlers/audit.rs).
use mini_siem_project.Prelude.{
  ℕ, not, unwrap_or, any, String, Option, none, some, List, [], ◌∷◌, if◌then◌else◌,
}
use mini_siem_project.Prelude.Int.{ℤ, pos, max_ℤ, min_ℤ}
use mini_siem_project.Prelude.Text.{◌++ₛ◌, str_eq}
use mini_siem_project.Prelude.Eff.{ok, err, Eff}
use mini_siem_project.Types.Json.{bool, object, field, end, int}
use mini_siem_project.Types.Log.{Call}
use mini_siem_project.Auth.Claims.{Claims}
use mini_siem_project.Api.Handler.{
  Handler, empty_body, done, with_status, with_fields, outcome_of, present, ◌>>=◌, ◌>>◌,
}
use mini_siem_project.Api.Tenant.{FixedWindow, enforce_tenant_fixed_window}
use mini_siem_project.Api.Audit.{AuditEvent, AuditLog, record_audit}

pub record AuditServer (S : Type 0) : Type 0 where
  pub list_audit_events : String → ℤ → Eff S (List AuditEvent)
  pub audit : AuditLog S
  pub allow_fixed_window : FixedWindow S
  pub audit_queries_per_minute : ℕ

-- At least 1 and at most 500 events, and 100 where the request says nothing.
unfoldable pub limit_of : Option ℤ → ℤ
limit_of limit = min_ℤ (max_ℤ (unwrap_or (pos 100) limit) (pos 1)) (pos 500)

module _ {S R : Type 0} (server : AuditServer S) where
  abbrev queried : {A : Type 0} → String → Eff S A → Handler S R A
  queried what m = do
    r ← outcome_of m
    (elim r [ ok a ↦ done a | err e ↦ with_fields 500 (("error", what ++ₛ e) ∷ []) ])

  unfoldable pub record_audit_view : Call → Claims → String → ℤ → Handler S R (Unit {0})
  unfolding record_audit
  record_audit_view c claims target limit =
      let cross_tenant = not (str_eq target claims.tenant_id) in
      queried "" (
        record_audit server.audit "audit" c claims
          (if cross_tenant then "audit.view_cross_tenant" else "audit.view") none (some target)
          (object (field "cross_tenant" (bool cross_tenant) (field "limit" (int limit) end))))

module _ {S : Type 0} (server : AuditServer S) where
  unfoldable pub list_audit_events_handler :
      Call → Option Claims → Option String → Option ℤ → Handler S (List AuditEvent) (Unit {0})
  unfolding enforce_tenant_fixed_window record_audit_view limit_of
  list_audit_events_handler c auth tenant_id limit = do
    claims ← present (record { status = 401; body = empty_body }) auth
    (if any (str_eq "admin") claims.roles
        then done tt
        else with_fields 403 (("error", "admin role required") ∷ []))
    let target = unwrap_or claims.tenant_id tenant_id
    enforce_tenant_fixed_window server.allow_fixed_window claims.tenant_id "audit_queries"
        server.audit_queries_per_minute 1
    events ←
        queried server "failed to query audit events: "
          (server.list_audit_events target (limit_of limit))
    record_audit_view server c claims target (limit_of limit)
    with_status 200 events
