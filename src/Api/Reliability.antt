-- ===== src/Api/Reliability.antt =====
-- The handlers of reliability (backend/src/api/handlers/reliability.rs).
use mini_siem_project.Prelude.{
  ℕ, Bool, any, ◌||◌, is_some, String, Option, List, [], ◌∷◌, if◌then◌else◌,
}
use mini_siem_project.Prelude.Text.{◌++ₛ◌, str_eq}
use mini_siem_project.Prelude.Eff.{Result, ok, err, Eff}
use mini_siem_project.Types.Json.{Value, string, object, field, end, get}
use mini_siem_project.Types.Log.{Call}
use mini_siem_project.Auth.Claims.{Claims}
use mini_siem_project.Reliability.{Probes, HealthSummary, health_probe_summary}
use mini_siem_project.Reliability.Drills.{
  ReliabilityReportCreate, Replaying, replay_recent_logs, chaos_status, chaos_value, report_of,
}
use mini_siem_project.Api.Handler.{
  Handler, empty_body, done, with_status, with_fields, outcome_of, present, ◌>>=◌, ◌>>◌,
}
use mini_siem_project.Api.Tenant.{FixedWindow, enforce_tenant_fixed_window}

-- The overview `O` of a tenant and the table of reports `Rep`.
pub record ReliabilityServer (S O Rep : Type 0) : Type 0 where
  pub build_reliability_overview : String → Eff S O
  pub list_reliability_reports : String → ℕ → Eff S (List Rep)
  pub insert_reliability_report : ReliabilityReportCreate → Eff S Rep
  pub replaying : Replaying S
  pub probes : Probes S
  pub allow_fixed_window : FixedWindow S
  pub api_requests_per_minute : ℕ

unfoldable pub has_reliability_access : Claims → Bool
has_reliability_access claims =
    any (str_eq "analyst") claims.roles || any (str_eq "admin") claims.roles

module _ {S O Rep : Type 0} (server : ReliabilityServer S O Rep) where
  open server use {insert_reliability_report, replaying, probes}

  module _ {R : Type 0} where
    abbrev queried : {A : Type 0} → String → Eff S A → Handler S R A
    queried what m = do
      r ← outcome_of m
      (elim r [ ok a ↦ done a | err e ↦ with_fields 500 (("error", what ++ₛ e) ∷ []) ])

    unfoldable pub reliability_claims : Option Claims → Handler S R Claims
    unfolding has_reliability_access
    reliability_claims auth = do
      claims ← present (record { status = 401; body = empty_body }) auth
      (if has_reliability_access claims
          then done claims
          else with_fields 403 (("error", "insufficient role") ∷ []))

  unfoldable pub get_reliability_overview : Option Claims → Handler S O (Unit {0})
  unfolding reliability_claims enforce_tenant_fixed_window
  get_reliability_overview auth = do
    claims ← reliability_claims auth
    enforce_tenant_fixed_window server.allow_fixed_window claims.tenant_id "api_requests"
        server.api_requests_per_minute 1
    overview ←
        queried "failed to build reliability overview: "
          (server.build_reliability_overview claims.tenant_id)
    with_status 200 overview

  unfoldable pub list_reliability_reports_handler : Option Claims → Handler S (List Rep) (Unit {0})
  unfolding reliability_claims
  list_reliability_reports_handler auth = do
    claims ← reliability_claims auth
    reports ←
        queried "failed to list reliability reports: "
          (server.list_reliability_reports claims.tenant_id 24)
    with_status 200 reports

  unfoldable pub create_report : Option Claims → ReliabilityReportCreate → Handler S Rep (Unit {0})
  unfolding reliability_claims
  create_report auth body = do
    claims ← reliability_claims auth
    row ←
        queried "failed to save reliability report: "
          (insert_reliability_report (record body { tenant_id = claims.tenant_id }))
    with_status 200 row

  abbrev summary_of : Result Value → Value
  summary_of (ok summary) = summary
  summary_of (err e) = object (field "error" (string ("replay drill failed: " ++ₛ e)) end)

  unfoldable pub drill_status : Value → String
  drill_status summary = if is_some (get summary "error") then "failed" else "passed"

  unfoldable pub run_replay_drill : Call → Option Claims → Handler S Rep (Unit {0})
  unfolding reliability_claims replay_recent_logs drill_status
  run_replay_drill c auth = do
    claims ← reliability_claims auth
    r ← outcome_of (replay_recent_logs replaying c claims.tenant_id 25)
    row ← queried "failed to save replay drill report: " (
        insert_reliability_report (
          report_of c claims.tenant_id "replay_drill"
            ("replay-drill-" ++ₛ replaying.show_id c.fresh_id) (drill_status (summary_of r))
            (summary_of r)))
    with_status 200 row

  abbrev probed : {R : Type 0} → Handler S R HealthSummary
  probed s = done (health_probe_summary probes s).0 (health_probe_summary probes s).1

  unfoldable pub run_chaos_drill : Call → Option Claims → Handler S Rep (Unit {0})
  unfolding reliability_claims health_probe_summary chaos_status chaos_value
  run_chaos_drill c auth = do
    claims ← reliability_claims auth
    summary ← probed
    row ← queried "failed to save chaos drill report: " (
        insert_reliability_report (
          report_of c claims.tenant_id "chaos_drill"
            ("chaos-drill-" ++ₛ replaying.show_id c.fresh_id) (chaos_status summary)
            (chaos_value summary)))
    with_status 200 row
