-- ===== src/Api/Health.antt =====
-- The health of the services and the numbers of a tenant (backend/src/api/handlers/health.rs and
-- dashboard.rs).
use mini_siem_project.Prelude.{
  ℕ, Bool, all, any, ◌||◌, String, Option, none, some, List, [], ◌∷◌, if◌then◌else◌,
}
use mini_siem_project.Prelude.Int.{ℤ, pos, leb_ℤ, saturating_sub, i64_as_u64}
use mini_siem_project.Prelude.Text.{◌++ₛ◌, str_eq}
use mini_siem_project.Prelude.Eff.{Result, ok, err, Eff}
use mini_siem_project.Types.Log.{Call, seconds}
use mini_siem_project.Auth.Claims.{Claims}
use mini_siem_project.Api.Handler.{
  Handler, text, done, with_status, with_fields, outcome_of, perform, present, ◌>>=◌, ◌>>◌,
}
use mini_siem_project.Api.Tenant.{FixedWindow, enforce_tenant_fixed_window}

pub record ServiceHealth : Type 0 where
  pub status : String
  pub last_seen_at : Option String
  pub last_seen_seconds_ago : Option ℤ
  pub details : Option String

pub record DetailedHealth : Type 0 where
  pub status : String
  pub version : String
  pub services : List (String × ServiceHealth)

-- The checks of the services, which have no client of the index where there is none; the signs of
-- life in the cache; the reader of numbers and the text of a moment.
pub record HealthServer (S : Type 0) : Type 0 where
  pub ping_db : Eff S (Unit {0})
  pub ping_cache : Eff S (Unit {0})
  pub elastic_health : Option (Eff S Bool)
  pub queue_health : Eff S (Unit {0})
  pub get_string : String → Eff S (Option String)
  pub parse_i64 : String → Option ℤ
  pub rfc3339 : ℤ → String
  pub version : String

abbrev is_healthy : ServiceHealth → Bool
is_healthy service = str_eq service.status "healthy"

abbrev service : String → String → ServiceHealth
service status details = record {
  status = status;
  last_seen_at = none;
  last_seen_seconds_ago = none;
  details = some details;
}

-- What a sign of life, its reading as a number and the present say.
unfoldable pub heartbeat_of : ℤ → ℤ → (String → Option ℤ) → Result (Option String) → ServiceHealth
unfolding saturating_sub
heartbeat_of now max_age_secs parse (err e) = service "down" ("heartbeat lookup failed: " ++ₛ e)
heartbeat_of now max_age_secs parse (ok none) = service "down" "no heartbeat recorded yet"
heartbeat_of now max_age_secs parse (ok (some value)) = elim (parse value) [
  | none ↦ record {
    status = "degraded";
    last_seen_at = some value;
    last_seen_seconds_ago = none;
    details = some "invalid heartbeat timestamp";
  }
  | some timestamp ↦ record {
    status = if leb_ℤ (saturating_sub now timestamp) max_age_secs then "healthy" else "degraded";
    last_seen_at = some value;
    last_seen_seconds_ago = some (saturating_sub now timestamp);
    details = none;
  }
]

-- Healthy if all are, degraded if some are, and else down.
unfoldable pub overall : List (String × ServiceHealth) → String
overall services =
    if all (λ s. is_healthy s.1) services
    then "healthy"
    else if any (λ s. is_healthy s.1) services
    then "degraded"
    else "down"

module _ {S : Type 0} (server : HealthServer S) where
  unfoldable pub heartbeat_status : Call → String → ℤ → S → ServiceHealth × S
  unfolding heartbeat_of
  heartbeat_status c key max_age_secs s =
      let (r, s') = server.get_string key s in
      (heartbeat_of (seconds c.now) max_age_secs server.parse_i64 r, s')

  abbrev checked : {A : Type 0} → String → String → Result A → ServiceHealth
  checked up down (ok a) = service "healthy" up
  checked up down (err e) = service "down" (down ++ₛ e)

  abbrev elastic_status : Option (Eff S Bool) → S → ServiceHealth × S
  elastic_status none s = (service "down" "elasticsearch not configured", s)
  elastic_status (some check) s =
      let (r, s') = check s in
      (checked "elasticsearch reachable" "elasticsearch health failed: " r, s')

  -- The services in the order of their names.
  unfoldable pub detailed_health : Call → Handler S DetailedHealth (Unit {0})
  unfolding heartbeat_status overall
  detailed_health c s =
      let api : ServiceHealth = record {
        status = "healthy";
        last_seen_at = some (server.rfc3339 c.now);
        last_seen_seconds_ago = some (pos 0);
        details = some "api endpoint responding";
      } in
      let (db, s₁) = server.ping_db s in
      let (cache, s₂) = server.ping_cache s₁ in
      let (elastic, s₃) = elastic_status server.elastic_health s₂ in
      let (queue, s₄) = server.queue_health s₃ in
      let (agent, s₅) = heartbeat_status c "siem:health:agent_last_seen" (pos 300) s₄ in
      let (indexer, s₆) = heartbeat_status c "siem:health:indexer_last_seen" (pos 300) s₅ in
      let (pipeline, s₇) = heartbeat_status c "siem:health:alert_pipeline_last_seen" (pos 300) s₆ in
      let services =
        ("agent", agent)
        ∷ ("alert_pipeline", pipeline)
        ∷ ("api", api)
        ∷ ("elasticsearch", elastic)
        ∷ ("indexer", indexer)
        ∷ ("kafka", checked "kafka metadata reachable" "kafka health failed: " queue)
        ∷ ("postgres", checked "postgres reachable" "postgres ping failed: " db)
        ∷ ("redis", checked "redis reachable" "redis ping failed: " cache)
        ∷ [] in
      with_status 200
        (record { status = overall services; version = server.version; services = services }) s₇

-- The numbers of a tenant.
pub record TenantStats : Type 0 where
  pub tenant_id : String
  pub total_logs : ℤ
  pub total_alerts : ℤ
  pub active_alerts : ℤ
  pub critical_alerts : ℤ

pub record StatsServer (S : Type 0) : Type 0 where
  pub get_counter : String → Eff S (Option ℕ)
  pub set_counter : String → ℕ → Option ℕ → Eff S (Unit {0})
  pub get_stats : String → Eff S (ℤ × ℤ × ℤ × ℤ)
  pub allow_fixed_window : FixedWindow S
  pub api_requests_per_minute : ℕ

abbrev value_of : Result (Option ℕ) → Option ℕ
value_of (ok v) = v
value_of (err e) = none

module _ {S : Type 0} (server : StatsServer S) where
  open server use {get_counter, set_counter}

  abbrev counted : Claims → String → Handler S TenantStats (Option ℕ)
  counted claims name = do
    r ← outcome_of (get_counter ("siem:tenant:" ++ₛ claims.tenant_id ++ₛ ":stats:" ++ₛ name))
    done (value_of r)

  abbrev seed : Claims → String → ℤ → Handler S TenantStats (Unit {0})
  seed claims name value = perform (
      set_counter ("siem:tenant:" ++ₛ claims.tenant_id ++ₛ ":stats:" ++ₛ name) (i64_as_u64 value)
        (some 86400))

  abbrev stats_of : Claims → ℤ → ℤ → ℤ → ℤ → TenantStats
  stats_of claims logs alerts active critical = record {
    tenant_id = claims.tenant_id;
    total_logs = logs;
    total_alerts = alerts;
    active_alerts = active;
    critical_alerts = critical;
  }

  -- The numbers of the database, with which the counters are filled.
  unfoldable pub stored_stats : Claims → Handler S TenantStats (Unit {0})
  stored_stats claims = do
    r ← outcome_of (server.get_stats claims.tenant_id)
    (elim r [
      | err e ↦ with_fields 500 (("error", "failed to load stats: " ++ₛ e) ∷ [])
      | ok (logs, alerts, active, critical) ↦
          seed claims "total_logs" logs
          >> seed claims "total_alerts" alerts
          >> seed claims "active_alerts" active
          >> seed claims "critical_alerts" critical
          >> with_status 200 (stats_of claims logs alerts active critical)
    ])

  abbrev stats_answer :
      Claims → Option ℕ → Option ℕ → Option ℕ → Option ℕ → Handler S TenantStats (Unit {0})
  stats_answer claims (some logs) (some alerts) (some active) (some critical) =
      with_status 200 (stats_of claims (pos logs) (pos alerts) (pos active) (pos critical))
  stats_answer claims logs alerts active critical = stored_stats claims

  -- The counters if all four are there, and else the database.
  unfoldable pub get_stats_handler : Option Claims → Handler S TenantStats (Unit {0})
  unfolding enforce_tenant_fixed_window stored_stats
  get_stats_handler auth = do
    claims ← present (record { status = 401; body = text "missing auth" }) auth
    (if any (str_eq "analyst") claims.roles || any (str_eq "admin") claims.roles
        then done tt
        else with_fields 403 (("error", "insufficient role") ∷ []))
    enforce_tenant_fixed_window server.allow_fixed_window claims.tenant_id "api_requests"
        server.api_requests_per_minute 1
    logs ← counted claims "total_logs"
    alerts ← counted claims "total_alerts"
    active ← counted claims "active_alerts"
    critical ← counted claims "critical_alerts"
    stats_answer claims logs alerts active critical
