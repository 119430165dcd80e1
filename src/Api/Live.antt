-- ===== src/Api/Live.antt =====
-- Alerts for the people of a tenant: the list of the recent ones, and the live connection, which
-- takes a token of its own that is good for one use.
pub mod Laws
use mini_siem_project.Prelude.{
  ℕ, Bool, true, false, String, Option, none, some, List, [], ◌∷◌, ◌++◌, if◌then◌else◌,
}
use mini_siem_project.Prelude.Text.{◌++ₛ◌, str_eq}
use mini_siem_project.Prelude.Eff.{Result, ok, err, Eff}
use mini_siem_project.Types.Alert.{Alert}
use mini_siem_project.Auth.Claims.{Claims}
use mini_siem_project.Detection.Cache.{Cache}
use mini_siem_project.Alerting.Worker.{DashboardStats}
use mini_siem_project.Api.Handler.{
  Handler, Response, reply, go, text, done, respond, with_status, with_text, with_fields,
  outcome_of, present, ◌>>=◌, ◌>>◌,
}
use mini_siem_project.Api.Tenant.{FixedWindow, enforce_tenant_fixed_window}
use mini_siem_project.Api.Cases.{require_case_roles, answered}

pub record LiveServer (S : Type 0) : Type 0 where
  pub cache : Cache S
  pub allow_fixed_window : FixedWindow S
  pub api_requests_per_minute : ℕ
  pub ws_connections_per_minute : ℕ
  pub get_recent_alerts : String → ℕ → Eff S (List Alert)

abbrev is_live_token : Option String → Bool
is_live_token none = false
is_live_token (some use') = str_eq use' "ws"

module _ {S : Type 0} (server : LiveServer S) where
  unfoldable pub list_alerts : Option Claims → Handler S (List Alert) (Unit {0})
  unfolding require_case_roles enforce_tenant_fixed_window
  list_alerts auth = do
    claims ← present (record { status = 401; body = text "missing auth" }) auth
    (if require_case_roles claims
        then done tt
        else with_fields 403 (("error", "insufficient role") ∷ []))
    enforce_tenant_fixed_window server.allow_fixed_window claims.tenant_id "api_requests"
        server.api_requests_per_minute 1
    alerts ← answered "failed to query alerts: " (server.get_recent_alerts claims.tenant_id 50)
    with_status 200 alerts

  module _ {R : Type 0} where
    -- Any refusal of the quota, an error of the limiter as well, is answered with 429.
    unfoldable pub connection_quota : Claims → Handler S R (Unit {0})
    unfolding enforce_tenant_fixed_window
    connection_quota claims s =
        let (f, s') =
          enforce_tenant_fixed_window {R = R} server.allow_fixed_window claims.tenant_id
            "ws_connections" server.ws_connections_per_minute 1 s in
        elim f [ go u ↦ done tt s' | reply r ↦ with_text 429 "tenant quota exceeded" s' ]

    abbrev token_owner : Claims → Result (Option String) → Handler S R (Unit {0})
    token_owner claims (ok (some owner)) =
        if str_eq owner claims.sub then done tt else with_text 401 "invalid websocket token"
    token_owner claims (ok none) = with_text 401 "expired or invalid websocket token"
    token_owner claims (err e) = with_text 401 "expired or invalid websocket token"

    abbrev consumed : Result (Unit {0}) → Handler S R (Unit {0})
    consumed (ok u) = done tt
    consumed (err e) = with_text 401 "expired or invalid websocket token"

    -- The token is looked up and then deleted, in two calls of the cache.
    unfoldable pub consume_token : Claims → Handler S R (Unit {0})
    consume_token claims = do
      jti ← present (record { status = 401; body = text "missing websocket token id" }) claims.jti
      owner ←
          outcome_of (server.cache.get_string ("ws_token:" ++ₛ claims.tenant_id ++ₛ ":" ++ₛ jti))
      token_owner claims owner
      deleted ←
          outcome_of (server.cache.delete_key ("ws_token:" ++ₛ claims.tenant_id ++ₛ ":" ++ₛ jti))
      consumed deleted

    -- The way into the live connection, up to the upgrade of the connection.
    unfoldable pub ws_alerts : Option Claims → Handler S R Claims
    unfolding require_case_roles connection_quota consume_token
    ws_alerts auth = do
      claims ← present (record { status = 401; body = text "missing auth" }) auth
      (if require_case_roles claims then done tt else with_text 403 "insufficient role")
      connection_quota claims
      (if is_live_token claims.token_use then consume_token claims else done tt)
      done claims

-- What a session meets: an alert or numbers from the channels, with whether the text can be written
-- and whether it reaches the client, a gap in a channel or its end, and the client's messages.
pub data LiveEvent : Type 0 where
  alert_event : Alert → Bool → Bool → LiveEvent
  stats_event : DashboardStats → Bool → Bool → LiveEvent
  lagged : LiveEvent
  channel_closed : LiveEvent
  ping : Bool → LiveEvent
  client_text : LiveEvent
  client_close : LiveEvent
  stream_error : LiveEvent
  stream_end : LiveEvent

pub data Sent : Type 0 where
  sent_alert : Alert → Sent
  sent_stats : DashboardStats → Sent
  pong : Sent

-- A message of a channel: kept from other tenants, passed over where it has no text, and the end of
-- the session where the client cannot be reached.
unfoldable pub offer : Bool → Sent → Bool → Bool → List Sent × Bool
offer false m written reached = ([], true)
offer true m false reached = ([], true)
offer true m true true = (m ∷ [], true)
offer true m true false = ([], false)

unfoldable pub live_step : String → LiveEvent → List Sent × Bool
unfolding offer
live_step tenant (alert_event a written reached) =
    offer (str_eq a.tenant_id tenant) (sent_alert a) written reached
live_step tenant (stats_event d written reached) =
    offer (str_eq d.tenant_id tenant) (sent_stats d) written reached
live_step tenant lagged = ([], true)
live_step tenant channel_closed = ([], false)
live_step tenant (ping true) = (pong ∷ [], true)
live_step tenant (ping false) = ([], false)
live_step tenant client_text = ([], true)
live_step tenant client_close = ([], false)
live_step tenant stream_error = ([], false)
live_step tenant stream_end = ([], false)

-- What a session sends to its client.
unfoldable pub live_session : String → List LiveEvent → List Sent
unfolding live_step
live_session tenant [] = []
live_session tenant (e ∷ es) =
    let (out, goes_on) = live_step tenant e in
    let rest = live_session tenant es in if goes_on then out ++ rest else out
