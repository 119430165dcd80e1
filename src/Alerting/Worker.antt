-- ===== src/Alerting/Worker.antt =====
-- The alert worker (backend/src/alerting/worker.rs): what is done with one alert from the queue. The
-- responses run as a task of their own in the code; here they are one step of the same run.
use mini_siem_project.Prelude.{
  ℕ, ◌+◌, ◌%◌, ◌^◌, Bool, true, false, String, Option, none, some, List, [], ◌∷◌, ◌++◌, is_empty,
  unwrap_or, if◌then◌else◌,
}
use mini_siem_project.Prelude.Text.{◌++ₛ◌}
use mini_siem_project.Prelude.Eff.{Result, ok, err, Eff}
use mini_siem_project.Types.Json.{Items, nil, cons, string, array, object, field, end}
use mini_siem_project.Types.Log.{Call}
use mini_siem_project.Types.Alert.{
  Alert, AlertSeverity, critical, high, medium, low, info, severity_eq,
}
use mini_siem_project.Detection.Cache.{Cache}
use mini_siem_project.Response
use mini_siem_project.Response.{ResponseEngine, preview_actions}
use mini_siem_project.Cases.Data.{CaseRecord}
use mini_siem_project.Cases.Store.{CaseTables, CaseEvent}
use mini_siem_project.Cases.Open.{create_case_from_alert}

-- A tenant's numbers for the dashboard: logs, alerts, active and critical alerts.
pub record DashboardStats : Type 0 where
  pub tenant_id : String
  pub total_logs : ℕ
  pub total_alerts : ℕ
  pub active_alerts : ℕ
  pub critical_alerts : ℕ

-- The services: the cache, the tables of alerts, statistics and cases, the channel of the batcher,
-- which answers whether it takes an alert at once, the response engine, the record of the latency and
-- the text of the time and of an identifier.
pub record WorkerServices (S : Type 0) : Type 0 where
  pub cache : Cache S
  pub record_alert_delivery_latency : Alert → Eff S (Unit {0})
  pub db_try_send : Alert → S → Bool × S
  pub get_open_alerts_by_ip : String → String → Eff S (List Alert)
  pub update_alert : Alert → Eff S (Unit {0})
  pub create_alert : Alert → Eff S (Unit {0})
  pub save_stats : DashboardStats → Eff S (Unit {0})
  pub cases : CaseTables S
  pub engine : ResponseEngine S
  pub show_id : ℕ → String
  pub heartbeat : String

-- What the worker has sent to its listeners.
pub record WorkerState (S : Type 0) : Type 0 where
  pub services : S
  pub live : List Alert
  pub stats : List DashboardStats

-- The open alert that the new one is counted into; the count is a `u32`.
unfoldable pub counted_into : Alert → Alert → Alert
counted_into existing alert = record existing {
  last_seen = alert.last_seen;
  events_count = (existing.events_count + alert.events_count) % 2 ^ 32;
}

abbrev stats_key : Alert → String → String
stats_key alert name = "siem:tenant:" ++ₛ alert.tenant_id ++ₛ ":stats:" ++ₛ name

abbrev pub is_severe : AlertSeverity → Bool
is_severe critical = true
is_severe high = true
is_severe medium = false
is_severe low = false
is_severe info = false

abbrev names : List String → Items
names [] = nil
names (n ∷ ns) = cons (string n) (names ns)

module _ {S : Type 0} (w : WorkerServices S) where
  -- A call whose outcome is dropped.
  abbrev after : {A : Type 0} → Eff S A → S → S
  after m s = (m s).1

  abbrev broadcast : Alert → WorkerState S → WorkerState S
  broadcast a st = record st { live = st.live ++ (a ∷ []) }

  abbrev on : (S → S) → WorkerState S → WorkerState S
  on f st = record st { services = f st.services }

  unfoldable pub store_open : Alert → Result (List Alert) → WorkerState S → WorkerState S
  unfolding counted_into
  store_open alert (ok (existing ∷ rest)) st =
      let merged = counted_into existing alert in
      broadcast merged (on (after (w.update_alert merged)) st)
  store_open alert (ok []) st = broadcast alert (on (after (w.create_alert alert)) st)
  store_open alert (err e) st = broadcast alert (on (after (w.create_alert alert)) st)

  -- Into the channel of the batcher or, when it is full, into the database at once.
  unfoldable pub store_alert : Alert → WorkerState S → WorkerState S
  unfolding store_open
  store_alert alert st =
      let (taken, s) = w.db_try_send alert st.services in
      if taken
      then record st { services = s }
      else (let (r, s') = w.get_open_alerts_by_ip alert.tenant_id alert.source_ip s in
          store_open alert r (record st { services = s' }))

  abbrev plan_event : Alert → CaseRecord → List String → CaseEvent
  plan_event alert case actions = record {
    tenant_id = alert.tenant_id;
    case_id = case.id;
    event_type = "response.plan_created";
    message = "Automated responder actions launched";
    actor_user_id = none;
    actor_email = none;
    metadata = object (
        field "actions" (array (names actions))
          (field "alert_id" (string (w.show_id alert.id)) end));
  }

  abbrev note_plan : Alert → Result CaseRecord → List String → S → S
  note_plan alert (err e) actions s = s
  note_plan alert (ok case) actions s =
      if is_empty actions
      then s
      else after (w.cases.record_case_event (plan_event alert case actions)) s

  -- A case for a critical or high alert.
  unfoldable pub open_case : Call → Call → Alert → S → S
  unfolding create_case_from_alert preview_actions
  open_case c d alert s =
      if is_severe alert.severity
      then (let (r, s') =
            create_case_from_alert w.cases w.show_id c d alert
              (record {
                owner_user_id = none;
                owner_email = none;
                title = none;
                summary = none;
                playbook_id = none;
              })
              s in
          note_plan alert r (preview_actions w.engine alert) s')
      else s

  abbrev ok? : {A : Type 0} → Result A → Option A
  ok? (ok a) = some a
  ok? (err e) = none

  abbrev flat : {A : Type 0} → Result (Option A) → Option A
  flat (ok o) = o
  flat (err e) = none

  -- The numbers of the dashboard, where all of them could be read.
  unfoldable pub publish : Alert → Option ℕ → Option ℕ → Option ℕ → WorkerState S → WorkerState S
  publish alert (some ta) (some aa) (some tl) st =
      let (r, s) = w.cache.get_counter (stats_key alert "critical_alerts") st.services in
      let stats : DashboardStats = record {
        tenant_id = alert.tenant_id;
        total_logs = tl;
        total_alerts = ta;
        active_alerts = aa;
        critical_alerts = unwrap_or 0 (flat r);
      } in
      record st { services = after (w.save_stats stats) s; stats = st.stats ++ (stats ∷ []) }
  publish alert none aa tl st = st
  publish alert (some ta) none tl st = st
  publish alert (some ta) (some aa) none st = st

  -- The total of logs is only asked for in the end, and always is.
  unfoldable pub count_alert : Alert → WorkerState S → WorkerState S
  unfolding publish
  count_alert alert st =
      let (ta, s1) = w.cache.increment_counter (stats_key alert "total_alerts") 86400 st.services in
      let (aa, s2) = w.cache.increment_counter (stats_key alert "active_alerts") 86400 s1 in
      let s3 =
        if severity_eq alert.severity critical
        then after (w.cache.increment_counter (stats_key alert "critical_alerts") 86400) s2
        else s2 in
      let (tl, s4) = w.cache.get_counter (stats_key alert "total_logs") s3 in
      publish alert (ok? ta) (ok? aa) (flat tl) (record st { services = s4 })

  unfoldable pub process_alert : Call → Call → Alert → WorkerState S → WorkerState S
  unfolding store_alert Response.handle_alert open_case count_alert
  process_alert c d alert st =
      let s =
        after (w.cache.set_string "siem:health:alert_pipeline_last_seen" w.heartbeat (some 300))
          (after (w.record_alert_delivery_latency alert) st.services) in
      count_alert alert (
        on (open_case c d alert) (
          on (Response.handle_alert w.engine alert)
            (store_alert alert (record st { services = s }))))
