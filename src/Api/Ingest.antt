-- ===== src/Api/Ingest.antt =====
-- The intake of logs: one at a time or in batches, after the quota and the cost controller, into the
-- queue's producer.
pub mod Items
pub mod Laws
use Prim.Native.Nat.{max}
use mini_siem_project.Prelude.{
  ℕ, ◌+◌, ltb, length, unwrap_or, Bool, true, false, not, String, Option, none, some, List, [], ◌∷◌,
  ◌++◌, if◌then◌else◌,
}
use mini_siem_project.Prelude.Int.{ℤ}
use mini_siem_project.Prelude.Text.{◌++ₛ◌}
use mini_siem_project.Prelude.Eff.{Result, ok, err, Eff}
use mini_siem_project.Types.Json.{Value, null}
use mini_siem_project.Types.Log.{Log, Call, info}
use mini_siem_project.Types.External.{External}
use mini_siem_project.Auth.Claims.{Claims}
use mini_siem_project.Costs.Policy.{IngestLogRequest, CostDecision}
use mini_siem_project.Costs.Decide.{evaluate_cost_decision}
use mini_siem_project.Costs.Usage.{
  CostStore, PolicyCodec, load_tenant_cost_policy, record_cost_usage,
}
use mini_siem_project.Queue.Forward.{Waited, sent, receiver_gone, timed_out}
use mini_siem_project.Api.Handler.{
  Handler, Response, text, done, respond, with_status, with_text, outcome_of, perform, present,
  ◌>>=◌, ◌>>◌,
}
use mini_siem_project.Api.Tenant.{FixedWindow, enforce_tenant_fixed_window}

pub record IngestLogResponse : Type 0 where
  pub id : String
  pub status : String
  pub accepted_at : ℤ
  pub cost_action : Option String
  pub cost_reason : Option String

-- The services behind the handlers, the settings they read, and the texts of an identifier and of
-- the time in seconds.
pub record Intake (S : Type 0) : Type 0 where
  pub store : CostStore S
  pub codec : PolicyCodec
  pub x : External
  pub print : Value → String
  pub day : String
  pub allow_fixed_window : FixedWindow S
  pub ingest_events_per_minute : ℕ
  -- `timeout(25 ms, ingest_tx.send(log))`
  pub ingest_send : Log → S → Waited × S
  pub show_id : ℕ → String
  pub heartbeat : String

-- The services, and the logs that the channel of the queue's producer has taken, oldest first.
pub record IntakeState (S : Type 0) : Type 0 where
  pub services : S
  pub queued : List Log

abbrev pub on_services : {S A : Type 0} → Eff S A → Eff (IntakeState S) A
on_services m st = let (r, s) = m st.services in (r, record st { services = s })

abbrev pub missing_auth : {R : Type 0} → Response R
missing_auth = record { status = 401; body = text "missing auth" }

-- The log of a request, under the tenant of the claims.
unfoldable pub log_of_request : Call → String → IngestLogRequest → Log
log_of_request c tenant req = record {
  id = c.fresh_id;
  tenant_id = tenant;
  timestamp = unwrap_or c.now req.timestamp;
  event_type = req.event_type;
  source_ip = req.source_ip;
  target_user = req.target_user;
  service = req.service;
  message = req.message;
  severity = unwrap_or info req.severity;
  metadata = unwrap_or null req.metadata;
  received_at = c.now;
}

-- What is done with a log for which the cost controller fails.
unfoldable pub keep_decision : IngestLogRequest → CostDecision
keep_decision req = record {
  action = "keep";
  keep = true;
  sampled = false;
  dropped = false;
  sample_rate_percent = 100;
  reason = "cost controller unavailable";
  estimated_bytes = 0;
  source_key = req.source_ip;
  integration_key = unwrap_or req.event_type req.service;
  team_key = "unassigned";
}

abbrev or_keep : {P : Type 0} → IngestLogRequest → Result (P × CostDecision) → CostDecision
or_keep req (ok (p, d)) = d
or_keep req (err e) = keep_decision req

abbrev total_logs : String → String
total_logs tenant = "siem:tenant:" ++ₛ tenant ++ₛ ":stats:total_logs"

module _ {S : Type 0} (intake : Intake S) where
  unfoldable pub answer_of : Call → String → CostDecision → IngestLogResponse
  answer_of c status d = record {
    id = intake.show_id c.fresh_id;
    status = status;
    accepted_at = c.now;
    cost_action = some d.action;
    cost_reason = some d.reason;
  }

  module _ {R : Type 0} where
    abbrev pub queue_answer : Log → Waited → Handler (IntakeState S) R (Unit {0})
    queue_answer log sent = λ st. done tt (record st { queued = st.queued ++ (log ∷ []) })
    queue_answer log receiver_gone = with_text 503 "ingest unavailable"
    queue_answer log timed_out = with_text 503 "ingest backlog"

    unfoldable pub enqueue_ingest_log : Log → Handler (IntakeState S) R (Unit {0})
    enqueue_ingest_log log st =
        let (w, s) = intake.ingest_send log st.services in
        queue_answer log w (record st { services = s })

    -- The cost controller's decision, and its record.
    unfoldable pub decide_and_record :
        String → IngestLogRequest → Handler (IntakeState S) R CostDecision
    unfolding keep_decision
    decide_and_record tenant req = do
      r ← outcome_of (
          on_services (
            evaluate_cost_decision intake.store.cache intake.x intake.print
              (load_tenant_cost_policy intake.store intake.codec tenant) intake.day tenant req))
      perform
          (on_services (record_cost_usage intake.store intake.x intake.day tenant (or_keep req r)))
      done (or_keep req r)

    unfoldable pub heartbeats : Handler (IntakeState S) R (Unit {0})
    heartbeats = do
      perform (
          on_services (
            intake.store.cache.set_string "siem:health:agent_last_seen" intake.heartbeat
              (some 300)))
      perform (
          on_services (
            intake.store.cache.set_string "siem:health:ingest_last_seen" intake.heartbeat
              (some 300)))

  unfoldable pub accept_log :
      Call
      → String
      → IngestLogRequest
      → CostDecision
      → Handler (IntakeState S) IngestLogResponse (Unit {0})
  unfolding answer_of log_of_request enqueue_ingest_log heartbeats
  accept_log c tenant req d = do
    enqueue_ingest_log (log_of_request c tenant req)
    heartbeats
    perform (on_services (intake.store.cache.increment_counter (total_logs tenant) 86400))
    with_status 202 (answer_of c "accepted" d)

  unfoldable pub ingest_log :
      Call → Option Claims → IngestLogRequest → Handler (IntakeState S) IngestLogResponse (Unit {0})
  unfolding decide_and_record accept_log answer_of
  ingest_log c auth req = do
    claims ← present missing_auth auth
    enforce_tenant_fixed_window (λ k w l n. on_services (intake.allow_fixed_window k w l n))
        claims.tenant_id "ingest_events" intake.ingest_events_per_minute 1
    d ← decide_and_record claims.tenant_id req
    (if d.keep
        then accept_log c claims.tenant_id req d
        else with_status 202 (answer_of c d.action d))

  -- One log of a batch, with its identifier and the time, which is the same for all logs of a batch
  -- in the code: its answer, unless the queue ends the request.
  unfoldable pub ingest_item :
      Call
      → String
      → IngestLogRequest
      → Handler (IntakeState S) (List IngestLogResponse) IngestLogResponse
  unfolding decide_and_record answer_of log_of_request enqueue_ingest_log
  ingest_item c tenant req = do
    d ← decide_and_record tenant req
    (if d.keep
        then enqueue_ingest_log (log_of_request c tenant req) >> done (answer_of c "accepted" d)
        else done (answer_of c d.action d))

  unfoldable pub ingest_items :
      List (Call × IngestLogRequest)
      → String
      → Handler (IntakeState S) (List IngestLogResponse) (List IngestLogResponse)
  unfolding ingest_item
  ingest_items [] tenant = done []
  ingest_items ((c, req) ∷ reqs) tenant = do
    a ← ingest_item c tenant req
    as' ← ingest_items reqs tenant
    done (a ∷ as')

  unfoldable pub ingest_batch :
      List (Call × IngestLogRequest)
      → Option Claims
      → Handler (IntakeState S) (List IngestLogResponse) (Unit {0})
  unfolding ingest_items heartbeats
  ingest_batch reqs auth = do
    claims ← present missing_auth auth
    enforce_tenant_fixed_window (λ k w l n. on_services (intake.allow_fixed_window k w l n))
        claims.tenant_id "ingest_events" intake.ingest_events_per_minute (max (length reqs) 1)
    answers ← ingest_items reqs claims.tenant_id
    heartbeats
    (if ltb 0 (length answers)
        then perform (
            on_services (intake.store.incr_by (total_logs claims.tenant_id) (length answers) 86400))
        else done tt)
    with_status 202 answers
