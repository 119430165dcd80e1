-- ===== src/Api/Ingest/Laws.antt =====
-- How a batch ends, and which of its logs are in the queue then.
use mini_siem_project.Prelude.{
  ℕ, String, Bool, true, false, some, List, [], ◌++◌, ◌≡◌, refl, sym, length, if◌then◌else◌, ltb,
  arith,
}
use mathlib.Core.List.{append-nil}
use mini_siem_project.Prelude.Eff.{Result, ok, err}
use mini_siem_project.Types.Log.{Log, Call}
use mini_siem_project.Auth.Claims.{Claims}
use mini_siem_project.Costs.Policy.{IngestLogRequest}
use mini_siem_project.Api.Handler
use mini_siem_project.Api.Handler.{
  Handler, Flow, reply, go, Response, done, json, perform, with_status, ◌>>◌, ◌>>=◌,
}
use mini_siem_project.Api.Tenant.{enforce_tenant_fixed_window, quota_answer}
use mini_siem_project.Api.Ingest.{
  total_logs, on_services, Intake, IntakeState, IngestLogResponse, heartbeats, ingest_items,
  ingest_batch,
}
use mini_siem_project.Api.Ingest.Items.{
  Filed, Owned, ItemsCase, finished, broken_off, ingest_items-case,
}

module _ {S : Type 0} (intake : Intake S) (t : String) where
  -- How a batch of `n` logs ends, by its response: all is answered, or the request broke off.
  pub data BatchCase (n : ℕ) (old new : List Log)
      : Flow (List IngestLogResponse) (Unit {0}) → Type 0 where
    served :
        (answers : List IngestLogResponse) (logs : List Log)
        → length answers ≡ n
        → new ≡ old ++ logs
        → Filed intake.show_id t answers logs
        → BatchCase n old new (reply (record { status = 202; body = json answers }))
    refused :
        (r : Response (List IngestLogResponse)) (logs : List Log)
        → ltb 400 r.status ≡ true
        → new ≡ old ++ logs
        → Owned t logs
        → BatchCase n old new (reply r)

  count_logs : ℕ → Bool → Handler (IntakeState S) (List IngestLogResponse) (Unit {0})
  count_logs n b =
      if b then perform (on_services (intake.store.incr_by (total_logs t) n 86400)) else done tt

  batch_end :
      Flow (List IngestLogResponse) (List IngestLogResponse)
      → Handler (IntakeState S) (List IngestLogResponse) (Unit {0})
  batch_end f = Handler.continue f λ answers.
      heartbeats intake
      >> count_logs (length answers) (ltb 0 (length answers))
      >> with_status 202 answers

  served_case :
      (n : ℕ) (old : List Log) (answers : List IngestLogResponse) (logs : List Log) (b : Bool)
      (k : ℕ) (st : IntakeState S)
      → length answers ≡ n
      → st.queued ≡ old ++ logs
      → Filed intake.show_id t answers logs
      → let m = (count_logs k b >> with_status 202 answers) st in BatchCase n old m.1.queued m.0
  unfolding count_logs
  served_case n old answers logs true k st l e h = served answers logs l e h
  served_case n old answers logs false k st l e h = served answers logs l e h

  end_case :
      {n : ℕ} {f : Flow (List IngestLogResponse) (List IngestLogResponse)} (old : List Log)
      (st : IntakeState S)
      → ItemsCase intake t (List IngestLogResponse) n old st.queued f
      → BatchCase n old (batch_end f st).1.queued (batch_end f st).0
  unfolding batch_end heartbeats
  end_case old st (finished answers logs l e h) = served_case _ old answers logs _ _ _ l e h
  end_case old st (broken_off r logs z e h) = refused r logs (ground (arith, z)) e h

  quota_case :
      (q : Result Bool) (reqs : List (Call × IngestLogRequest)) (st : IntakeState S)
      → let m =
          (quota_answer "ingest_events" q
              >> (λ s. batch_end (ingest_items intake reqs t s).0 (ingest_items intake reqs t s).1))
            st in
        BatchCase (length reqs) st.queued m.1.queued m.0
  unfolding quota_answer
  quota_case (ok true) reqs st = end_case st.queued _ (ingest_items-case intake t reqs st)
  quota_case (ok false) reqs st = refused _ [] refl (sym (append-nil st.queued)) tt
  quota_case (err e) reqs st = refused _ [] refl (sym (append-nil st.queued)) tt

-- A batch with claims ends in one of two ways. It is answered with status 202 and one answer for each
-- of its logs, and then the queue has grown by logs of the claims' tenant, which are those of answers
-- with status "accepted", in their order. Or its status is above 400, and then the queue has grown by
-- logs of the claims' tenant.
pub ingest_batch-case :
    {S : Type 0} (intake : Intake S) (reqs : List (Call × IngestLogRequest)) (claims : Claims)
    (st : IntakeState S)
    → BatchCase intake claims.tenant_id
        (length reqs)
        st.queued
        (ingest_batch intake reqs (some claims) st).1.queued
        (ingest_batch intake reqs (some claims) st).0
unfolding ingest_batch batch_end count_logs enforce_tenant_fixed_window
ingest_batch-case intake reqs claims st = quota_case intake claims.tenant_id _ reqs _
