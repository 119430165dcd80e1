-- ===== src/Api/Ingest/Items.antt =====
-- The logs of a batch, one after the other: which get into the queue.
use mini_siem_project.Prelude.{
  ℕ, suc, String, Bool, true, false, List, [], ◌∷◌, ◌++◌, ◌≡◌, refl, sym, ◌∙◌, ap, All, length,
  if◌then◌else◌, arith,
}
use mathlib.Core.List.{append-nil, append_assoc}
use mini_siem_project.Types.Log.{Log, Call}
use mini_siem_project.Prelude.Text.{str_eq}
use mini_siem_project.Prelude.Eff.{Result, ok, err}
use mini_siem_project.Costs.Policy.{IngestLogRequest, TenantDataCostPolicy, CostDecision}
use mini_siem_project.Costs.Laws.{is_named, Named, evaluate_cost_decision-Named}
use mini_siem_project.Costs.Decide.{evaluate_cost_decision}
use mini_siem_project.Costs.Usage.{load_tenant_cost_policy}
use mini_siem_project.Queue.Forward.{Waited, sent, receiver_gone, timed_out}
use mini_siem_project.Api.Handler
use mini_siem_project.Api.Handler.{
  Handler, Flow, reply, go, Response, done, json, perform, with_status, ◌>>◌, ◌>>=◌,
}
use mini_siem_project.Api.Ingest.{
  or_keep, keep_decision, on_services, Intake, IntakeState, queue_answer, answer_of,
  IngestLogResponse, log_of_request, decide_and_record, enqueue_ingest_log, ingest_item,
  ingest_items,
}

-- The answers of a batch next to the logs that it put into the queue: each log belongs to the tenant
-- and is the one of an answer that says so, in the same order, and no other answer says so.
pub data Filed (show_id : ℕ → String) (t : String)
    : List IngestLogResponse → List Log → Type 0 where
  nothing : Filed show_id t [] []
  in_queue :
      {answers : List IngestLogResponse} {logs : List Log} (a : IngestLogResponse) (log : Log)
      → a.status ≡ "accepted"
      → a.id ≡ show_id log.id
      → log.tenant_id ≡ t
      → Filed show_id t answers logs
      → Filed show_id t (a ∷ answers) (log ∷ logs)
  left_out :
      {answers : List IngestLogResponse} {logs : List Log} (a : IngestLogResponse)
      → str_eq a.status "accepted" ≡ false
      → Filed show_id t answers logs
      → Filed show_id t (a ∷ answers) logs

abbrev pub Owned : String → List Log → Type 0
Owned t logs = All (λ l. l.tenant_id ≡ t) logs

module _ {S : Type 0} (intake : Intake S) (t : String) where
  -- What one log of a batch does to the queue, by how its handler goes on.
  data ItemCase (R : Type 0) (old new : List Log) : Flow R IngestLogResponse → Type 0 where
    queued_item :
        (a : IngestLogResponse) (log : Log)
        → new ≡ old ++ (log ∷ [])
        → a.status ≡ "accepted"
        → a.id ≡ intake.show_id log.id
        → log.tenant_id ≡ t
        → ItemCase R old new (go a)
    left_item :
        (a : IngestLogResponse)
        → str_eq a.status "accepted" ≡ false
        → new ≡ old
        → ItemCase R old new (go a)
    ended_item : (r : Response R) → r.status ≡ 503 → new ≡ old → ItemCase R old new (reply r)

  sent_case :
      (c : Call) (req : IngestLogRequest) (d : CostDecision) (w : Waited) (st : IntakeState S)
      → let m =
          queue_answer intake {R = List IngestLogResponse} (log_of_request c t req) w
          >> done (answer_of intake c "accepted" d) in
        ItemCase (List IngestLogResponse) st.queued (m st).1.queued (m st).0
  unfolding log_of_request answer_of
  sent_case c req d sent st = queued_item _ _ refl refl refl refl
  sent_case c req d receiver_gone st = ended_item _ refl refl
  sent_case c req d timed_out st = ended_item _ refl refl

  keep_case :
      (c : Call) (req : IngestLogRequest) (d : CostDecision) (b : Bool) (st : IntakeState S)
      → is_named b d.action ≡ true
      → let m =
          if b
          then enqueue_ingest_log intake {R = List IngestLogResponse} (log_of_request c t req)
            >> done (answer_of intake c "accepted" d)
          else done (answer_of intake c d.action d) in
        ItemCase (List IngestLogResponse) st.queued (m st).1.queued (m st).0
  unfolding enqueue_ingest_log answer_of
  keep_case c req d true st n = sent_case c req d _ _
  keep_case c req d false st n = left_item _ (ground (arith, n)) refl

  or_keep-is_named :
      (req : IngestLogRequest) (r : Result (TenantDataCostPolicy × CostDecision))
      → Named r
      → is_named (or_keep req r).keep (or_keep req r).action ≡ true
  unfolding keep_decision
  or_keep-is_named req (ok (p, d)) n = n
  or_keep-is_named req (err e) n = refl

  ingest_item-case :
      (c : Call) (req : IngestLogRequest) (st : IntakeState S)
      → ItemCase
          (List IngestLogResponse)
          st.queued
          (ingest_item intake c t req st).1.queued
          (ingest_item intake c t req st).0
  unfolding ingest_item decide_and_record
  ingest_item-case c req st =
      keep_case c req
        (or_keep req
          (on_services
            (evaluate_cost_decision intake.store.cache intake.x intake.print
              (load_tenant_cost_policy intake.store intake.codec t) intake.day t req)
            st).0)
        _ _
        (or_keep-is_named req _ (
          evaluate_cost_decision-Named intake.store.cache intake.x intake.print
            (load_tenant_cost_policy intake.store intake.codec t) intake.day t req st.services))

  -- What a batch does to the queue.
  pub data ItemsCase (R : Type 0) (n : ℕ) (old new : List Log)
      : Flow R (List IngestLogResponse) → Type 0 where
    finished :
        (answers : List IngestLogResponse) (logs : List Log)
        → length answers ≡ n
        → new ≡ old ++ logs
        → Filed intake.show_id t answers logs
        → ItemsCase R n old new (go answers)
    broken_off :
        (r : Response R) (logs : List Log)
        → r.status ≡ 503
        → new ≡ old ++ logs
        → Owned t logs
        → ItemsCase R n old new (reply r)

  consed :
      {R : Type 0}
      → IngestLogResponse
      → Flow R (List IngestLogResponse)
      → Handler (IntakeState S) R (List IngestLogResponse)
  consed a f = Handler.continue f (λ as'. done (a ∷ as'))

  left_case :
      {R : Type 0} {n : ℕ} {f : Flow R (List IngestLogResponse)} (a : IngestLogResponse)
      (old mid : List Log) (st : IntakeState S)
      → ItemsCase R n mid st.queued f
      → str_eq a.status "accepted" ≡ false
      → mid ≡ old
      → ItemsCase R (suc n) old (consed a f st).1.queued (consed a f st).0
  unfolding consed
  left_case a old mid st (finished answers logs l e h) w g =
      finished (a ∷ answers) logs (omega (arith, l)) (rw⁻¹ g e) (left_out a w h)
  left_case a old mid st (broken_off r logs z e h) w g = broken_off r logs z (rw⁻¹ g e) h

  queued_case :
      {R : Type 0} {n : ℕ} {f : Flow R (List IngestLogResponse)} (a : IngestLogResponse) (log : Log)
      (old mid : List Log) (st : IntakeState S)
      → ItemsCase R n mid st.queued f
      → mid ≡ old ++ (log ∷ [])
      → a.status ≡ "accepted"
      → a.id ≡ intake.show_id log.id
      → log.tenant_id ≡ t
      → ItemsCase R (suc n) old (consed a f st).1.queued (consed a f st).0
  unfolding consed
  queued_case a log old mid st (finished answers logs l e h) g s i o =
      finished (a ∷ answers) (log ∷ logs) (omega (arith, l))
        (e ∙ (ap (λ q. q ++ logs) g ∙ append_assoc old (log ∷ []) logs)) (in_queue a log s i o h)
  queued_case a log old mid st (broken_off r logs z e h) g s i o =
      broken_off r (log ∷ logs) z (e ∙ (ap (λ q. q ++ logs) g ∙ append_assoc old (log ∷ []) logs))
        (o, h)

  step :
      {R : Type 0}
      → Flow R IngestLogResponse
      → Handler (IntakeState S) R (List IngestLogResponse)
      → Handler (IntakeState S) R (List IngestLogResponse)
  step f rest = Handler.continue f λ a. rest >>= λ as'. done (a ∷ as')

  step_case :
      {R : Type 0} {n : ℕ} {f : Flow R IngestLogResponse} (old : List Log)
      (rest : Handler (IntakeState S) R (List IngestLogResponse)) (st : IntakeState S)
      → ItemCase R old st.queued f
      → ItemsCase R n st.queued (rest st).1.queued (rest st).0
      → ItemsCase R (suc n) old (step f rest st).1.queued (step f rest st).0
  unfolding step consed
  step_case old rest st (queued_item a log g s i o) h = queued_case a log old st.queued _ h g s i o
  step_case old rest st (left_item a w g) h = left_case a old st.queued _ h w g
  step_case old rest st (ended_item r z g) h = broken_off r [] z (g ∙ sym (append-nil old)) tt

  pub ingest_items-case :
      (reqs : List (Call × IngestLogRequest)) (st : IntakeState S)
      → ItemsCase
          (List IngestLogResponse)
          (length reqs)
          st.queued
          (ingest_items intake reqs t st).1.queued
          (ingest_items intake reqs t st).0
  unfolding ingest_items step
  ingest_items-case [] st = finished [] [] refl (sym (append-nil st.queued)) nothing
  ingest_items-case ((c, req) ∷ reqs) st =
      step_case st.queued (ingest_items intake reqs t) (ingest_item intake c t req st).1
        (ingest_item-case c req st) (ingest_items-case reqs (ingest_item intake c t req st).1)
