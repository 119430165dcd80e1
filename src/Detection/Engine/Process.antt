-- ===== src/Detection/Engine/Process.antt =====
-- One log through the engine: `process_log`. Evaluations run concurrently and come to an end in any
-- order: `schedule` says in which, and what clock and identifier each reads. Each evaluation is
-- taken as one step.
pub mod Laws
use mini_siem_project.Prelude.{ℕ, suc, Bool, Option, none, some, List, [], ◌∷◌, ◌++◌, if◌then◌else◌}
use mini_siem_project.Prelude.Eff.{Result, ok, err, Eff}
use mini_siem_project.Types.Log.{Log, Call}
use mini_siem_project.Types.Alert.{Alert, critical, severity_eq}
use mini_siem_project.Types.External.{External}
use mini_siem_project.Detection.Cache.{Cache}
use mini_siem_project.Detection.Rules.Correlation.Evaluate.{Codec}
use mini_siem_project.Detection.CompiledRule.{CompiledRule, evaluate}
use mini_siem_project.Detection.Engine.Index.{RuleIndex, candidates}
use mini_siem_project.Detection.Engine.Stats.{LocalStats, incr_log, incr_alert}

-- The services behind the engine, its counters, the alerts sent to live listeners and the notices
-- to the worker that broadcasts the counters.
pub record EngineState (S : Type 0) : Type 0 where
  pub services : S
  pub stats : LocalStats
  pub live : List Alert
  pub notices : ℕ

-- What the engine calls: the alert queue with its retries, the direct path (database, notifier and
-- responses) and the latency record.
pub record Delivery (S : Type 0) : Type 0 where
  pub send_alert_with_retry : Alert → Eff S (Unit {0})
  pub handle_alert : Alert → Eff S (Unit {0})
  pub record_detection_latency : Eff S (Unit {0})

-- The alerts among the outcomes; an error is logged and the rest goes on.
abbrev pub fired : List (Result (Option Alert)) → List Alert
fired [] = []
fired (ok (some alert) ∷ rest) = alert ∷ fired rest
fired (ok none ∷ rest) = fired rest
fired (err e ∷ rest) = fired rest

abbrev is_critical : Alert → Bool
is_critical alert = severity_eq alert.severity critical

unfoldable pub tally : List (Result (Option Alert)) → LocalStats → LocalStats
tally [] stats = stats
tally (ok (some alert) ∷ rest) stats = tally rest (incr_alert stats (is_critical alert))
tally (ok none ∷ rest) stats = tally rest stats
tally (err e ∷ rest) stats = tally rest stats

module _ {S : Type 0} (cache : Cache S) (codec : Codec) (x : External) where
  -- The outcomes of the evaluations, and the services after them.
  unfoldable pub evaluate_all :
      Log → List (Call × CompiledRule) → S → List (Result (Option Alert)) × S
  evaluate_all log [] s = ([], s)
  evaluate_all log ((c, r) ∷ rest) s =
      let (outcome, t) = evaluate cache codec x c log r s in
      let (outcomes, u) = evaluate_all log rest t in (outcome ∷ outcomes, u)

module _ {S : Type 0} (delivery : Delivery S) where
  abbrev after_send : Alert → Result (Unit {0}) → S → EngineState S → EngineState S
  after_send alert (ok _) s st = record st {
    services = s;
    live = st.live ++ alert ∷ [];
    notices = suc st.notices;
  }
  after_send alert (err e) s st = record st {
    services = (delivery.handle_alert alert s).1;
    live = st.live ++ alert ∷ [];
  }

  -- An alert goes to the queue, or, when all attempts fail, down the direct path.
  unfoldable pub deliver : Alert → EngineState S → EngineState S
  deliver alert st =
      let (sent, s) = delivery.send_alert_with_retry alert st.services in after_send alert sent s st

  unfoldable pub deliver_all : List Alert → EngineState S → EngineState S
  deliver_all [] st = st
  deliver_all (a ∷ as') st = deliver_all as' (deliver a st)

module _ {S : Type 0} (cache : Cache S) (codec : Codec) (x : External) (delivery : Delivery S)
    (schedule : List CompiledRule → List (Call × CompiledRule)) where
  unfoldable pub process_log : RuleIndex → Log → EngineState S → EngineState S
  process_log index log st =
      let (outcomes, s) =
        evaluate_all cache codec x log (schedule (candidates index log)) st.services in
      deliver_all delivery (fired outcomes) (record st {
        services = (delivery.record_detection_latency s).1;
        stats = tally outcomes (incr_log st.stats);
      })
