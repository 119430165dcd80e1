-- ===== src/Detection/Engine/Process/Laws.antt =====
-- Every alert that a log raises is counted and reaches the live listeners once.
use mathlib.Core.List.{append-nil, append_assoc}
use mini_siem_project.Prelude.{
  ℕ, ◌+◌, ◌%◌, ◌^◌, ◌<◌, ◌≡◌, refl, ap, sym, ◌∙◌, Option, none, some, List, [], ◌∷◌, ◌++◌, length,
  arith, if◌then◌else◌,
}
use mini_siem_project.Prelude.Eff.{Result, ok, err}
use mini_siem_project.Types.Log.{Log, Call}
use mini_siem_project.Types.Alert.{Alert, critical, severity_eq}
use mini_siem_project.Types.External.{External}
use mini_siem_project.Detection.Cache.{Cache}
use mini_siem_project.Detection.Rules.Correlation.Evaluate.{Codec}
use mini_siem_project.Detection.CompiledRule.{CompiledRule, evaluate}
use mini_siem_project.Detection.Engine.Index.{RuleIndex, candidates}
use mini_siem_project.Detection.Engine.Stats.{LocalStats, incr_log, incr_alert}
use mini_siem_project.Detection.Engine.Process.{
  EngineState, Delivery, evaluate_all, fired, tally, deliver, deliver_all, process_log,
}

abbrev pub count_critical : List Alert → ℕ
count_critical [] = 0
count_critical (a ∷ as') = (if severity_eq a.severity critical then 1 else 0) + count_critical as'

-- The counters after some alerts, modulo 2^64.
pub record Counted (alerts : List Alert) (before after : LocalStats) : Type 0 where
  pub logs_same : after.total_logs ≡ before.total_logs
  pub total : after.total_alerts ≡ (before.total_alerts + length alerts) % 2 ^ 64
  pub active : after.active_alerts ≡ (before.active_alerts + length alerts) % 2 ^ 64
  pub critical_ones :
      after.critical_alerts ≡ (before.critical_alerts + count_critical alerts) % 2 ^ 64

-- The counters after a log that raised some alerts, modulo 2^64.
pub record Noted (alerts : List Alert) (before after : LocalStats) : Type 0 where
  pub logs : after.total_logs ≡ (before.total_logs + 1) % 2 ^ 64
  pub total : after.total_alerts ≡ (before.total_alerts + length alerts) % 2 ^ 64
  pub active : after.active_alerts ≡ (before.active_alerts + length alerts) % 2 ^ 64
  pub critical_ones :
      after.critical_alerts ≡ (before.critical_alerts + count_critical alerts) % 2 ^ 64

-- Counters of 64 bits.
pub record InRange (s : LocalStats) : Type 0 where
  pub total_fits : s.total_alerts < 2 ^ 64
  pub active_fits : s.active_alerts < 2 ^ 64
  pub critical_fits : s.critical_alerts < 2 ^ 64

incr_alert-InRange :
    (s : LocalStats) (a : Alert)
    → InRange s
    → InRange (incr_alert s (severity_eq a.severity critical))
unfolding incr_alert
incr_alert-InRange s a h = ground arith

incr_log-InRange : (s : LocalStats) → InRange s → InRange (incr_log s)
unfolding incr_log
incr_log-InRange s h = ground arith

Noted-Counted :
    (alerts : List Alert) (s t : LocalStats) → Counted alerts (incr_log s) t → Noted alerts s t
unfolding incr_log
Noted-Counted alerts s t h = record {
  logs = h.logs_same;
  total = h.total;
  active = h.active;
  critical_ones = h.critical_ones;
}

Counted-cons :
    (a : Alert) (as' : List Alert) (s t : LocalStats)
    → InRange s
    → Counted as' (incr_alert s (severity_eq a.severity critical)) t
    → Counted (a ∷ as') s t
unfolding incr_alert
Counted-cons a as' s t r h = ground (arith, h.logs_same, h.total, h.active, h.critical_ones)

tally_lem :
    (outcomes : List (Result (Option Alert))) (stats : LocalStats)
    → InRange stats
    → Counted (fired outcomes) stats (tally outcomes stats)
unfolding tally
tally_lem [] stats h = ground (arith, h.total_fits, h.active_fits, h.critical_fits)
tally_lem (ok (some alert) ∷ rest) stats h = Counted-cons alert (fired rest) stats _ h (
    tally_lem rest (incr_alert stats (severity_eq alert.severity critical))
      (incr_alert-InRange stats alert h))
tally_lem (ok none ∷ rest) stats h = tally_lem rest stats h
tally_lem (err e ∷ rest) stats h = tally_lem rest stats h

module _ {S : Type 0} (delivery : Delivery S) where
  deliver-live :
      (a : Alert) (st : EngineState S)
      → ((deliver delivery a st).live ≡ st.live ++ a ∷ [])
        × ((deliver delivery a st).stats ≡ st.stats)
  unfolding deliver
  deliver-live a st = ground arith

  deliver_all-live :
      (as' : List Alert) (st : EngineState S)
      → ((deliver_all delivery as' st).live ≡ st.live ++ as')
        × ((deliver_all delivery as' st).stats ≡ st.stats)
  unfolding deliver_all
  deliver_all-live [] st = (sym (append-nil _), refl)
  deliver_all-live (a ∷ as') st =
      let (live, stats) = deliver-live a st in
      let (live', stats') = deliver_all-live as' (deliver delivery a st) in
      (live' ∙ ap (λ l. l ++ as') live ∙ append_assoc st.live (a ∷ []) as', stats' ∙ stats)

-- The alert of one outcome.
abbrev alert_in : Result (Option Alert) → List Alert
alert_in (ok (some a)) = a ∷ []
alert_in (ok none) = []
alert_in (err e) = []

fired-cons :
    (o : Result (Option Alert)) (os : List (Result (Option Alert)))
    → fired (o ∷ os) ≡ alert_in o ++ fired os
fired-cons (ok (some a)) os = refl
fired-cons (ok none) os = refl
fired-cons (err e) os = refl

module _ {S : Type 0} (cache : Cache S) (codec : Codec) (x : External) where
  -- The alerts that a log raises at some rules, one after the other.
  unfoldable raised : Log → List (Call × CompiledRule) → S → List Alert
  raised log [] s = []
  raised log ((c, r) ∷ rest) s =
      let (outcome, t) = evaluate cache codec x c log r s in alert_in outcome ++ raised log rest t

  fired-evaluate_all :
      (log : Log) (rules : List (Call × CompiledRule)) (s : S)
      → fired (evaluate_all cache codec x log rules s).0 ≡ raised log rules s
  unfolding raised evaluate_all
  fired-evaluate_all log [] s = refl
  fired-evaluate_all log ((c, r) ∷ rest) s =
      let (outcome, t) = evaluate cache codec x c log r s in
      fired-cons outcome (evaluate_all cache codec x log rest t).0
      ∙ ap (λ l. alert_in outcome ++ l) (fired-evaluate_all log rest t)

module _ {S : Type 0} (cache : Cache S) (codec : Codec) (x : External)
    (schedule : List CompiledRule → List (Call × CompiledRule)) where
  -- The alerts of a log: those that it raises at the rules of its tenant in the index.
  pub alerts_of : RuleIndex → Log → S → List Alert
  unfolding raised
  alerts_of index log s = raised cache codec x log (schedule (candidates index log)) s

module _ {S : Type 0} (cache : Cache S) (codec : Codec) (x : External) (delivery : Delivery S)
    (schedule : List CompiledRule → List (Call × CompiledRule)) where
  -- While the counters fit 64 bits, a log adds one to the count of logs and its alerts to the other
  -- counts, modulo 2 ^ 64 and the critical ones apart, and each of its alerts reaches the live
  -- listeners once, in order, whether or not the queue takes it and whatever errors other rules end
  -- with.
  pub process_log_lem :
      (index : RuleIndex) (log : Log) (st : EngineState S)
      → InRange st.stats
      → ((process_log cache codec x delivery schedule index log st).live
          ≡ st.live ++ alerts_of cache codec x schedule index log st.services)
        × Noted
            (alerts_of cache codec x schedule index log st.services)
            st.stats
            (process_log cache codec x delivery schedule index log st).stats
  unfolding process_log alerts_of
  process_log_lem index log st h =
      let outcomes =
        (evaluate_all cache codec x log (schedule (candidates index log)) st.services) in
      let (live, stats) = deliver_all-live delivery (fired outcomes.0) (record st {
        services = (delivery.record_detection_latency outcomes.1).1;
        stats = tally outcomes.0 (incr_log st.stats);
      }) in
      rw⁻¹ (fired-evaluate_all cache codec x log (schedule (candidates index log)) st.services) (
        live,
        rw stats (
            Noted-Counted (fired outcomes.0) st.stats _
              (tally_lem outcomes.0 (incr_log st.stats) (incr_log-InRange st.stats h))),
      )
