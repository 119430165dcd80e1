-- ===== src/Queue/Consume/Laws.antt =====
-- Whole runs of the two consumers.
use mini_siem_project.Prelude.{ℕ, true, false, List, [], ◌∷◌, ◌++◌, ◌≡◌, ◌≢◌, refl, sym, arith}
use mathlib.Core.List.{append-nil, append_assoc}
use mini_siem_project.Prelude.Eff.{ok}
use mini_siem_project.Types.Log.{Log}
use mini_siem_project.Queue.Limiter.{Floats}
use mini_siem_project.Queue.Forward.Laws.{
  Takes, forward_log-passed, forward_log-consumer_paused, forward_alert-alert_consumer_paused,
}
use mini_siem_project.Queue.Consume.{
  LogEvent, cleanup_tick, log_message, unreadable, consumer_error, stream_end, Around, LogLoop,
  Settings, AlertEvent, alert_message, unreadable_alert, alert_consumer_error, AlertLoop,
  ask_shared, is_allowed, after_forward, consume_log, log_step, consume_logs, alert_step,
  consume_alerts,
}

-- The logs among the events.
abbrev pub logs_of : List LogEvent → List Log
logs_of [] = []
logs_of (log_message log o ∷ es) = log ∷ logs_of es
logs_of (cleanup_tick t ∷ es) = logs_of es
logs_of (unreadable ∷ es) = logs_of es
logs_of (consumer_error ∷ es) = logs_of es
logs_of (stream_end ∷ es) = logs_of es

-- No event ends the stream, each log finds its channel open, a consumer that was paused can be
-- resumed, and the shared limiter refuses none.
abbrev pub Smooth : List LogEvent → Type 0
Smooth [] = Unit
Smooth (log_message log o ∷ es) =
    (Takes o.channel × (o.channel.resume ≡ true) × (o.shared_limiter ≢ ok false)) × Smooth es
Smooth (cleanup_tick t ∷ es) = Smooth es
Smooth (unreadable ∷ es) = Smooth es
Smooth (consumer_error ∷ es) = Smooth es
Smooth (stream_end ∷ es) = ⊥

module _ {F : Type 0} (floats : Floats F) (hash : ℕ → ℕ) (settings : Settings) where
  consume_log-delivered :
      (log : Log) (o : Around) (l : LogLoop F)
      → Takes o.channel
      → o.channel.resume ≡ true
      → o.shared_limiter ≢ ok false
      → l.feed.consumer_paused ≡ false
      → ((consume_log floats hash settings log o l).0 ≡ true)
        × ((consume_log floats hash settings log o l).1.feed.consumer_paused ≡ false)
        × ((consume_log floats hash settings log o l).1.feed.delivered
            ≡ l.feed.delivered ++ (log ∷ []))
  unfolding consume_log is_allowed ask_shared after_forward
  consume_log-delivered log o l t r h z = ground (
    arith,
    h,
    forward_log-consumer_paused settings.pause_on_full settings.pause_timeout_ms o.channel log
        l.feed t r z,
    forward_log-passed settings.pause_on_full settings.pause_timeout_ms o.channel log l.feed t,
  )

  -- The shared limiter refuses no log, the channel of each takes it at once or by the end of a wait,
  -- resuming works, and the stream does not end: then a run of the consumer of logs, which is given
  -- no message while it is paused, delivers the readable logs, each once and in their order, whatever
  -- the buckets by address say, and is not paused in the end.
  pub consume_logs-delivered :
      (es : List LogEvent) (l : LogLoop F)
      → Smooth es
      → l.feed.consumer_paused ≡ false
      → ((consume_logs floats hash settings es l).feed.delivered ≡ l.feed.delivered ++ logs_of es)
        × ((consume_logs floats hash settings es l).feed.consumer_paused ≡ false)
  unfolding consume_logs log_step
  consume_logs-delivered [] l h z = (sym (append-nil l.feed.delivered), z)
  consume_logs-delivered (log_message log o ∷ es) l ((t, r, f), h) z =
      let (on, runs, put) = consume_log-delivered log o l t r f z in
      let rest = consume_logs-delivered es (consume_log floats hash settings log o l).1 h runs in
      ground (arith, z, on, put, rest, append_assoc l.feed.delivered (log ∷ []) (logs_of es))
  consume_logs-delivered (cleanup_tick t ∷ es) l h z = consume_logs-delivered es _ h z
  consume_logs-delivered (unreadable ∷ es) l h z = consume_logs-delivered es l h z
  consume_logs-delivered (consumer_error ∷ es) l h z = consume_logs-delivered es l h z
  consume_logs-delivered (stream_end ∷ es) l h z = elim h [ ]

module _ (settings : Settings) where
  alert_step-alert_consumer_paused :
      (e : AlertEvent) (l : AlertLoop)
      → (alert_step settings e l).1.feed.alert_consumer_paused ≡ l.feed.alert_consumer_paused
  unfolding alert_step
  alert_step-alert_consumer_paused (alert_message a t o) l = ground (
    arith,
    forward_alert-alert_consumer_paused settings.pause_on_full settings.pause_timeout_ms o a l.feed,
  )
  alert_step-alert_consumer_paused unreadable_alert l = refl
  alert_step-alert_consumer_paused alert_consumer_error l = refl

  -- The consumer of alerts never pauses or resumes the consumer that it reads from, whatever its
  -- channel answers.
  pub consume_alerts-alert_consumer_paused :
      (es : List AlertEvent) (l : AlertLoop)
      → (consume_alerts settings es l).feed.alert_consumer_paused ≡ l.feed.alert_consumer_paused
  unfolding consume_alerts
  consume_alerts-alert_consumer_paused [] l = refl
  consume_alerts-alert_consumer_paused (e ∷ es) l = ground (
    arith,
    alert_step-alert_consumer_paused e l,
    consume_alerts-alert_consumer_paused es (alert_step settings e l).1,
  )
