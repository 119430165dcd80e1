-- ===== src/Queue/Consume.antt =====
-- The two consumers of the queue: each message in the order in which the loop takes it. An event
-- carries what the services answer while the loop handles it.
pub mod Laws
use mini_siem_project.Prelude.{
  ℕ, ◌+◌, ◌%◌, ◌^◌, leb, Bool, true, false, String, Option, none, some, List, [], ◌∷◌, ◌++◌,
  if◌then◌else◌, ◌==◌,
}
use mini_siem_project.Prelude.Int.{ℤ}
use mini_siem_project.Prelude.Eff.{Result, ok, err}
use mini_siem_project.Types.Log.{Log}
use mini_siem_project.Types.Alert.{Alert}
use mini_siem_project.Queue.Limiter.{
  Floats, LocalRateLimitState, Limits, entry_or_new, insert, allow, block_for, cleanup,
}
use mini_siem_project.Queue.Forward.{
  TrySend, accepted, full, closed, Answers, Feed, Verdict, passed, dropped, stopped, forward_log,
  forward_alert,
}

pub record Settings : Type 0 where
  pub pause_on_full : Bool
  pub pause_timeout_ms : ℕ
  pub rate_limit_per_ip : ℕ
  pub rate_limit_window_ms : ℕ
  pub rate_limit_sample_rate : ℕ

-- What happens around one log: the time in milliseconds, the answer of the limiter that all the
-- consumers share, the time in seconds that is written as the last sign of life, the channel's
-- answers and that of the indexer's channel.
pub record Around : Type 0 where
  pub now_ms : ℤ
  pub shared_limiter : Result Bool
  pub seen_at : ℤ
  pub channel : Answers
  pub index_channel : TrySend

pub data LogEvent : Type 0 where
  cleanup_tick : ℤ → LogEvent
  log_message : Log → Around → LogEvent
  unreadable : LogEvent
  consumer_error : LogEvent
  stream_end : LogEvent

-- `index` has no list where there is no indexer.
pub record LogLoop (F : Type 0) : Type 0 where
  pub local_rate_limits : Limits F
  pub feed : Feed Log
  pub index : Option (List Log)
  pub last_seen : List ℤ

unfoldable pub forward_index : TrySend → Log → Option (List Log) → Option (List Log)
forward_index answer log none = none
forward_index accepted log (some sent) = some (sent ++ (log ∷ []))
forward_index full log (some sent) = some sent
forward_index closed log (some sent) = some sent

-- Whether a refused log is kept as a sample, by the hash of its identifier.
unfoldable pub is_sample : (ℕ → ℕ) → ℕ → Log → Bool
is_sample hash rate log = if leb rate 1 then true else (hash log.id % rate == 0)

module _ {F : Type 0} (floats : Floats F) (hash : ℕ → ℕ) (settings : Settings) where
  -- The shared limiter's answer, once the bucket of the address is empty or closed.
  unfoldable pub ask_shared : Log → Around → LocalRateLimitState F → Bool × LocalRateLimitState F
  unfolding is_sample block_for
  ask_shared log o state = elim o.shared_limiter [
    | ok true ↦ (true, record state { tokens = floats.of_ℕ 0 })
    | ok false ↦ (
      is_sample hash settings.rate_limit_sample_rate log,
      block_for floats o.now_ms settings.rate_limit_window_ms state,
    )
    | err e ↦ (true, state)
  ]

  unfoldable pub is_allowed : Log → Around → LocalRateLimitState F → Bool × LocalRateLimitState F
  unfolding ask_shared
  is_allowed log o state =
      let (free, state') = allow floats o.now_ms state in
      if free then (true, state') else ask_shared log o state'

  unfoldable pub after_forward : Log → Around → Verdict × Feed Log → LogLoop F → Bool × LogLoop F
  unfolding forward_index
  after_forward log o (stopped, feed) l = (false, record l { feed = feed })
  after_forward log o (passed, feed) l =
      (true, record l { feed = feed; index = forward_index o.index_channel log l.index })
  after_forward log o (dropped, feed) l =
      (true, record l { feed = feed; index = forward_index o.index_channel log l.index })

  -- One log; the first component says whether the loop goes on.
  unfoldable pub consume_log : Log → Around → LogLoop F → Bool × LogLoop F
  unfolding is_allowed after_forward entry_or_new insert forward_log
  consume_log log o l =
      let state =
        entry_or_new floats (settings.rate_limit_per_ip % 2 ^ 32) settings.rate_limit_window_ms
          o.now_ms log.source_ip l.local_rate_limits in
      let (allowed, state') = is_allowed log o state in
      let l' = record l {
        local_rate_limits = insert floats log.source_ip state' l.local_rate_limits;
      } in
      if allowed
      then after_forward log o
          (forward_log settings.pause_on_full settings.pause_timeout_ms o.channel log l'.feed)
          (record l' { last_seen = l'.last_seen ++ (o.seen_at ∷ []) })
      else (true, l')

  -- One event. A paused consumer is given no message.
  unfoldable pub log_step : LogEvent → LogLoop F → Bool × LogLoop F
  unfolding consume_log cleanup
  log_step (cleanup_tick now_ms) l = (
    true,
    record l {
      local_rate_limits = cleanup floats settings.rate_limit_window_ms now_ms l.local_rate_limits;
    },
  )
  log_step (log_message log o) l = if l.feed.consumer_paused then (true, l) else consume_log log o l
  log_step unreadable l = (true, l)
  log_step consumer_error l = (true, l)
  log_step stream_end l = (false, l)

  -- The loop over the events, which ends with the stream or once the channel is closed.
  unfoldable pub consume_logs : List LogEvent → LogLoop F → LogLoop F
  unfolding log_step
  consume_logs [] l = l
  consume_logs (e ∷ es) l =
      let (goes_on, l') = log_step e l in
      let rest = consume_logs es l' in if goes_on then rest else l'

pub data AlertEvent : Type 0 where
  alert_message : Alert → ℤ → Answers → AlertEvent
  unreadable_alert : AlertEvent
  alert_consumer_error : AlertEvent

pub record AlertLoop : Type 0 where
  pub feed : Feed Alert
  pub last_seen : List ℤ

module _ (settings : Settings) where
  abbrev after_alert : Verdict × Feed Alert → AlertLoop → Bool × AlertLoop
  after_alert (stopped, feed) l = (false, record l { feed = feed })
  after_alert (passed, feed) l = (true, record l { feed = feed })
  after_alert (dropped, feed) l = (true, record l { feed = feed })

  unfoldable pub alert_step : AlertEvent → AlertLoop → Bool × AlertLoop
  unfolding forward_alert
  alert_step (alert_message alert seen_at o) l =
      if l.feed.alert_consumer_paused
      then (true, l)
      else after_alert
          (forward_alert settings.pause_on_full settings.pause_timeout_ms o alert l.feed)
          (record l { last_seen = l.last_seen ++ (seen_at ∷ []) })
  alert_step unreadable_alert l = (true, l)
  alert_step alert_consumer_error l = (true, l)

  -- The end of the list of events is the end of the stream.
  unfoldable pub consume_alerts : List AlertEvent → AlertLoop → AlertLoop
  unfolding alert_step
  consume_alerts [] l = l
  consume_alerts (e ∷ es) l =
      let (goes_on, l') = alert_step e l in
      let rest = consume_alerts es l' in if goes_on then rest else l'
