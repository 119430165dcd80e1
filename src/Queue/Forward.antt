-- ===== src/Queue/Forward.antt =====
-- A message from the queue into the bounded channel of its pipeline, and what happens while the
-- channel is full. What the channel and the consumer answer is given with each message.
pub mod Laws
use Prim.Native.Nat.{min}
use mathlib.Core.Option
use mini_siem_project.Prelude.{
  ℕ, ◌+◌, ◌%◌, ◌^◌, Bool, true, false, String, Option, none, some, List, [], ◌∷◌, ◌++◌,
  if◌then◌else◌, ◌==◌,
}
use mini_siem_project.Types.Log.{Log}
use mini_siem_project.Types.Alert.{Alert}

-- `Sender::try_send`
pub data TrySend : Type 0 where
  accepted : TrySend
  full : TrySend
  closed : TrySend

-- `timeout(…, tx.send(…))`
pub data Waited : Type 0 where
  sent : Waited
  receiver_gone : Waited
  timed_out : Waited

-- The answers to one message: whether the channel takes it at once; whether the assignment can be
-- read; whether pausing and resuming work; the outcome of a wait of so many milliseconds, and
-- whether a wait without limit ends with the message taken.
pub record Answers : Type 0 where
  pub try_send : TrySend
  pub assignment : Bool
  pub pause : Bool
  pub resume : Bool
  pub within : ℕ → Waited
  pub unlimited : Bool

-- What went into the channel, the counter of the messages that found it full, and whether the two
-- consumers of the queue are paused.
pub record Feed (A : Type 0) : Type 0 where
  pub delivered : List A
  pub full_counter : Option ℕ
  pub consumer_paused : Bool
  pub alert_consumer_paused : Bool

-- How the loop goes on after a message: with the next one, this one in the channel; with the next
-- one, this one dropped; or not at all.
pub data Verdict : Type 0 where
  passed : Verdict
  dropped : Verdict
  stopped : Verdict

module _ {A : Type 0} where
  unfoldable pub deliver : A → Feed A → Feed A
  deliver a q = record q { delivered = q.delivered ++ (a ∷ []) }

  unfoldable pub store_zero : Feed A → Feed A
  store_zero q = record q { full_counter = Option.map (λ n. 0) q.full_counter }

  unfoldable pub fetch_add : Feed A → Feed A
  fetch_add q = record q { full_counter = Option.map (λ n. (n + 1) % 2 ^ 64) q.full_counter }

  -- `self.consumer.pause`, which fails without effect.
  unfoldable pub pause : Answers → Feed A → Feed A
  pause o q = if o.pause then record q { consumer_paused = true } else q

  -- `self.consumer.resume`
  unfoldable pub resume : Answers → Feed A → Feed A
  resume o q = if o.resume then record q { consumer_paused = false } else q

  -- The wait for a while, with the consumer running.
  unfoldable pub send_within : ℕ → Answers → A → Feed A → Verdict × Feed A
  unfolding deliver store_zero fetch_add
  send_within ms o a q = elim (o.within ms) [
    | sent ↦ (passed, store_zero (deliver a q))
    | receiver_gone ↦ (stopped, q)
    | timed_out ↦ (dropped, fetch_add q)
  ]

  -- The wait with the consumer paused; without limit if `timeout` is 0.
  unfoldable pub send_paused : ℕ → Answers → A → Feed A → Verdict × Feed A
  unfolding deliver store_zero fetch_add resume
  send_paused timeout o a q =
      if timeout == 0
      then (if o.unlimited then (passed, store_zero (resume o (deliver a q))) else (stopped, q))
      else (elim (o.within timeout) [
        | sent ↦ (passed, store_zero (resume o (deliver a q)))
        | receiver_gone ↦ (stopped, q)
        | timed_out ↦ (dropped, fetch_add (resume o q))
      ])

unfoldable pub wait_ms : ℕ → ℕ
wait_ms timeout = if timeout == 0 then 50 else min 50 timeout

unfoldable pub forward_log : Bool → ℕ → Answers → Log → Feed Log → Verdict × Feed Log
unfolding deliver store_zero pause send_within send_paused wait_ms
forward_log pause_on_full timeout o log q = elim o.try_send [
  | accepted ↦ (passed, store_zero (deliver log q))
  | full ↦
      if pause_on_full
      then (if o.assignment
          then send_paused timeout o log (pause o q)
          else send_within (wait_ms timeout) o log q)
      else send_within 50 o log q
  | closed ↦ (stopped, q)
]

-- The same for an alert, which pauses and resumes the consumer of the logs as well.
unfoldable pub forward_alert : Bool → ℕ → Answers → Alert → Feed Alert → Verdict × Feed Alert
unfolding deliver store_zero pause send_within send_paused wait_ms
forward_alert pause_on_full timeout o alert q = elim o.try_send [
  | accepted ↦ (passed, store_zero (deliver alert q))
  | full ↦
      if pause_on_full
      then (if o.assignment
          then send_paused timeout o alert (pause o q)
          else send_within (wait_ms timeout) o alert q)
      else send_within (wait_ms timeout) o alert q
  | closed ↦ (stopped, q)
]
