-- ===== src/Queue/Forward/Laws.antt =====
-- What a message does to its channel, whatever the answers are.
use mini_siem_project.Prelude.{ℕ, Bool, true, false, [], ◌∷◌, ◌++◌, ◌≡◌, ◌≢◌, arith}
use mini_siem_project.Types.Log.{Log}
use mini_siem_project.Types.Alert.{Alert}
use mini_siem_project.Queue.Forward.{
  closed, sent, Answers, Feed, passed, forward_log, forward_alert, deliver, store_zero, fetch_add,
  pause, resume, send_within, send_paused, wait_ms,
}

-- The channel takes the message, at once or after a wait.
pub record Takes (o : Answers) : Type 0 where
  pub not_closed : o.try_send ≢ closed
  pub in_time : (ms : ℕ) → o.within ms ≡ sent
  pub at_last : o.unlimited ≡ true

module _ {A : Type 0} (o : Answers) (a : A) (q : Feed A) where
  pub send_within-passed :
      (ms : ℕ)
      → Takes o
      → ((send_within ms o a q).0 ≡ passed)
        × ((send_within ms o a q).1.delivered ≡ q.delivered ++ (a ∷ []))
  unfolding send_within deliver store_zero
  send_within-passed ms t = ground (arith, t.in_time ms)

  pub send_paused-passed :
      (timeout : ℕ)
      → Takes o
      → ((send_paused timeout o a (pause o q)).0 ≡ passed)
        × ((send_paused timeout o a (pause o q)).1.delivered ≡ q.delivered ++ (a ∷ []))
  unfolding send_paused deliver store_zero resume pause
  send_paused-passed timeout t = ground (arith, t.in_time timeout, t.at_last)

pub forward_log-passed :
    (p : Bool) (timeout : ℕ) (o : Answers) (a : Log) (q : Feed Log)
    → Takes o
    → ((forward_log p timeout o a q).0 ≡ passed)
      × ((forward_log p timeout o a q).1.delivered ≡ q.delivered ++ (a ∷ []))
unfolding forward_log deliver store_zero
forward_log-passed p timeout o a q t = ground (
  arith,
  t.not_closed,
  send_within-passed o a q 50 t,
  send_within-passed o a q (wait_ms timeout) t,
  send_paused-passed o a q timeout t,
)

-- A consumer that runs runs again after the message, where resuming works.
pub forward_log-consumer_paused :
    (p : Bool) (timeout : ℕ) (o : Answers) (a : Log) (q : Feed Log)
    → Takes o
    → o.resume ≡ true
    → q.consumer_paused ≡ false
    → (forward_log p timeout o a q).1.consumer_paused ≡ false
unfolding forward_log deliver store_zero send_within send_paused resume pause
forward_log-consumer_paused p timeout o a q t r h = ground (
  arith,
  t.not_closed,
  t.at_last,
  t.in_time 50,
  t.in_time timeout,
  t.in_time (wait_ms timeout),
  r,
  h,
)

pub send_within-alert_consumer_paused :
    {A : Type 0} (o : Answers) (a : A) (q : Feed A) (ms : ℕ)
    → (send_within ms o a q).1.alert_consumer_paused ≡ q.alert_consumer_paused
unfolding send_within deliver store_zero fetch_add
send_within-alert_consumer_paused o a q ms = ground arith

pub send_paused-alert_consumer_paused :
    {A : Type 0} (o : Answers) (a : A) (q : Feed A) (ms : ℕ)
    → (send_paused ms o a (pause o q)).1.alert_consumer_paused ≡ q.alert_consumer_paused
unfolding send_paused deliver store_zero fetch_add resume pause
send_paused-alert_consumer_paused o a q ms = ground arith

pub forward_alert-alert_consumer_paused :
    (p : Bool) (timeout : ℕ) (o : Answers) (a : Alert) (q : Feed Alert)
    → (forward_alert p timeout o a q).1.alert_consumer_paused ≡ q.alert_consumer_paused
unfolding forward_alert deliver store_zero
forward_alert-alert_consumer_paused p timeout o a q = ground (
  arith,
  send_within-alert_consumer_paused o a q (wait_ms timeout),
  send_paused-alert_consumer_paused o a q timeout,
)
