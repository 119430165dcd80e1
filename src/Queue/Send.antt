-- ===== src/Queue/Send.antt =====
-- Logs and alerts into the queue.
pub mod Retry
use Prim.Native.Nat.{min}
use mini_siem_project.Prelude.{
  ℕ, zero, suc, ◌+◌, ◌*◌, ◌%◌, ◌^◌, ltb, true, false, String, Option, none, some, List, [], ◌∷◌,
}
use mini_siem_project.Prelude.Text.{◌++ₛ◌, show_nat}
use mini_siem_project.Prelude.Eff.{Result, ok, err, Eff, pure, fail, ◌>>=◌, ◌>>◌, handle}
use mini_siem_project.Types.Log.{Log}
use mini_siem_project.Types.Alert.{Alert}

abbrev pub default_topic : String
default_topic = "siem-logs"

abbrev pub alerts_topic : String
alerts_topic = "siem-alerts"

abbrev pub alerts_dlq_topic : String
alerts_dlq_topic = "siem-alerts-dlq"

abbrev pub logs_dlq_topic : String
logs_dlq_topic = "siem-logs-dlq"

-- A message: its topic, key, payload and headers.
pub record FutureRecord : Type 0 where
  pub topic : String
  pub key : String
  pub payload : String
  pub headers : List (String × String)

-- The producer, which gives up on a message after five seconds, and the clock to sleep by.
pub record Producer (S : Type 0) : Type 0 where
  pub send : FutureRecord → Eff S (Unit {0})
  pub sleep : ℕ → S → S

-- `serde_json::to_string` at the two types, and the text of an identifier.
pub record Encoders : Type 0 where
  pub log_json : Log → Result String
  pub alert_json : Alert → Result String
  pub show_id : ℕ → String

module _ {S : Type 0} (producer : Producer S) (codec : Encoders) where
  abbrev pub or_send_error : Result (Unit {0}) → Eff S (Unit {0})
  or_send_error (ok _) = pure tt
  or_send_error (err e) = fail ("Kafka send error: " ++ₛ e)

  abbrev encoded : Result String → Eff S String
  encoded r s = (r, s)

  unfoldable pub send_log_to : String → Log → Eff S (Unit {0})
  send_log_to topic log = do
    payload ← encoded (codec.log_json log)
    handle
        (producer.send (record {
          topic = topic;
          key = codec.show_id log.id;
          payload = payload;
          headers = ("source_ip", log.source_ip) ∷ [];
        }))
        or_send_error

  -- The queue's own topic is always the default one.
  unfoldable pub send_log : Log → Eff S (Unit {0})
  unfolding send_log_to
  send_log log = send_log_to default_topic log

  unfoldable pub send_alert : Alert → Eff S (Unit {0})
  send_alert alert = do
    payload ← encoded (codec.alert_json alert)
    handle
        (producer.send (record {
          topic = alerts_topic;
          key = codec.show_id alert.id;
          payload = payload;
          headers = [];
        }))
        or_send_error

  abbrev alert_record : Alert → String → String → FutureRecord
  alert_record alert payload topic = record {
    topic = topic;
    key = codec.show_id alert.id;
    payload = payload;
    headers = [];
  }

  -- The outcome of the last resort, where `e` is the error of the last attempt.
  abbrev pub dlq_outcome : String → Result (Unit {0}) → Eff S (Unit {0})
  dlq_outcome e (ok _) = pure tt
  dlq_outcome e (err e2) =
      fail ("Kafka send failed and DLQ publish failed: " ++ₛ e2 ++ₛ "; original: " ++ₛ e)

  abbrev pub last_resort : Alert → String → Option String → ℕ → String → Eff S (Unit {0})
  last_resort alert payload none attempt e =
      fail ("Kafka send failed after " ++ₛ show_nat attempt ++ₛ " attempts: " ++ₛ e)
  last_resort alert payload (some dt) attempt e =
      handle (producer.send (alert_record alert payload dt)) (dlq_outcome e)

  abbrev pub slept : ℕ → Eff S (Unit {0})
  slept ms s = (ok tt, producer.sleep ms s)

  -- The loop over the attempts, with at most so many rounds. `attempt` counts the attempts before
  -- this one and has 32 bits, `backoff` has 64.
  unfoldable pub attempts : Alert → String → Option String → ℕ → ℕ → ℕ → ℕ → Eff S (Unit {0})
  attempts alert payload dlq retries zero attempt backoff = fail "out of rounds"
  attempts alert payload dlq retries (suc rounds) attempt backoff =
      handle (producer.send (alert_record alert payload alerts_topic)) λ r. elim r [
        | ok _ ↦ pure tt
        | err e ↦ elim (ltb retries ((attempt + 1) % 2 ^ 32)) [
          | true ↦ last_resort alert payload dlq ((attempt + 1) % 2 ^ 32) e
          | false ↦ λ s.
              attempts alert payload dlq retries rounds ((attempt + 1) % 2 ^ 32)
                (min ((backoff * 2) % 2 ^ 64) 10000) (producer.sleep backoff s)
        ]
      ]

  -- With `retries` + 1 rounds, which is enough but where `retries` is the greatest number of 32
  -- bits: the source then never stops.
  unfoldable pub send_alert_with_retry : Alert → ℕ → ℕ → Option String → Eff S (Unit {0})
  unfolding attempts
  send_alert_with_retry alert retries backoff_ms dlq_topic = do
    payload ← encoded (codec.alert_json alert)
    attempts alert payload dlq_topic retries (suc retries) 0 backoff_ms
