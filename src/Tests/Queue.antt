-- ===== src/Tests/Queue.antt =====
-- Runs of the queue's operations on concrete inputs.
use mini_siem_project.Prelude.{ℕ, String, List, arith, true, false, some, [], ◌∷◌, ◌≡◌, ◌≢◌, refl}
use mini_siem_project.Prelude.Int.{pos}
use mini_siem_project.Prelude.Eff.{ok}
use mini_siem_project.Prelude.{leb, ◌+◌, ◌-◌, ◌*◌}
use Prim.Native.Nat.{min}
use mini_siem_project.Queue.Send.{FutureRecord, Encoders, send_alert_with_retry}
use mini_siem_project.Queue.Send.Retry.{
  Wire, wire, outcome, expected, send_alert_with_retry-expected,
}
use mini_siem_project.Queue.Limiter.{Floats}
use mini_siem_project.Queue.Forward.{Answers, accepted, full, sent, timed_out}
use mini_siem_project.Queue.Forward.Laws.{Takes}
use mini_siem_project.Queue.Consume.{
  Settings, Around, LogLoop, LogEvent, AlertLoop, log_message, unreadable, alert_message,
  consume_logs, consume_alerts,
}
use mini_siem_project.Queue.Consume.Laws.{consume_logs-delivered}
use mini_siem_project.Tests.Samples.{failed_login, alert_of}

abbrev plain_codec : Encoders
plain_codec = record {
  log_json = λ l. ok l.message;
  alert_json = λ a. ok a.description;
  show_id = λ n. "id";
}

abbrev five_failures : Wire
five_failures = record { failures = 4; sent = []; asleep = 0 }

send_alert_with_retry-expected_example :
    outcome (
      send_alert_with_retry wire plain_codec
        (alert_of "acme" "Two")
        3
        200
        (some "siem-alerts-dlq")
        five_failures)
    ≡ expected plain_codec
        (alert_of "acme" "Two")
        "Two"
        (some "siem-alerts-dlq")
        3
        200
        five_failures
send_alert_with_retry-expected_example =
    send_alert_with_retry-expected plain_codec (alert_of "acme" "Two") "Two"
      (some "siem-alerts-dlq") 3 200 five_failures refl (omega arith) (omega arith)

abbrev as_message : String → FutureRecord
as_message topic = record { topic = topic; key = "id"; payload = "Two"; headers = [] }

-- All four attempts fail, after waits of 200, 400 and 800 milliseconds, and the fifth send reaches
-- the dead letter topic.
expected_example :
    expected plain_codec (alert_of "acme" "Two") "Two" (some "siem-alerts-dlq") 3 200 five_failures
    ≡ (
      true,
      record {
        failures = 0;
        sent =
            as_message "siem-alerts"
            ∷ as_message "siem-alerts"
            ∷ as_message "siem-alerts"
            ∷ as_message "siem-alerts"
            ∷ as_message "siem-alerts-dlq"
            ∷ [];
        asleep = 1400;
      },
    )
unfolding expected
expected_example = refl

abbrev whole : Floats ℕ
whole = record {
  of_ℕ = λ n. n;
  of_ℤ = λ z. 0;
  add = λ a b. a + b;
  sub = λ a b. a - b;
  mul = λ a b. a * b;
  div = λ a b. a;
  min = λ a b. min a b;
  ge = λ a b. leb b a;
}

abbrev settings : Settings
settings = record {
  pause_on_full = true;
  pause_timeout_ms = 100;
  rate_limit_per_ip = 1;
  rate_limit_window_ms = 1000;
  rate_limit_sample_rate = 2;
}

-- A channel that is full at first and takes the message while the consumer is paused.
abbrev slow : Answers
slow = record {
  try_send = full;
  assignment = true;
  pause = true;
  resume = true;
  within = λ ms. sent;
  unlimited = true;
}

abbrev around : Around
around = record {
  now_ms = pos 5000;
  shared_limiter = ok true;
  seen_at = pos 5;
  channel = slow;
  index_channel = accepted;
}

fine : Takes slow × (slow.resume ≡ true) × (around.shared_limiter ≢ ok false)
fine = (record { not_closed = λ e. cc e; in_time = λ ms. refl; at_last = refl }, refl, λ e. cc e)

abbrev empty_loop : LogLoop ℕ
empty_loop = record {
  local_rate_limits = [];
  feed = record {
    delivered = [];
    full_counter = some 3;
    consumer_paused = false;
    alert_consumer_paused = false;
  };
  index = some [];
  last_seen = [];
}

abbrev two_logs : List LogEvent
two_logs = log_message failed_login around ∷ unreadable ∷ log_message failed_login around ∷ []

consume_logs-delivered_example :
    ((consume_logs whole (λ n. n) settings two_logs empty_loop).feed.delivered
      ≡ failed_login ∷ failed_login ∷ [])
    × ((consume_logs whole (λ n. n) settings two_logs empty_loop).feed.consumer_paused ≡ false)
consume_logs-delivered_example =
    consume_logs-delivered whole (λ n. n) settings two_logs empty_loop (fine, (fine, tt)) refl

-- A full channel of alerts whose wait runs out, with a resume that fails.
abbrev stuck : Answers
stuck = record {
  try_send = full;
  assignment = true;
  pause = true;
  resume = false;
  within = λ ms. timed_out;
  unlimited = false;
}

abbrev alert_loop : AlertLoop
alert_loop = record {
  feed = record {
    delivered = [];
    full_counter = some 0;
    consumer_paused = false;
    alert_consumer_paused = false;
  };
  last_seen = [];
}

-- It is the consumer of the logs that stays paused.
stuck_example :
    (consume_alerts settings
      (alert_message (alert_of "acme" "Two") (pos 5) stuck ∷ [])
      alert_loop).feed.consumer_paused
    ≡ true
unfolding consume_alerts
stuck_example = refl
