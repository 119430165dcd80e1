-- ===== src/Queue/Send/Retry.antt =====
-- How many attempts an alert gets, where it ends up and how long the retries wait, for a producer
-- that answers from a script.
use Prim.Native.Nat.{min}
use mathlib.Core.List.{append_assoc}
use mini_siem_project.Prelude.{
  ℕ, zero, suc, ◌+◌, ◌*◌, ◌-◌, ◌%◌, ◌^◌, ◌<◌, ltb, leb, ◌==◌, Bool, true, false, String, Option,
  none, some, List, [], ◌∷◌, ◌++◌, ◌≡◌, if◌then◌else◌, arith,
}
use mini_siem_project.Prelude.Eff.{Result, ok, err, Eff}
use mini_siem_project.Types.Alert.{Alert}
use mini_siem_project.Queue.Send.{
  FutureRecord, Producer, Encoders, alerts_topic, attempts, send_alert_with_retry,
}

-- How many of the sends to come fail, the messages sent so far, and the time slept in milliseconds.
pub record Wire : Type 0 where
  pub failures : ℕ
  pub sent : List FutureRecord
  pub asleep : ℕ

-- The send at the wire: it fails as long as failures are left.
abbrev pub wire_send : FutureRecord → Eff Wire (Unit {0})
wire_send r w = elim w.failures [
  | zero ↦ (ok tt, record w { sent = w.sent ++ (r ∷ []) })
  | suc n ↦ (err "timed out", record w { failures = n; sent = w.sent ++ (r ∷ []) })
]

abbrev pub wire : Producer Wire
wire = record { send = wire_send; sleep = λ ms w. record w { asleep = w.asleep + ms } }

-- The sleeps of `n` retries.
unfoldable pub backoffs : ℕ → ℕ → ℕ
backoffs zero b = 0
backoffs (suc n) b = b + backoffs n (min (b * 2) 10000)

-- The alert as a message to a topic.
abbrev message_to : Encoders → Alert → String → String → FutureRecord
message_to codec alert payload topic = record {
  topic = topic;
  key = codec.show_id alert.id;
  payload = payload;
  headers = [];
}

abbrev replicate : ℕ → FutureRecord → List FutureRecord
replicate zero t = []
replicate (suc n) t = t ∷ replicate n t

abbrev is_ok : Result (Unit {0}) → Bool
is_ok (ok _) = true
is_ok (err e) = false

abbrev pub outcome : Result (Unit {0}) × Wire → Bool × Wire
outcome (r, w) = (is_ok r, w)

module _ (codec : Encoders) (alert : Alert) (payload : String) where
  abbrev to_alerts : FutureRecord
  to_alerts = message_to codec alert payload alerts_topic

  -- The expected outcome when `w.failures` sends in a row fail: one attempt more than failures if the
  -- retries suffice; else all of them, and then the dead letter topic, where there is one.
  unfoldable pub expected : Option String → ℕ → ℕ → Wire → Bool × Wire
  unfolding backoffs
  expected none retries b w = (
    leb w.failures retries,
    record {
      failures = w.failures - suc retries;
      sent = w.sent ++ replicate (suc (min w.failures retries)) to_alerts;
      asleep = w.asleep + backoffs (min w.failures retries) b;
    },
  )
  expected (some topic) retries b w =
      if leb w.failures retries
      then (
        true,
        record {
          failures = 0;
          sent = w.sent ++ replicate (suc w.failures) to_alerts;
          asleep = w.asleep + backoffs w.failures b;
        },
      )
      else (
        w.failures == suc retries,
        record {
          failures = w.failures - suc (suc retries);
          sent =
              (w.sent ++ replicate (suc retries) to_alerts)
              ++ (message_to codec alert payload topic ∷ []);
          asleep = w.asleep + backoffs retries b;
        },
      )

  expected-suc :
      (dlq : Option String) (left b f : ℕ) (ts : List FutureRecord) (z : ℕ)
      → expected dlq left
          (min (b * 2) 10000)
          (record { failures = f; sent = ts ++ (to_alerts ∷ []); asleep = z + b })
        ≡ expected dlq (suc left) b (record { failures = suc f; sent = ts; asleep = z })
  unfolding expected backoffs
  expected-suc none left b f ts z =
      ground (arith, append_assoc ts (to_alerts ∷ []) (replicate (suc (min f left)) to_alerts))
  expected-suc (some t) left b f ts z = ground (
    arith,
    append_assoc ts (to_alerts ∷ []) (replicate (suc f) to_alerts),
    append_assoc ts (to_alerts ∷ []) (replicate (suc left) to_alerts),
  )

  module _ (retries : ℕ) (fits : retries + 1 < 2 ^ 32) where
    last_attempt :
        (attempt : ℕ) → attempt + 0 ≡ retries → ltb retries ((attempt + 1) % 2 ^ 32) ≡ true
    last_attempt attempt h =
        let e : (attempt + 1) % 2 ^ 32 ≡ attempt + 1 = omega (arith, fits) in
        rw e (ground (arith, h))

    next_attempt :
        (attempt left : ℕ)
        → attempt + suc left ≡ retries
        → (ltb retries ((attempt + 1) % 2 ^ 32) ≡ false) × ((attempt + 1) % 2 ^ 32 ≡ attempt + 1)
    next_attempt attempt left h =
        let e : (attempt + 1) % 2 ^ 32 ≡ attempt + 1 = omega (arith, fits) in
        (rw e (ground (arith, h)), e)

    attempts-expected :
        (dlq : Option String) (left attempt b f : ℕ) (ts : List FutureRecord) (z : ℕ)
        → attempt + left ≡ retries
        → b < 2 ^ 63
        → outcome (
            attempts wire codec alert payload dlq retries
              (suc left)
              attempt
              b
              (record { failures = f; sent = ts; asleep = z }))
          ≡ expected dlq left b (record { failures = f; sent = ts; asleep = z })
    unfolding attempts backoffs expected
    attempts-expected none zero attempt b zero ts z h l = ground arith
    attempts-expected none zero attempt b (suc f) ts z h l = ground (arith, last_attempt attempt h)
    attempts-expected (some t) zero attempt b zero ts z h l = ground arith
    attempts-expected (some t) zero attempt b (suc zero) ts z h l =
        ground (arith, last_attempt attempt h)
    attempts-expected (some t) zero attempt b (suc (suc f)) ts z h l =
        ground (arith, last_attempt attempt h)
    attempts-expected none (suc left) attempt b zero ts z h l = ground arith
    attempts-expected none (suc left) attempt b (suc f) ts z h l =
        let e : (b * 2) % 2 ^ 64 ≡ b * 2 = omega (arith, l) in
        let (again, counted) = next_attempt attempt left h in
        ground (
          arith,
          again,
          counted,
          e,
          attempts-expected none left (attempt + 1) (min (b * 2) 10000) f (ts ++ (to_alerts ∷ []))
              (z + b) (omega (arith, h)) (omega arith),
          expected-suc none left b f ts z,
        )
    attempts-expected (some t) (suc left) attempt b zero ts z h l = ground arith
    attempts-expected (some t) (suc left) attempt b (suc f) ts z h l =
        let e : (b * 2) % 2 ^ 64 ≡ b * 2 = omega (arith, l) in
        let (again, counted) = next_attempt attempt left h in
        ground (
          arith,
          again,
          counted,
          e,
          attempts-expected (some t) left (attempt + 1) (min (b * 2) 10000) f
              (ts ++ (to_alerts ∷ [])) (z + b) (omega (arith, h)) (omega arith),
          expected-suc (some t) left b f ts z,
        )

-- An alert whose text can be written is tried `retries` + 1 times at most, at the alerts' topic and
-- after waits that double up to ten seconds, and stops at the first success; only when all of these
-- fail is it sent to the dead letter topic, once, if there is one, and the outcome is an error only
-- if that fails as well. Each message carries the alert's text and identifier. This is for a number of
-- retries below the greatest of 32 bits, a first wait below 2 ^ 63 milliseconds, and a producer whose
-- first sends fail and whose later ones succeed.
pub send_alert_with_retry-expected :
    (codec : Encoders) (alert : Alert) (payload : String) (dlq : Option String) (retries b : ℕ)
    (w : Wire)
    → codec.alert_json alert ≡ ok payload
    → retries + 1 < 2 ^ 32
    → b < 2 ^ 63
    → outcome (send_alert_with_retry wire codec alert retries b dlq w)
      ≡ expected codec alert payload dlq retries b w
unfolding send_alert_with_retry
send_alert_with_retry-expected codec alert payload dlq retries b w h fits l = rw h (
    attempts-expected codec alert payload retries fits dlq retries 0 b w.failures w.sent w.asleep
      (omega arith) l)
