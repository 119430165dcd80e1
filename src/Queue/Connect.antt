-- ===== src/Queue/Connect.antt =====
-- The connection to the queue, with five attempts, and the health check.
use Prim.Native.Nat.{min}
use mini_siem_project.Prelude.{ℕ, zero, suc, ◌*◌, String, List, [], ◌∷◌}
use mini_siem_project.Prelude.Eff.{Eff, ok, err, pure, fail, ◌>>=◌, ◌>>◌, ignore_then, handle}
use mini_siem_project.Queue.Send.{default_topic, alerts_topic}

-- The client library: producers `P` and consumers `C` are made from the settings that the program
-- gives as pairs.
pub record Client (S P C : Type 0) : Type 0 where
  pub create_producer : List (String × String) → Eff S P
  pub create_consumer : List (String × String) → Eff S C
  pub subscribe : C → String → Eff S (Unit {0})
  pub fetch_metadata : C → Eff S (Unit {0})
  pub sleep : ℕ → S → S

pub record KafkaQueue (P C : Type 0) : Type 0 where
  pub producer : P
  pub consumer : C
  pub alert_consumer : C
  pub topic : String

unfoldable pub producer_config : String → List (String × String)
producer_config brokers =
    ("bootstrap.servers", brokers)
    ∷ ("message.timeout.ms", "5000")
    ∷ ("reconnect.backoff.ms", "500")
    ∷ ("reconnect.backoff.max.ms", "10000")
    ∷ []

unfoldable pub consumer_config : String → List (String × String)
consumer_config brokers =
    ("bootstrap.servers", brokers)
    ∷ ("group.id", "mini-siem-consumer")
    ∷ ("enable.partition.eof", "false")
    ∷ ("session.timeout.ms", "6000")
    ∷ ("enable.auto.commit", "true")
    ∷ ("reconnect.backoff.ms", "500")
    ∷ ("reconnect.backoff.max.ms", "10000")
    ∷ []

module _ {S P C : Type 0} (client : Client S P C) where
  -- One attempt. A failed subscription is logged and the attempt goes on.
  unfoldable pub attempt_once : String → Eff S (KafkaQueue P C)
  unfolding producer_config consumer_config
  attempt_once brokers = do
    producer ← client.create_producer (producer_config brokers)
    consumer ← client.create_consumer (consumer_config brokers)
    ignore_then (client.subscribe consumer default_topic) do
      alert_consumer ← client.create_consumer (consumer_config brokers)
      ignore_then (client.subscribe alert_consumer alerts_topic) (
          pure (record {
            producer = producer;
            consumer = consumer;
            alert_consumer = alert_consumer;
            topic = default_topic;
          }))

  -- The loop, with the attempts that are left after this one.
  unfoldable pub connect_loop : String → ℕ → ℕ → Eff S (KafkaQueue P C)
  unfolding attempt_once
  connect_loop brokers zero backoff_ms = handle (attempt_once brokers) λ r. elim r [
    | ok queue ↦ pure queue
    | err e ↦ fail "failed to connect to Kafka after 5 attempts"
  ]
  connect_loop brokers (suc left) backoff_ms = handle (attempt_once brokers) λ r. elim r [
    | ok queue ↦ pure queue
    | err e ↦
        λ s. connect_loop brokers left (min (backoff_ms * 2) 10000) (client.sleep backoff_ms s)
  ]

  unfoldable pub new_queue : String → Eff S (KafkaQueue P C)
  unfolding connect_loop
  new_queue brokers = connect_loop brokers 4 500

  unfoldable pub health : KafkaQueue P C → Eff S (Unit {0})
  health queue = do
    client.fetch_metadata queue.consumer
    client.fetch_metadata queue.alert_consumer
    pure tt
