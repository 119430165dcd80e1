-- ===== src/Startup/Indexer.antt =====
-- The task that writes logs into the search index in batches, with its retries, the dead letter
-- topic and the drain at shutdown. What its channel does is a list of events in their order.
pub mod Site
pub mod Kept
pub mod Batches
use Prim.Native.Nat.{min}
use mini_siem_project.Prelude.{
  ℕ, zero, suc, ◌*◌, leb, length, Bool, true, false, String, Option, none, some, List, [], ◌∷◌,
  ◌++◌,
}
use mini_siem_project.Prelude.Eff.{Result, ok, err, Eff}
use mini_siem_project.Types.Log.{Log}
use mini_siem_project.Queue.Send.{Producer, Encoders, send_log_to, logs_dlq_topic}

-- A log, a second in which none comes, or the end of the channel.
pub data Received : Type 0 where
  arrived : Log → Received
  lapse : Received
  channel_closed : Received

-- The client of the index that is there now, if any; a wait of so many milliseconds for another
-- one, and whether it came; the bulk request; the sign of life in the cache, for five minutes; the
-- clock to sleep by; and whether the signal for shutdown has come.
pub record Indexing (S E : Type 0) : Type 0 where
  pub borrow : S → Option E
  pub changed : ℕ → S → Bool × S
  pub bulk_index : E → List Log → Eff S (Unit {0})
  pub set_string : String → String → ℕ → Eff S (Unit {0})
  pub now_text : S → String
  pub sleep : ℕ → S → S
  pub try_shutdown : S → Bool × S
  pub producer : Producer S
  pub codec : Encoders

abbrev pub batch_size : ℕ
batch_size = 500

module _ {S E : Type 0} (services : Indexing S E) where
  open services use {borrow, changed, bulk_index, set_string, now_text, sleep, try_shutdown}

  -- One log after the other to the dead letter topic, whatever the answers.
  unfoldable pub send_dead : List Log → S → S
  unfolding send_log_to
  send_dead [] s = s
  send_dead (log ∷ logs) s =
      send_dead logs (send_log_to services.producer services.codec logs_dlq_topic log s).1

  unfoldable pub await_client : S → Option E × S
  await_client s = elim (borrow s) [
    | some client ↦ (some client, s)
    | none ↦
        let (came, s') = changed 5000 s in elim came [ true ↦ (borrow s', s') | false ↦ (none, s') ]
  ]

  unfoldable pub note_seen : S → S
  note_seen s = (set_string "siem:health:indexer_last_seen" (now_text s) 300 s).1

  -- The loop of attempts, with those that are left after this one.
  unfoldable pub bulk_attempts : E → List Log → ℕ → ℕ → S → Bool × S
  unfolding note_seen
  bulk_attempts client logs zero backoff_ms s =
      let (r, s') = bulk_index client logs s in
      elim r [ ok _ ↦ (true, note_seen s') | err e ↦ (false, s') ]
  bulk_attempts client logs (suc left) backoff_ms s =
      let (r, s') = bulk_index client logs s in
      elim r [
        | ok _ ↦ (true, note_seen s')
        | err e ↦ bulk_attempts client logs left (min (backoff_ms * 2) 10000) (sleep backoff_ms s')
      ]

  unfoldable pub write_batch : E → List Log → S → S
  unfolding bulk_attempts send_dead
  write_batch client logs s =
      let (success, s') = bulk_attempts client logs 3 500 s in
      elim success [ true ↦ s' | false ↦ send_dead logs s' ]

  -- A batch, and whether the signal for shutdown is there, which is not looked at after a batch
  -- that found no index.
  unfoldable pub index_batch : List Log → S → Bool × S
  unfolding await_client write_batch send_dead
  index_batch logs s =
      let (client, s') = await_client s in
      elim client [
        | none ↦ (false, sleep 500 (send_dead logs s'))
        | some c ↦ try_shutdown (write_batch c logs s')
      ]

  -- A batch during the drain: one attempt, whatever its answer.
  unfoldable pub write_last : List Log → S → S
  unfolding note_seen
  write_last logs s = elim (borrow s) [
    | none ↦ s
    | some client ↦
        let (r, s') = bulk_index client logs s in elim r [ ok _ ↦ note_seen s' | err e ↦ s' ]
  ]

  abbrev drained : List Log → S → S
  drained [] s = s
  drained (log ∷ logs) s = write_last (log ∷ logs) s

  -- What the channel still holds at shutdown, up to the first moment in which it is empty.
  unfoldable pub drain_index : List Received → List Log → S → S
  unfolding write_last
  drain_index (arrived log ∷ es) buffer s =
      let buffer' = buffer ++ (log ∷ []) in
      elim (leb batch_size (length buffer')) [
        | true ↦ drain_index es [] (write_last buffer' s)
        | false ↦ drain_index es buffer' s
      ]
  drain_index (lapse ∷ es) buffer s = drained buffer s
  drain_index (channel_closed ∷ es) buffer s = drained buffer s
  drain_index [] buffer s = drained buffer s

  -- The task over the events, with the logs that it holds. A batch is written once it is full, a
  -- second passes without a log, or the channel ends.
  unfoldable pub index_loop : List Received → List Log → S → List Log × S
  unfolding index_batch drain_index
  index_loop [] buffer s = (buffer, s)
  index_loop (arrived log ∷ es) buffer s =
      let buffer' = buffer ++ (log ∷ []) in
      elim (leb batch_size (length buffer')) [
        | true ↦
            let (stop, s') = index_batch buffer' s in
            elim stop [ true ↦ ([], drain_index es [] s') | false ↦ index_loop es [] s' ]
        | false ↦ index_loop es buffer' s
      ]
  index_loop (lapse ∷ es) [] s = index_loop es [] s
  index_loop (lapse ∷ es) (log ∷ logs) s =
      let (stop, s') = index_batch (log ∷ logs) s in
      elim stop [ true ↦ ([], drain_index es [] s') | false ↦ index_loop es [] s' ]
  index_loop (channel_closed ∷ es) [] s = ([], s)
  index_loop (channel_closed ∷ es) (log ∷ logs) s = ([], (index_batch (log ∷ logs) s).1)
