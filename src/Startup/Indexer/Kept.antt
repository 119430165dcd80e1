-- ===== src/Startup/Indexer/Kept.antt =====
-- Where the logs end up that the indexer takes from its channel.
use mini_siem_project.Prelude.{
  ℕ, zero, suc, ◌+◌, ◌≤◌, all, retain, Bool, true, false, String, List, [], ◌∷◌, ◌++◌, ◌≡◌, refl,
  if◌then◌else◌, ◌∙◌, ap, count, count-append, ◌*◌, arith,
}
use Prim.Native.Nat.{min}
use mathlib.Core.List.{append_assoc}
use mini_siem_project.Prelude.Eff.{ok}
use mini_siem_project.Types.Log.{Log}
use mini_siem_project.Queue.Send.{FutureRecord, Encoders, send_log_to, logs_dlq_topic}
use mini_siem_project.Startup.Indexer.{
  Received, arrived, lapse, channel_closed, send_dead, await_client, note_seen, bulk_attempts,
  write_batch, index_batch, index_loop,
}
use mini_siem_project.Startup.Indexer.Site.{Site, Answering, site}

-- The logs among the events, up to the end of the channel.
abbrev pub logs_received : List Received → List Log
logs_received [] = []
logs_received (arrived log ∷ es) = log ∷ logs_received es
logs_received (lapse ∷ es) = logs_received es
logs_received (channel_closed ∷ es) = []

retain-count : {A : Type 0} (p q : A → Bool) (xs : List A) → count p (retain q xs) ≤ count p xs
retain-count p q [] = omega arith
retain-count p q (x ∷ xs) = ground (arith, retain-count p q xs)

retain-all : {A : Type 0} (q : A → Bool) (xs : List A) → all q xs ≡ true → retain q xs ≡ xs
retain-all q [] h = refl
retain-all q (x ∷ xs) h = ground (arith, h, retain-all q xs)

-- One more than `n` times a number.
abbrev times : ℕ → ℕ → ℕ
times c zero = c
times c (suc n) = c + times c n

module _ (a : Answering) (codec : Encoders) (json : Log → String) where
  -- The message of a log in the dead letter topic.
  abbrev pub dead_letter : Log → FutureRecord
  dead_letter log = record {
    topic = logs_dlq_topic;
    key = codec.show_id log.id;
    payload = json log;
    headers = ("source_ip", log.source_ip) ∷ [];
  }

  module _ (p : FutureRecord → Bool) where
    abbrev pub wanted : Log → Bool
    wanted log = p (dead_letter log)

    -- The logs that satisfy the test, in the index and in the dead letter topic together.
    abbrev pub kept : Site → ℕ
    kept w = count wanted w.indexed + count p w.dead

    module _ (written : (log : Log) → codec.log_json log ≡ ok (json log)) where
      abbrev with_dead : Log → Site → Site
      with_dead log w = record w {
        questions = w.questions + 1;
        dead = w.dead ++ (dead_letter log ∷ []);
      }

      send_log_to-dead :
          (log : Log) (w : Site)
          → (send_log_to (site a codec).producer codec logs_dlq_topic log w).1 ≡ with_dead log w
      unfolding send_log_to
      send_log_to-dead log w = rw (written log) refl

      send_dead-kept :
          (logs : List Log) (w : Site)
          → kept (send_dead (site a codec) logs w) ≡ kept w + count wanted logs
      unfolding send_dead
      send_dead-kept [] w = omega arith
      send_dead-kept (log ∷ logs) w =
          ap (λ v. kept (send_dead (site a codec) logs v)) (send_log_to-dead log w)
          ∙ ground (
            arith,
            send_dead-kept logs (with_dead log w),
            count-append p w.dead (dead_letter log ∷ []),
          )

      -- A bulk request adds what the index takes of the logs, and all of them if it succeeds.
      abbrev BulkFacts : List Log → Site → Type 0
      BulkFacts logs w =
          let taken = retain (a.takes w.questions) logs in
          (count wanted (w.indexed ++ taken) ≡ count wanted w.indexed + count wanted taken)
          × (count wanted taken ≤ count wanted logs)
          × (all (a.takes w.questions) logs ≡ true → count wanted taken ≡ count wanted logs)

      bulk_index-BulkFacts : (logs : List Log) (w : Site) → BulkFacts logs w
      bulk_index-BulkFacts logs w = (
        count-append wanted w.indexed (retain (a.takes w.questions) logs),
        retain-count wanted (a.takes w.questions) logs,
        λ h. ap (count wanted) (retain-all (a.takes w.questions) logs h),
      )

      bulk_attempts-kept :
          (logs : List Log) (left backoff_ms : ℕ) (w : Site)
          → let (success, v) = bulk_attempts (site a codec) tt logs left backoff_ms w in
            (kept w + (if success then count wanted logs else 0) ≤ kept v)
            × (kept v ≤ kept w + times (count wanted logs) left)
      unfolding bulk_attempts note_seen
      bulk_attempts-kept logs zero backoff_ms w =
          let (e, l, h) = bulk_index-BulkFacts logs w in ground (arith, e, l, h)
      bulk_attempts-kept logs (suc left) backoff_ms w =
          let (e, l, h) = bulk_index-BulkFacts logs w in
          ground (
            arith,
            e,
            l,
            h,
            bulk_attempts-kept logs left (min (backoff_ms * 2) 10000) (record w {
              questions = w.questions + 1 + 1;
              requests = w.requests ++ (logs ∷ []);
              indexed = w.indexed ++ retain (a.takes w.questions) logs;
            }),
          )

      -- What is done with some logs keeps each once at least and five times at most.
      abbrev Stored : List Log → Site → Site → Type 0
      Stored logs w v =
          (kept w + count wanted logs ≤ kept v) × (kept v ≤ kept w + 5 * count wanted logs)

      write_batch-Stored :
          (logs : List Log) (w : Site) → Stored logs w (write_batch (site a codec) tt logs w)
      unfolding write_batch
      write_batch-Stored logs w = ground (
        arith,
        bulk_attempts-kept logs 3 500 w,
        send_dead-kept logs (bulk_attempts (site a codec) tt logs 3 500 w).1,
      )

      index_batch-Stored :
          (logs : List Log) (w : Site) → Stored logs w (index_batch (site a codec) logs w).1
      unfolding index_batch await_client
      index_batch-Stored logs w = ground (
        arith,
        write_batch-Stored logs w,
        write_batch-Stored logs (record w { questions = w.questions + 1 }),
        send_dead-kept logs (record w { questions = w.questions + 1 }),
      )

      module _ (never : (n : ℕ) → a.stops n ≡ false) where
        index_batch-goes_on :
            (logs : List Log) (w : Site) → (index_batch (site a codec) logs w).0 ≡ false
        unfolding index_batch await_client
        index_batch-goes_on logs w = ground (
          arith,
          never (write_batch (site a codec) tt logs (await_client (site a codec) w).1).questions,
        )

        -- Without the signal for shutdown, and as long as the dead letter topic takes what it is
        -- sent, the indexer loses no log and makes none up, whatever documents of a bulk request the
        -- index takes, whether or not its answer arrives and whenever it comes and goes: of each kind
        -- of log, given by any test on its message, at least as many as the task held and received
        -- are in the index, in the dead letter topic or still held, and at most five times as many,
        -- since a document may be taken at each of four attempts and be a dead letter as well.
        pub index_loop-kept :
            (es : List Received) (buffer : List Log) (w : Site)
            → let (held, v) = index_loop (site a codec) es buffer w in
              (kept w + count wanted (buffer ++ logs_received es) ≤ kept v + count wanted held)
              × (kept v + count wanted held
                  ≤ kept w + 5 * count wanted (buffer ++ logs_received es))
        unfolding index_loop
        index_loop-kept [] buffer w = rw (count-append wanted buffer []) (omega arith)
        index_loop-kept (arrived log ∷ es) buffer w = ground (
          arith,
          index_batch-goes_on (buffer ++ (log ∷ [])) w,
          index_batch-Stored (buffer ++ (log ∷ [])) w,
          index_loop-kept es [] (index_batch (site a codec) (buffer ++ (log ∷ [])) w).1,
          index_loop-kept es (buffer ++ (log ∷ [])) w,
          append_assoc buffer (log ∷ []) (logs_received es),
          count-append wanted (buffer ++ (log ∷ [])) (logs_received es),
        )
        index_loop-kept (lapse ∷ es) [] w = index_loop-kept es [] w
        index_loop-kept (lapse ∷ es) (log ∷ logs) w = ground (
          arith,
          index_batch-goes_on (log ∷ logs) w,
          index_batch-Stored (log ∷ logs) w,
          index_loop-kept es [] (index_batch (site a codec) (log ∷ logs) w).1,
          count-append wanted (log ∷ logs) (logs_received es),
        )
        index_loop-kept (channel_closed ∷ es) [] w = omega arith
        index_loop-kept (channel_closed ∷ es) (log ∷ logs) w =
            ground (arith, index_batch-Stored (log ∷ logs) w, count-append wanted (log ∷ logs) [])
