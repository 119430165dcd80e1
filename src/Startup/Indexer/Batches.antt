-- ===== src/Startup/Indexer/Batches.antt =====
-- The size of the requests to the index.
use mini_siem_project.Prelude.{
  ℕ, retain, zero, suc, ◌*◌, ◌+◌, Bool, true, leb, length, length-append, List, [], ◌∷◌, ◌++◌, ◌≡◌,
  ◌∙◌, refl, all, ◌&&◌, Bool-cases, inl, inr, arith,
}
use Prim.Native.Nat.{min}
use mini_siem_project.Types.Log.{Log}
use mini_siem_project.Queue.Send.{Encoders, send_log_to, logs_dlq_topic}
use mini_siem_project.Startup.Indexer.{
  Received, arrived, lapse, channel_closed, batch_size, send_dead, await_client, note_seen,
  bulk_attempts, write_batch, index_batch, write_last, drain_index, index_loop,
}
use mini_siem_project.Startup.Indexer.Site.{Site, Answering, site}

-- A request is not empty and has 500 logs at most.
abbrev pub fits_batch : List Log → Bool
fits_batch logs = leb 1 (length logs) && leb (length logs) 500

abbrev pub is_sized : Site → Bool
is_sized w = all fits_batch w.requests

all-snoc :
    (bs : List (List Log)) (b : List Log)
    → all fits_batch bs ≡ true
    → fits_batch b ≡ true
    → all fits_batch (bs ++ (b ∷ [])) ≡ true
all-snoc [] b h k = ground (arith, k)
all-snoc (c ∷ bs) b h k = ground (arith, h, all-snoc bs b (ground (arith, h)) k)

module _ (a : Answering) (codec : Encoders) where
  send_log_to-requests :
      (log : Log) (w : Site)
      → (send_log_to (site a codec).producer codec logs_dlq_topic log w).1.requests ≡ w.requests
  unfolding send_log_to
  send_log_to-requests log w = ground arith

  send_dead-requests :
      (logs : List Log) (w : Site) → (send_dead (site a codec) logs w).requests ≡ w.requests
  unfolding send_dead
  send_dead-requests [] w = refl
  send_dead-requests (log ∷ logs) w = send_dead-requests logs _ ∙ send_log_to-requests log w

  bulk_attempts-is_sized :
      (logs : List Log) (left backoff_ms : ℕ) (w : Site)
      → fits_batch logs ≡ true
      → is_sized w ≡ true
      → is_sized (bulk_attempts (site a codec) tt logs left backoff_ms w).1 ≡ true
  unfolding bulk_attempts note_seen
  bulk_attempts-is_sized logs zero backoff_ms w f h =
      ground (arith, all-snoc w.requests logs h f, h)
  bulk_attempts-is_sized logs (suc left) backoff_ms w f h =
      let sized = all-snoc w.requests logs h f in
      ground (
        arith,
        sized,
        bulk_attempts-is_sized logs left (min (backoff_ms * 2) 10000)
            (record w {
              questions = w.questions + 1 + 1;
              requests = w.requests ++ (logs ∷ []);
              indexed = w.indexed ++ retain (a.takes w.questions) logs;
            })
            f sized,
      )

  write_batch-is_sized :
      (logs : List Log) (w : Site)
      → fits_batch logs ≡ true
      → is_sized w ≡ true
      → is_sized (write_batch (site a codec) tt logs w) ≡ true
  unfolding write_batch
  write_batch-is_sized logs w f h = ground (
    arith,
    bulk_attempts-is_sized logs 3 500 w f h,
    send_dead-requests logs (bulk_attempts (site a codec) tt logs 3 500 w).1,
  )

  index_batch-is_sized :
      (logs : List Log) (w : Site)
      → fits_batch logs ≡ true
      → is_sized w ≡ true
      → is_sized (index_batch (site a codec) logs w).1 ≡ true
  unfolding index_batch await_client
  index_batch-is_sized logs w f h = ground (
    arith,
    h,
    write_batch-is_sized logs w f h,
    write_batch-is_sized logs (record w { questions = w.questions + 1 }) f h,
    send_dead-requests logs (record w { questions = w.questions + 1 }),
  )

  write_last-is_sized :
      (logs : List Log) (w : Site)
      → fits_batch logs ≡ true
      → is_sized w ≡ true
      → is_sized (write_last (site a codec) logs w) ≡ true
  unfolding write_last note_seen
  write_last-is_sized logs w f h = ground (arith, h, all-snoc w.requests logs h f)

  -- What a run holds is short of a full batch.
  abbrev is_short : List Log → Bool
  is_short logs = leb (length logs) 499

  drain_index-is_sized :
      (es : List Received) (buffer : List Log) (w : Site)
      → is_short buffer ≡ true
      → is_sized w ≡ true
      → is_sized (drain_index (site a codec) es buffer w) ≡ true
  unfolding drain_index
  drain_index-is_sized [] [] w b h = h
  drain_index-is_sized [] (l ∷ ls) w b h = write_last-is_sized (l ∷ ls) w (ground (arith, b)) h
  drain_index-is_sized (lapse ∷ es) [] w b h = h
  drain_index-is_sized (lapse ∷ es) (l ∷ ls) w b h =
      write_last-is_sized (l ∷ ls) w (ground (arith, b)) h
  drain_index-is_sized (channel_closed ∷ es) [] w b h = h
  drain_index-is_sized (channel_closed ∷ es) (l ∷ ls) w b h =
      write_last-is_sized (l ∷ ls) w (ground (arith, b)) h
  drain_index-is_sized (arrived log ∷ es) buffer w b h =
      let n = length-append buffer (log ∷ []) in
      let f = write_last-is_sized (buffer ++ (log ∷ [])) w (ground (arith, b, n)) h in
      let full =
        drain_index-is_sized es [] (write_last (site a codec) (buffer ++ (log ∷ [])) w) refl f in
      elim (Bool-cases (leb batch_size (length (buffer ++ (log ∷ []))))) [
        | inl e ↦ rw (e, drain_index) full
        | inr e ↦
            rw (e, drain_index)
              (drain_index-is_sized es (buffer ++ (log ∷ [])) w (ground (arith, e)) h)
      ]

  -- Whatever the index answers and whenever the signal for shutdown comes, each request that the
  -- index is sent has from 1 to 500 logs, if the task held fewer than 500 at first.
  pub index_loop-is_sized :
      (es : List Received) (buffer : List Log) (w : Site)
      → is_short buffer ≡ true
      → is_sized w ≡ true
      → is_sized (index_loop (site a codec) es buffer w).1 ≡ true
  unfolding index_loop
  index_loop-is_sized [] buffer w b h = h
  index_loop-is_sized (lapse ∷ es) [] w b h = index_loop-is_sized es [] w b h
  index_loop-is_sized (lapse ∷ es) (l ∷ ls) w b h =
      let f = index_batch-is_sized (l ∷ ls) w (ground (arith, b)) h in
      let v = (index_batch (site a codec) (l ∷ ls) w).1 in
      ground (arith, drain_index-is_sized es [] v refl f, index_loop-is_sized es [] v refl f)
  index_loop-is_sized (channel_closed ∷ es) [] w b h = h
  index_loop-is_sized (channel_closed ∷ es) (l ∷ ls) w b h =
      index_batch-is_sized (l ∷ ls) w (ground (arith, b)) h
  index_loop-is_sized (arrived log ∷ es) buffer w b h =
      let n = length-append buffer (log ∷ []) in
      let f = index_batch-is_sized (buffer ++ (log ∷ [])) w (ground (arith, b, n)) h in
      let v = (index_batch (site a codec) (buffer ++ (log ∷ [])) w).1 in
      elim (Bool-cases (leb batch_size (length (buffer ++ (log ∷ []))))) [
        | inl e ↦
            (ground
              (arith, e, drain_index-is_sized es [] v refl f, index_loop-is_sized es [] v refl f))
        | inr e ↦
            rw (e, index_loop)
              (index_loop-is_sized es (buffer ++ (log ∷ [])) w (ground (arith, e)) h)
      ]
