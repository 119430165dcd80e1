-- ===== src/Startup/Dispatch/Laws.antt =====
-- Which worker sees which logs, and in which order.
use mathlib.Core.List.{append-nil, append_assoc}
use mini_siem_project.Prelude.{
  ℕ, suc, ◌<◌, ◌==◌, Bool, false, retain, String, List, [], ◌∷◌, ◌++◌, ◌≡◌, sym, arith,
}
use mini_siem_project.Types.Log.{Log}
use mini_siem_project.Startup.Dispatch.{
  partition_key_of, detection_partition_index, Mailboxes, dispatch_one, dispatch,
}

module _ (hash : List String → ℕ) where
  -- The number of the worker is that of a worker.
  pub detection_partition_index-lt :
      (log : Log) (n : ℕ) (partition_key : String)
      → detection_partition_index hash log (suc n) partition_key < suc n
  unfolding detection_partition_index
  detection_partition_index-lt log n partition_key = omega arith

  -- Logs of one tenant and one source go to the same worker, whatever the partition key.
  pub detection_partition_index-same :
      (a b : Log) (worker_count : ℕ) (partition_key : String)
      → a.tenant_id ≡ b.tenant_id
      → a.source_ip ≡ b.source_ip
      → detection_partition_index hash a worker_count partition_key
        ≡ detection_partition_index hash b worker_count partition_key
  unfolding detection_partition_index partition_key_of
  detection_partition_index-same a b worker_count partition_key t s = ground (arith, t, s)

  -- The logs that are for a worker.
  abbrev pub is_for : ℕ → String → ℕ → Log → Bool
  is_for worker_count partition_key i log =
      i == detection_partition_index hash log worker_count partition_key

  -- A worker that has not ended is given exactly the logs of its number, each once and in the order
  -- in which the dispatcher takes them.
  pub dispatch-retain :
      (worker_count : ℕ) (partition_key : String) (is_closed : ℕ → Bool) (logs : List Log)
      (boxes : Mailboxes) (i : ℕ)
      → is_closed i ≡ false
      → dispatch hash worker_count partition_key is_closed logs boxes i
        ≡ boxes i ++ retain (is_for worker_count partition_key i) logs
  unfolding dispatch dispatch_one
  dispatch-retain worker_count partition_key is_closed [] boxes i h = sym (append-nil (boxes i))
  dispatch-retain worker_count partition_key is_closed (log ∷ logs) boxes i h = ground (
    arith,
    h,
    dispatch-retain worker_count partition_key is_closed logs
        (dispatch_one hash worker_count partition_key is_closed log boxes) i h,
    append_assoc (boxes i) (log ∷ []) (retain (is_for worker_count partition_key i) logs),
  )
