-- ===== src/Startup/Dispatch.antt =====
-- The workers of the detection engine and the dispatcher, which gives each log to one of them.
pub mod Laws
use mini_siem_project.Prelude.{
  ℕ, zero, suc, ◌%◌, ◌==◌, Bool, true, false, ◌||◌, String, List, [], ◌∷◌, ◌++◌, if◌then◌else◌,
}
use mini_siem_project.Prelude.Text.{str_eq}
use mini_siem_project.Types.Log.{Log}

-- What is hashed of a log under a partition key; every other key is taken as the last one.
unfoldable pub partition_key_of : String → Log → List String
partition_key_of partition_key log =
    if str_eq partition_key "tenant"
    then log.tenant_id ∷ []
    else (if str_eq partition_key "source_ip"
        then log.source_ip ∷ []
        else log.tenant_id ∷ log.source_ip ∷ [])

-- The mailboxes of the workers by their numbers; a worker that has ended takes no log.
abbrev pub Mailboxes : Type 0
Mailboxes = ℕ → List Log

-- `hash` is the hasher over texts that are fed to it one after the other.
module _ (hash : List String → ℕ) where
  unfoldable pub detection_partition_index : Log → ℕ → String → ℕ
  unfolding partition_key_of
  detection_partition_index log worker_count partition_key = elim worker_count [
    | zero ↦ 0
    | suc n ↦ hash (partition_key_of partition_key log) % suc n
  ]

  unfoldable pub dispatch_one : ℕ → String → (ℕ → Bool) → Log → Mailboxes → Mailboxes
  unfolding detection_partition_index
  dispatch_one worker_count partition_key is_closed log boxes =
      let worker_idx = detection_partition_index log worker_count partition_key in
      if is_closed worker_idx then boxes else λ i.
      if i == worker_idx then boxes i ++ (log ∷ []) else boxes i

  unfoldable pub dispatch : ℕ → String → (ℕ → Bool) → List Log → Mailboxes → Mailboxes
  unfolding dispatch_one
  dispatch worker_count partition_key is_closed [] boxes = boxes
  dispatch worker_count partition_key is_closed (log ∷ logs) boxes =
      dispatch worker_count partition_key is_closed logs
        (dispatch_one worker_count partition_key is_closed log boxes)
