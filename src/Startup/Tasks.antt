-- ===== src/Startup/Tasks.antt =====
-- The registry of background tasks and its drain at shutdown, and the smaller tasks.
pub mod Laws
use Prim.Native.Nat.{max}
use mini_siem_project.Prelude.{
  ℕ, ◌+◌, leb, ltb, Bool, true, false, unwrap_or, String, Option, none, some, List, [], ◌∷◌, ◌++◌,
  if◌then◌else◌,
}
use mini_siem_project.Prelude.Int.{ℤ, pos}
use mini_siem_project.Prelude.Eff.{Result, ok, err, Eff}
use mini_siem_project.Types.Log.{Log}
use mini_siem_project.Queue.Send.{Producer, Encoders, send_log}

-- A task as its handle shows it: the moment in which it ends of itself, if ever, and whether that
-- is a clean end; and how long it goes on once it is aborted. Moments are milliseconds.
pub record ManagedTask : Type 0 where
  pub name : String
  pub ends_at : Option ℕ
  pub is_clean : Bool
  pub lingers : ℕ

-- What the drain logs of a task.
pub data Drained : Type 0 where
  shut_down : Drained
  join_error : Drained
  aborted_after_deadline : Drained
  aborted_after_timeout : Drained

abbrev pub TaskRegistry : Type 0
TaskRegistry = List ManagedTask

unfoldable pub push : ManagedTask → TaskRegistry → TaskRegistry
push task tasks = tasks ++ (task ∷ [])

-- `abort`, and the wait for the task, which is over at once if the task has ended.
unfoldable pub abort_at : ℕ → ManagedTask → ℕ
abort_at now task = elim task.ends_at [
  | some t ↦ if leb t now then now else now + task.lingers
  | none ↦ now + task.lingers
]

-- One task: what is logged, and the moment after it.
unfoldable pub drain_one : ℕ → ManagedTask → ℕ → Drained × ℕ
unfolding abort_at
drain_one deadline task now =
    if leb deadline now then (aborted_after_deadline, abort_at now task) else (elim task.ends_at [
      | some t ↦
          if leb t deadline
          then (if task.is_clean then shut_down else join_error, max now t)
          else (aborted_after_timeout, abort_at deadline task)
      | none ↦ (aborted_after_timeout, abort_at deadline task)
    ])

abbrev noted : Drained → List Drained × ℕ → List Drained × ℕ
noted d (ds, now) = (d ∷ ds, now)

unfoldable pub drain_all : ℕ → TaskRegistry → ℕ → List Drained × ℕ
unfolding drain_one
drain_all deadline [] now = ([], now)
drain_all deadline (task ∷ tasks) now =
    let (d, now') = drain_one deadline task now in noted d (drain_all deadline tasks now')

unfoldable pub drain : ℕ → TaskRegistry → ℕ → List Drained × ℕ
unfolding drain_all
drain grace_period tasks now = drain_all (now + grace_period) tasks now

-- The counters of the cache and the row of the statistics.
pub record Totals (S : Type 0) : Type 0 where
  pub get_counter : String → Eff S (Option ℕ)
  pub save_stats : String → ℤ → ℤ → ℤ → ℤ → Eff S (Unit {0})

-- `.ok().flatten().map(|v| v as i64).unwrap_or(0)` of a counter of 32 bits.
abbrev pub count_of : Result (Option ℕ) → ℤ
count_of (ok v) = pos (unwrap_or 0 v)
count_of (err e) = pos 0

-- The checkpoint at the end, and the one every minute: an error is logged.
unfoldable pub final_stats_checkpoint : {S : Type 0} → Totals S → S → S
final_stats_checkpoint totals s =
    let (logs, s₁) = totals.get_counter "siem:stats:total_logs" s in
    let (alerts, s₂) = totals.get_counter "siem:stats:total_alerts" s₁ in
    let (active, s₃) = totals.get_counter "siem:stats:active_alerts" s₂ in
    let (critical, s₄) = totals.get_counter "siem:stats:critical_alerts" s₃ in
    (totals.save_stats "" (count_of logs) (count_of alerts) (count_of active) (count_of critical)
      s₄).1

-- The task that puts accepted logs into the queue, and so also those that are left at shutdown, in
-- the order of the channel and whatever the answers.
unfoldable pub enqueue_all : {S : Type 0} → Producer S → Encoders → List Log → S → S
unfolding send_log
enqueue_all producer codec [] s = s
enqueue_all producer codec (log ∷ logs) s =
    enqueue_all producer codec logs (send_log producer codec log s).1

-- A round of the task that looks for a search index while there is none.
unfoldable pub reconnect : {S E : Type 0} → Eff S E → Option E × S → Option E × S
reconnect connect (some client, s) = (some client, s)
reconnect connect (none, s) =
    let (r, s') = connect s in elim r [ ok client ↦ (some client, s') | err e ↦ (none, s') ]
