-- ===== src/Startup/Tasks/Laws.antt =====
-- How long the drain takes and what it does with each task.
use Prim.Native.Nat.{max}
use mini_siem_project.Prelude.{
  ℕ, ◌+◌, ◌≤◌, ◌<◌, ltb, ◌&&◌, Bool, true, false, all, none, some, List, [], ◌∷◌, ◌≡◌, refl, arith,
}
use mini_siem_project.Startup.Tasks.{
  ManagedTask, Drained, shut_down, TaskRegistry, abort_at, drain_one, drain_all, drain,
}

-- The time that all tasks together go on after an abort.
abbrev pub linger : TaskRegistry → ℕ
linger [] = 0
linger (task ∷ tasks) = task.lingers + linger tasks

drain_one-deadline :
    (deadline : ℕ) (task : ManagedTask) (now : ℕ)
    → (drain_one deadline task now).1 ≤ max now deadline + task.lingers
unfolding drain_one abort_at
drain_one-deadline deadline task now = ground arith

drain_all-deadline :
    (deadline : ℕ) (tasks : TaskRegistry) (now : ℕ)
    → (drain_all deadline tasks now).1 ≤ max now deadline + linger tasks
unfolding drain_all
drain_all-deadline deadline [] now = omega arith
drain_all-deadline deadline (task ∷ tasks) now = ground (
  arith,
  drain_one-deadline deadline task now,
  drain_all-deadline deadline tasks (drain_one deadline task now).1,
)

-- The drain ends by its deadline and the time that aborted tasks go on, whatever the tasks do.
pub drain-deadline :
    (grace_period : ℕ) (tasks : TaskRegistry) (now : ℕ)
    → (drain grace_period tasks now).1 ≤ now + grace_period + linger tasks
unfolding drain
drain-deadline grace_period tasks now =
    omega (arith, drain_all-deadline (now + grace_period) tasks now)

-- The task ends of itself and cleanly, before the deadline.
abbrev pub ends_before : ℕ → ManagedTask → Bool
ends_before deadline task = elim task.ends_at [
  | some t ↦ ltb t deadline && task.is_clean
  | none ↦ false
]

drain_one-shut_down :
    (deadline : ℕ) (task : ManagedTask) (now : ℕ)
    → now < deadline
    → ends_before deadline task ≡ true
    → ((drain_one deadline task now).0 ≡ shut_down) × ((drain_one deadline task now).1 < deadline)
unfolding drain_one
drain_one-shut_down deadline task now h e = ground (arith, h, e)

abbrev pub shut_downs : TaskRegistry → List Drained
shut_downs [] = []
shut_downs (task ∷ tasks) = shut_down ∷ shut_downs tasks

drain_all-shut_down :
    (deadline : ℕ) (tasks : TaskRegistry) (now : ℕ)
    → now < deadline
    → all (ends_before deadline) tasks ≡ true
    → (drain_all deadline tasks now).0 ≡ shut_downs tasks
unfolding drain_all
drain_all-shut_down deadline [] now h e = refl
drain_all-shut_down deadline (task ∷ tasks) now h e =
    let (a, b) = drain_one-shut_down deadline task now h (ground (arith, e)) in
    ground (
      arith,
      a,
      drain_all-shut_down deadline tasks (drain_one deadline task now).1 b (ground (arith, e)),
    )

-- If each task ends cleanly before the grace period is over, the drain aborts none of them, in
-- whatever order they end.
pub drain-shut_down :
    (grace_period : ℕ) (tasks : TaskRegistry) (now : ℕ)
    → 0 < grace_period
    → all (ends_before (now + grace_period)) tasks ≡ true
    → (drain grace_period tasks now).0 ≡ shut_downs tasks
unfolding drain
drain-shut_down grace_period tasks now h e =
    drain_all-shut_down (now + grace_period) tasks now (omega (arith, h)) e
