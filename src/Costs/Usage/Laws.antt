-- ===== src/Costs/Usage/Laws.antt =====
-- The tenant's counters after a run of decisions.
use mini_siem_project.Prelude.{ℕ, ◌+◌, String, ◌≡◌, List, [], ◌∷◌, arith, if◌then◌else◌}
use mini_siem_project.Prelude.Text.{str_eq}
use mini_siem_project.Types.External.{External}
use mini_siem_project.Costs.Policy.{CostDecision}
use mini_siem_project.Costs.Keys.{usage_key}
use mini_siem_project.Costs.Usage.{
  CostStore, Write, add, one, rank, usage_writes, run_writes, record_cost_usage,
}
use mini_siem_project.Costs.Usage.Amounts.{total, amount_of, Counted, usage_writes-Counted}

-- The counters behind the store: INCRBY and an increment add to the one at their key, a rank to none.
pub record Accounts {S : Type 0} (store : CostStore S) (count : S → String → ℕ) : Type 0 where
  pub incr_by_count :
      (k : String) (n e : ℕ) (s : S) (j : String)
      → count (store.incr_by k n e s).1 j ≡ (if str_eq k j then n else 0) + count s j
  pub increment_count :
      (k : String) (e : ℕ) (s : S) (j : String)
      → count (store.cache.increment_counter k e s).1 j ≡ (if str_eq k j then 1 else 0) + count s j
  pub rank_count :
      (k member : String) (n : ℕ) (s : S) (j : String)
      → count (store.zincrby k member n s).1 j ≡ count s j

-- The amounts of a run of decisions, summed up.
unfoldable pub sum_of : List CostDecision → String → ℕ
sum_of [] what = 0
sum_of (d ∷ ds) what = amount_of d what + sum_of ds what

module _ {S : Type 0} (store : CostStore S) (count : S → String → ℕ)
    (laws : Accounts store count) where
  run_writes-count :
      (ws : List Write) (s : S) (j : String)
      → count (run_writes store ws s) j ≡ total j ws + count s j
  unfolding run_writes
  run_writes-count [] s j = omega arith
  run_writes-count (add k n ∷ ws) s j = omega (
    arith,
    run_writes-count ws (store.incr_by k n 86_400 s).1 j,
    laws.incr_by_count k n 86_400 s j,
  )
  run_writes-count (one k ∷ ws) s j = ground (
    arith,
    run_writes-count ws (store.cache.increment_counter k 86_400 s).1 j,
    laws.increment_count k 86_400 s j,
  )
  run_writes-count (rank k member n ∷ ws) s j =
      omega (
        arith,
        run_writes-count ws (store.zincrby k member n s).1 j,
        laws.rank_count k member n s j,
      )

  -- The decisions recorded one after the other.
  pub record_all : External → String → String → List CostDecision → S → S
  record_all x day t [] s = s
  record_all x day t (d ∷ ds) s = record_all x day t ds (record_cost_usage store x day t d s).1

  -- After a run of decisions of a tenant on a day is recorded, each of the tenant's four counters
  -- has grown by the run's sum: `bytes` by the estimated bytes of all its logs, also of those that
  -- were sampled out or dropped, `logs` by their number, and `sampled` and `dropped` by the number of
  -- those.
  pub record_all-Counted :
      (x : External) (day t : String) {b : String}
      → Counted b
      → (ds : List CostDecision) (s : S)
      → count (record_all x day t ds s) (usage_key day t b)
        ≡ sum_of ds b + count s (usage_key day t b)
  unfolding record_all sum_of record_cost_usage
  record_all-Counted x day t k [] s = omega arith
  record_all-Counted x day t {b = b} k (d ∷ ds) s = omega (
    arith,
    record_all-Counted x day t k ds (record_cost_usage store x day t d s).1,
    run_writes-count (usage_writes x day t d) s (usage_key day t b),
    usage_writes-Counted day t k x d,
  )
