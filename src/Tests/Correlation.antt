-- ===== src/Tests/Correlation.antt =====
-- Correlation rules against the cache in memory.
use mini_siem_project.Prelude.{
  ◌≤◌, ◌≡◌, ◌≢◌, refl, String, true, none, List, [], ◌∷◌, length, arith,
}
use mini_siem_project.Prelude.Int.{pos}
use mini_siem_project.Types.Json.{value_eq}
use mini_siem_project.Types.Log.{Log, Call}
use mini_siem_project.Detection.Evaluator
use mini_siem_project.Detection.Rules.Correlation.State.{
  CorrelationRule, CorrelationState, oldest_first, state_key, active_index_key, reset_state,
  advance,
}
use mini_siem_project.Detection.Rules.Correlation.Evaluate.{process}
use mini_siem_project.Detection.Rules.Correlation.Capped.{process_capped}
use mini_siem_project.Detection.Rules.Correlation.Stages.{remaining, Closer, advance-Closer}
use mini_siem_project.Tests.Memory.{memory, memory_view, memory_texts, memory_sets, empty_memory}
use mini_siem_project.Tests.Samples.{
  plain, by_key, call, failed_login, log_of, stage_of, correlation_of,
}

abbrev events : List (Call × Log)
events =
    (call, failed_login)
    ∷ (call, log_of "acme" "10.0.0.23" "login_failed" "Failed password for root")
    ∷ (call, failed_login)
    ∷ []

-- At most one group at a time.
abbrev single : CorrelationRule
single = correlation_of oldest_first 1

process_capped_example :
    (length
        ((process memory by_key plain single events empty_memory).sets (active_index_key single))
      ≤ 1)
    × ((g : String)
        → (process memory by_key plain single events empty_memory).texts (state_key plain single g)
          ≢ none
        → memory_view.has
            (process memory by_key plain single events empty_memory)
            (active_index_key single)
            (state_key plain single g)
          ≡ true)
process_capped_example =
    process_capped memory by_key plain memory_view memory_texts memory_sets single refl events
      empty_memory (λ g. refl) refl refl

-- The group has one event of the two that its first stage asks for.
abbrev half : CorrelationState
half = record (reset_state "10.0.0.7" (pos 4)) { events_in_stage = 1 }

advance-Closer_example :
    Closer
      (stage_of 2 ∷ stage_of 1 ∷ [])
      half
      (advance plain call failed_login (stage_of 2 ∷ stage_of 1 ∷ []) (pos 4) half)
unfolding Evaluator.evaluate remaining value_eq
advance-Closer_example =
    advance-Closer plain call failed_login (stage_of 2 ∷ stage_of 1 ∷ []) (pos 4) half
      (omega arith, (omega arith, tt)) (omega arith, omega arith) (omega arith) (refl, (refl, tt))
