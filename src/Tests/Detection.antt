-- ===== src/Tests/Detection.antt =====
-- Normalisation, conditions, the single-event rules and the engine at concrete inputs.
use Prim.Native.Nat.{max}
use mini_siem_project.Prelude.{◌≡◌, refl, true, some, List, [], ◌∷◌, is_some, arith, length}
use mini_siem_project.Prelude.Eff.{ok, err}
use mini_siem_project.Types.Log.{Call, is_failed_login}
use mini_siem_project.Types.Tag.{LogTag, auth, network, malware}
use mini_siem_project.Detection.Engine.Index.{infer_tags}
use mini_siem_project.Detection.Normalization.{normalize_log}
use mini_siem_project.Detection.Normalization.Laws.{event_outcome-normalize_log}
use mini_siem_project.Detection.Rules.BruteForce
use mini_siem_project.Detection.Rules.Malware
use mini_siem_project.Detection.Rules.Laws.{
  brute_force_fires, run_rules, failures, malware_fires, answer,
}
use mini_siem_project.Detection.CompiledRule.{CompiledRule}
use mini_siem_project.Detection.Engine.Index.{RuleIndex, reload_rules, candidates, compile}
use mini_siem_project.Detection.Engine.Index.Laws.{
  declares, compiled, reload_rules_lem, candidates_repeat, replicate,
}
use mini_siem_project.Detection.Engine.Stats.{new_stats}
use mini_siem_project.Detection.Engine.Process.{EngineState, Delivery, process_log}
use mini_siem_project.Detection.Engine.Process.Laws.{Noted, alerts_of, process_log_lem}
use mini_siem_project.Tests.Memory.{Memory, memory, memory_counters, empty_memory}
use mini_siem_project.Tests.Samples.{
  plain, by_key, call, failed_login, log_of, brute_rule, malware_rule, malware_row, no_parsers,
}

event_outcome-normalize_log_example :
    (normalize_log plain call failed_login).event_outcome ≡ some "failure"
unfolding is_failed_login
event_outcome-normalize_log_example = event_outcome-normalize_log plain call failed_login

-- A rule of another tenant has counted the first failure.
brute_force_fires_example :
    (BruteForce.evaluate memory brute_rule call failed_login (
      run_rules memory
        (λ s k. s.counts k)
        memory_counters
        ((
          record brute_rule { tenant_id = "other" },
          call,
          log_of "other" "10.0.0.7" "login_failed" "",
        )
          ∷ [])
        empty_memory)).0
    ≡ ok (some (BruteForce.brute_force_alert brute_rule call failed_login 2))
unfolding is_failed_login failures
brute_force_fires_example =
    brute_force_fires memory (λ s k. s.counts k) memory_counters
      ((
        record brute_rule { tenant_id = "other" },
        call,
        log_of "other" "10.0.0.7" "login_failed" "",
      )
        ∷ [])
      empty_memory brute_rule call failed_login refl refl

malware_fires_example :
    ((Malware.evaluate memory plain malware_rule call failed_login empty_memory).1 ≡ empty_memory)
    × (is_some
          (answer (Malware.evaluate memory plain malware_rule call failed_login empty_memory).0)
        ≡ true)
unfolding Malware.find_simple_iocs
malware_fires_example =
    malware_fires memory plain malware_rule call failed_login (some 85) empty_memory empty_memory
      refl

reload_rules_lem_example :
    reload_rules plain no_parsers (malware_row ∷ []) network
    ≡ CompiledRule.malware malware_rule ∷ []
unfolding compile compiled
reload_rules_lem_example = reload_rules_lem plain no_parsers (malware_row ∷ []) network

abbrev index : RuleIndex
index t =
    CompiledRule.malware malware_rule
    ∷ CompiledRule.brute_force (record brute_rule { tenant_id = "other" })
    ∷ []

declares_every : (t : LogTag) → declares t (CompiledRule.malware malware_rule) ≡ true
declares_every auth = refl
declares_every network = refl
declares_every malware = refl

-- The rule stands there as often as the log has tags.
candidates_repeat_example :
    candidates (reload_rules plain no_parsers (malware_row ∷ [])) failed_login
    ≡ replicate (max 1 (length (infer_tags failed_login))) (CompiledRule.malware malware_rule)
unfolding compile
candidates_repeat_example =
    candidates_repeat plain no_parsers malware_row (CompiledRule.malware malware_rule) failed_login
      refl declares_every refl

-- The queue takes nothing.
abbrev no_queue : Delivery Memory
no_queue = record {
  send_alert_with_retry = λ a s. (err "queue is down", s);
  handle_alert = λ a s. (ok tt, s);
  record_detection_latency = λ s. (ok tt, s);
}

abbrev in_turn : List CompiledRule → List (Call × CompiledRule)
in_turn [] = []
in_turn (r ∷ rs) = (call, r) ∷ in_turn rs

abbrev fresh : EngineState Memory
fresh = record { services = empty_memory; stats = new_stats; live = []; notices = 0 }

process_log_lem_example :
    ((process_log memory by_key plain no_queue in_turn index failed_login fresh).live
      ≡ alerts_of memory by_key plain in_turn index failed_login empty_memory)
    × Noted
        (alerts_of memory by_key plain in_turn index failed_login empty_memory)
        new_stats
        (process_log memory by_key plain no_queue in_turn index failed_login fresh).stats
process_log_lem_example =
    process_log_lem memory by_key plain no_queue in_turn index failed_login fresh
      (record { total_fits = omega arith; active_fits = omega arith; critical_fits = omega arith })
