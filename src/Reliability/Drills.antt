-- ===== src/Reliability/Drills.antt =====
-- The drills (backend/src/reliability.rs and the weekly task of backend/src/main.rs): recent logs are
-- sent once more, the services are checked, and a report says how it went.
use Prim.Native.Nat.{max}
use mini_siem_project.Prelude.{
  ℕ, suc, ltb, String, Option, none, some, List, [], ◌∷◌, if◌then◌else◌, unwrap_or,
}
use mini_siem_project.Prelude.Int.{ℤ}
use mini_siem_project.Prelude.Eff.{ok, err, Eff}
use mini_siem_project.Types.Json.{
  Value, number, pos_int, bool, string, object, field, end, get, as_array,
}
use mini_siem_project.Types.Log.{Log, Call}
use mini_siem_project.Reliability.{Probes, HealthSummary, health_probe_summary}

pub record ReliabilityReportCreate : Type 0 where
  pub tenant_id : String
  pub report_type : String
  pub drill_name : String
  pub status : String
  pub started_at : ℤ
  pub completed_at : ℤ
  pub summary_json : Value

-- The search in the index, if there is one; the reader of logs; the channel of accepted logs; and
-- the texts of moments and identifiers.
pub record Replaying (S : Type 0) : Type 0 where
  pub search : Option (Value → ℕ → ℕ → Eff S Value)
  pub parse_log : Value → Option Log
  pub ingest : Log → Eff S (Unit {0})
  pub show_time : ℤ → String
  pub show_id : ℕ → String

abbrev natural : ℕ → Value
natural n = number (pos_int n)

abbrev get_in : Option Value → String → Option Value
get_in none key = none
get_in (some v) key = get v key

abbrev list_of : Option Value → List Value
list_of none = []
list_of (some v) = unwrap_or [] (as_array v)

-- The array at "/hits/hits".
unfoldable pub hits_of : Value → List Value
hits_of response = list_of (get_in (get response "hits") "hits")

-- A log as it is sent again.
unfoldable pub replayed_log : (ℤ → String) → (ℕ → String) → ℤ → ℤ → Log → Log
replayed_log show_time show_id started now log = record log {
  metadata = object (
      field "drill" (string "replay") (
        field "original_id" (string (show_id log.id))
          (field "replayed_at" (string (show_time started)) end)));
  received_at = now;
}

module _ {S : Type 0} (replaying : Replaying S) where
  open replaying use {parse_log, ingest, show_time, show_id}

  abbrev log_of_hit : Value → Option Log
  log_of_hit hit = elim (get hit "_source") [ none ↦ none | some source ↦ parse_log source ]

  -- Each hit that can be read counts, whatever the channel answers.
  unfoldable pub replay_hits : Call → List Value → S → ℕ × S
  unfolding replayed_log
  replay_hits c [] s = (0, s)
  replay_hits c (hit ∷ hits) s = elim (log_of_hit hit) [
    | none ↦ replay_hits c hits s
    | some log ↦
        let (n, s') =
          replay_hits c hits (ingest (replayed_log show_time show_id c.now c.now log) s).1 in
        (suc n, s')
  ]

  abbrev replay_summary : Call → ℕ → ℕ → Value
  replay_summary c limit replayed = object (
      field "completed_at" (string (show_time c.now)) (
        field "limit" (natural limit) (
          field "replayed" (natural replayed) (field "started_at" (string (show_time c.now)) end))))

  unfoldable pub replay_recent_logs : Call → String → ℕ → Eff S Value
  unfolding hits_of replay_hits
  replay_recent_logs c tenant_id limit s = elim replaying.search [
    | none ↦ (
      ok (
          object (
            field "reason" (string "elasticsearch unavailable")
              (field "replayed" (natural 0) end))),
      s,
    )
    | some search ↦
        let query = object (field "term" (object (field "tenant_id" (string tenant_id) end)) end) in
        let (r, s₁) = search query 0 (max limit 1) s in
        elim r [
          | err e ↦ (err e, s₁)
          | ok response ↦
              let (n, s₂) = replay_hits c (hits_of response) s₁ in
              (ok (replay_summary c limit n), s₂)
        ]
  ]

abbrev as_natural : Option Value → ℕ
as_natural (some (number (pos_int n))) = n
as_natural v = 0

-- The week's drill passes if it has sent a log again, also when all failed to be taken.
unfoldable pub weekly_status : Value → String
weekly_status summary = if ltb 0 (as_natural (get summary "replayed")) then "passed" else "degraded"

unfoldable pub chaos_status : HealthSummary → String
chaos_status summary = if summary.all_healthy then "passed" else "failed"

unfoldable pub chaos_value : HealthSummary → Value
chaos_value h = object (
    field "all_healthy" (bool h.all_healthy) (
      field "db" (bool h.db) (
        field "elasticsearch" (bool h.elasticsearch)
          (field "kafka" (bool h.kafka) (field "redis" (bool h.redis) end)))))

abbrev pub report_of : Call → String → String → String → String → Value → ReliabilityReportCreate
report_of c tenant_id report_type drill_name status summary = record {
  tenant_id = tenant_id;
  report_type = report_type;
  drill_name = drill_name;
  status = status;
  started_at = c.now;
  completed_at = c.now;
  summary_json = summary;
}

-- The two drills of a week, for the empty tenant; a report that cannot be stored is logged.
unfoldable pub weekly_drills :
    {S Rep : Type 0} → Replaying S → Probes S → (ReliabilityReportCreate → Eff S Rep) → Call → S → S
unfolding replay_recent_logs weekly_status chaos_status chaos_value health_probe_summary
weekly_drills {S = S} replaying probes insert_reliability_report c s =
    let (r, s₁) = replay_recent_logs replaying c "" 25 s in
    let s₂ : S = elim r [
      | err e ↦ s₁
      | ok summary ↦
          (insert_reliability_report
            (report_of c "" "replay_drill" "weekly-auto-replay-drill" (weekly_status summary)
              summary)
            s₁).1
    ] in
    let (health, s₃) = health_probe_summary probes s₂ in
    (insert_reliability_report
      (report_of c "" "chaos_drill" "weekly-auto-chaos-drill" (chaos_status health)
        (chaos_value health))
      s₃).1
