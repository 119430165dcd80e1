-- ===== src/Detection/Engine/Stats.antt =====
-- The engine's local counters, `LocalStats`, and their flush to the cache every second.
use mini_siem_project.Prelude.{ℕ, ◌+◌, ◌%◌, ◌^◌, Bool, if◌then◌else◌}

-- Atomic counters of 64 bits, which wrap round.
pub record LocalStats : Type 0 where
  pub total_logs : ℕ
  pub total_alerts : ℕ
  pub active_alerts : ℕ
  pub critical_alerts : ℕ

abbrev pub new_stats : LocalStats
new_stats = record { total_logs = 0; total_alerts = 0; active_alerts = 0; critical_alerts = 0 }

abbrev fetch_add : ℕ → ℕ
fetch_add n = (n + 1) % 2 ^ 64

unfoldable pub incr_log : LocalStats → LocalStats
incr_log s = record s { total_logs = fetch_add s.total_logs }

unfoldable pub incr_alert : LocalStats → Bool → LocalStats
incr_alert s is_critical = record s {
  total_alerts = fetch_add s.total_alerts;
  active_alerts = fetch_add s.active_alerts;
  critical_alerts = if is_critical then fetch_add s.critical_alerts else s.critical_alerts;
}

-- The four values, and the counters at zero.
unfoldable pub take_and_reset : LocalStats → (ℕ × ℕ × ℕ × ℕ) × LocalStats
take_and_reset s = ((s.total_logs, s.total_alerts, s.active_alerts, s.critical_alerts), new_stats)
