-- ===== src/Detection/Rules/BruteForce.antt =====
-- Failed logins counted by source address (backend/src/detection/rules/brute_force.rs).
use mini_siem_project.Prelude.{
  ℕ, String, Option, none, some, List, [], ◌∷◌, not, leb, if◌then◌else◌,
}
use mini_siem_project.Prelude.Int.{ℤ, i64_as_u64}
use mini_siem_project.Prelude.Text.{◌++ₛ◌, show_nat}
use mini_siem_project.Prelude.Eff.{Eff, pure, ◌>>=◌}
use mini_siem_project.Types.Log.{Log, Call, is_failed_login}
use mini_siem_project.Types.Tag.{LogTag, auth}
use mini_siem_project.Types.Alert.{Alert, high, new_alert}
use mini_siem_project.Detection.Cache.{Cache}

pub record BruteForceRule : Type 0 where
  pub tenant_id : String
  pub name : String
  pub id : String
  pub threshold : ℕ
  pub window_seconds : ℤ

abbrev pub log_types : BruteForceRule → List LogTag
log_types r = auth ∷ []

abbrev pub brute_force_alert : BruteForceRule → Call → Log → ℕ → Alert
brute_force_alert r c log count =
    new_alert c log.tenant_id r.id r.name high
      ("Possible brute force attack from "
        ++ₛ log.source_ip
        ++ₛ ": "
        ++ₛ show_nat count
        ++ₛ " failed attempts")
      log.source_ip (log ∷ [])

unfoldable pub evaluate :
    {S : Type 0} → Cache S → BruteForceRule → Call → Log → Eff S (Option Alert)
evaluate cache r c log = if not (is_failed_login log) then pure none else do
  count ← cache.increment_counter log.source_ip (i64_as_u64 r.window_seconds)
  pure (if leb r.threshold count then some (brute_force_alert r c log count) else none)
