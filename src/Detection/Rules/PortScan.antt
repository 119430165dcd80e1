-- ===== src/Detection/Rules/PortScan.antt =====
-- The port scan rule, which the source leaves as a placeholder
-- (backend/src/detection/rules/port_scan.rs).
use mini_siem_project.Prelude.{ℕ, String, Option, none, List, [], ◌∷◌}
use mini_siem_project.Prelude.Int.{ℤ}
use mini_siem_project.Prelude.Eff.{Eff, pure}
use mini_siem_project.Types.Log.{Log}
use mini_siem_project.Types.Tag.{LogTag, network}
use mini_siem_project.Types.Alert.{Alert}

pub record PortScanRule : Type 0 where
  pub tenant_id : String
  pub id : String
  pub name : String
  pub port_threshold : ℕ
  pub window_seconds : ℤ

abbrev pub log_types : PortScanRule → List LogTag
log_types r = network ∷ []

abbrev pub evaluate : {S : Type 0} → PortScanRule → Log → Eff S (Option Alert)
evaluate r log = pure none
