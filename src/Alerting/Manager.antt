-- ===== src/Alerting/Manager.antt =====
-- The direct path of an alert (backend/src/alerting/manager.rs): the database, the notifier and the
-- responses.
use mini_siem_project.Prelude.Eff.{Eff, ◌>>◌, ignore_then, ok}
use mini_siem_project.Types.Alert.{Alert}
use mini_siem_project.Response
use mini_siem_project.Response.{ResponseEngine}

-- The table of alerts and the notifier.
pub record AlertOutlets (S : Type 0) : Type 0 where
  pub create_alert : Alert → Eff S (Unit {0})
  pub notify : Alert → Eff S (Unit {0})

-- A notice that fails is logged; an alert that cannot be stored ends the function.
unfoldable pub handle_alert :
    {S : Type 0} → AlertOutlets S → ResponseEngine S → Alert → Eff S (Unit {0})
unfolding Response.handle_alert
handle_alert outlets engine alert =
    outlets.create_alert alert
    >> ignore_then (outlets.notify alert) (λ s. (ok tt, Response.handle_alert engine alert s))
