-- ===== src/Tests/Startup.antt =====
-- Runs of the background tasks on concrete inputs.
use Prim.Native.String.{len}
use mini_siem_project.Prelude.{
  ℕ, ◌+◌, ◌≤◌, count, ◌==◌, Bool, List, true, false, all, retain, String, none, some, [], ◌∷◌, ◌++◌,
  ◌≡◌, refl,
}
use mini_siem_project.Prelude.Int.{negsuc, pos}
use mini_siem_project.Prelude.Text.{str_eq}
use mini_siem_project.Prelude.Eff.{ok}
use mini_siem_project.Types.Log.{Log}
use mini_siem_project.Queue.Send.{Encoders, FutureRecord}
use mini_siem_project.Compliance.{TenantCompliancePolicy}
use mini_siem_project.Api.Compliance.{CompliancePolicyRequest}
use mini_siem_project.Api.Compliance.Laws.{
  by_request, by_rotation, change_all, IsPositive, change_all-IsPositive,
}
use mini_siem_project.Startup.Indexer.{Received, arrived, lapse, channel_closed, index_loop}
use mini_siem_project.Startup.Indexer.Site.{Site, Answering, site}
use mini_siem_project.Startup.Indexer.Kept.{kept, wanted, index_loop-kept}
use mini_siem_project.Startup.Indexer.Batches.{index_loop-is_sized, is_sized}
use mini_siem_project.Startup.Retention.{
  completed, panicked, run_tenant_retention_cycle, retain_all,
}
use mini_siem_project.Startup.Retention.Laws.{
  Hour, purging, is_datable, expected_deletions, run_tenant_retention_cycle-deletions,
  retain_all-panicked,
}
use mini_siem_project.Startup.Dispatch.{dispatch}
use mini_siem_project.Startup.Dispatch.Laws.{is_for, dispatch-retain}
use mini_siem_project.Startup.Tasks.{ManagedTask, drain}
use mini_siem_project.Startup.Tasks.Laws.{drain-deadline, linger}
use mini_siem_project.Tests.Samples.{log_of}

abbrev message_codec : Encoders
message_codec = record {
  log_json = λ l. ok l.message;
  alert_json = λ a. ok a.description;
  show_id = λ n. "id";
}

-- The index is there but takes no batch, and no signal for shutdown comes.
abbrev refusing : Answering
refusing = record {
  is_connected = λ n. true;
  comes_back = λ n. false;
  takes = λ n log. false;
  answers = λ n. true;
  stops = λ n. false;
}

abbrev untouched : Site
untouched = record { questions = 0; requests = []; indexed = []; dead = [] }

abbrev first_log : Log
first_log = log_of "acme" "10.0.0.7" "login_failed" "one"

abbrev second_log : Log
second_log = log_of "acme" "10.0.0.8" "login_failed" "two"

abbrev received : List Received
received = arrived first_log ∷ lapse ∷ arrived second_log ∷ channel_closed ∷ []

abbrev is_dead : FutureRecord → Bool
is_dead r = str_eq r.topic "siem-logs-dlq"

abbrev message_of : Log → String
message_of log = log.message

index_loop-kept_example :
    let (held, v) = index_loop (site refusing message_codec) received [] untouched in
    (2
      ≤ kept refusing message_codec message_of is_dead v
        + count (wanted refusing message_codec message_of is_dead) held)
    × (kept refusing message_codec message_of is_dead v
          + count (wanted refusing message_codec message_of is_dead) held
        ≤ 10)
index_loop-kept_example =
    index_loop-kept refusing message_codec message_of is_dead (λ log. refl) (λ n. refl) received []
      untouched

-- The index takes every batch, and the signal for shutdown is there at once.
abbrev taking : Answering
taking = record {
  is_connected = λ n. true;
  comes_back = λ n. false;
  takes = λ n log. true;
  answers = λ n. true;
  stops = λ n. true;
}

index_loop-is_sized_example :
    is_sized (index_loop (site taking message_codec) received [] untouched).1 ≡ true
index_loop-is_sized_example =
    index_loop-is_sized taking message_codec received [] untouched refl refl

-- A hundred days after the start of time, as the program counts it.
abbrev policy_of : String → ℕ → Bool → TenantCompliancePolicy
policy_of tenant_id days hold = record {
  tenant_id = tenant_id;
  retention_days = pos days;
  legal_hold = hold;
  legal_hold_reason = none;
  legal_hold_until = none;
  access_review_interval_days = pos 90;
  key_rotation_interval_days = pos 90;
  last_key_rotation_at = none;
  evidence_export_enabled = true;
  updated_at = pos 0;
}

abbrev held_policy : TenantCompliancePolicy
held_policy = policy_of "acme" 1 true

abbrev short_policy : TenantCompliancePolicy
short_policy = policy_of "beta" 30 false

abbrev endless_policy : TenantCompliancePolicy
endless_policy = policy_of "gamma" 1000 false

abbrev hour : Hour
hour = record {
  now = pos 8_640_000_000_000_000;
  is_connected = true;
  rfc3339 = λ t. "then";
  first_instant = pos 0;
  policies = held_policy ∷ short_policy ∷ [];
  fails = λ n. n == 1;
}

due : all (is_datable hour) hour.policies ≡ true
unfolding is_datable
due = refl

run_tenant_retention_cycle-deletions_example :
    run_tenant_retention_cycle (purging hour) "siem-logs" []
    ≡ (completed, expected_deletions hour "siem-logs" (held_policy ∷ short_policy ∷ []))
run_tenant_retention_cycle-deletions_example =
    run_tenant_retention_cycle-deletions hour "siem-logs" due

held : all (is_datable hour) (held_policy ∷ []) ≡ true
unfolding is_datable
held = refl

endless : is_datable hour endless_policy ≡ false
unfolding is_datable
endless = refl

-- The tenant before the endless one is served, and the one after it is not.
retain_all-panicked_example :
    retain_all (purging hour) "siem-logs" (held_policy ∷ endless_policy ∷ short_policy ∷ []) []
    ≡ (panicked, expected_deletions hour "siem-logs" (held_policy ∷ []))
retain_all-panicked_example =
    retain_all-panicked hour "siem-logs" (held_policy ∷ []) endless_policy (short_policy ∷ []) []
      held endless

abbrev by_length : List String → ℕ
by_length [] = 0
by_length (s ∷ ss) = len s + by_length ss

dispatch-retain_example :
    dispatch by_length 3 "tenant" (λ i. false) (first_log ∷ second_log ∷ []) (λ i. []) 1
    ≡ [] ++ retain (is_for by_length 3 "tenant" 1) (first_log ∷ second_log ∷ [])
dispatch-retain_example =
    dispatch-retain by_length 3 "tenant" (λ i. false) (first_log ∷ second_log ∷ []) (λ i. []) 1 refl

abbrev stuck_task : ManagedTask
stuck_task = record { name = "l1_maintenance"; ends_at = none; is_clean = false; lingers = 20 }

drain-deadline_example : (drain 15000 (stuck_task ∷ []) 0).1 ≤ 0 + 15000 + linger (stuck_task ∷ [])
drain-deadline_example = drain-deadline 15000 (stuck_task ∷ []) 0

-- A request for no days at all.
abbrev no_days : CompliancePolicyRequest
no_days = record {
  retention_days = some (negsuc 4);
  legal_hold = none;
  legal_hold_reason = none;
  legal_hold_until = none;
  access_review_interval_days = some (pos 0);
  key_rotation_interval_days = none;
  evidence_export_enabled = none;
}

change_all-IsPositive_example :
    IsPositive (change_all (by_request no_days (pos 5) ∷ by_rotation (pos 6) ∷ []) short_policy)
change_all-IsPositive_example =
    change_all-IsPositive (by_request no_days (pos 5) ∷ by_rotation (pos 6) ∷ []) short_policy
      (refl, refl, refl)
