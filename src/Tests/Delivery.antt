-- ===== src/Tests/Delivery.antt =====
-- Alerts, responses, tags and costs at concrete inputs.
use Prim.Native.Nat.{Ordering}
use mini_siem_project.Prelude.{ℕ, ◌≡◌, ◌+◌, refl, String, true, false, none, List, [], ◌∷◌, length}
use mini_siem_project.Prelude.Eff.{ok, err}
use mini_siem_project.Types.Alert.{Alert, high}
use mini_siem_project.Alerting.Batcher.Fingerprint.{
  Similar, normalize_fingerprint, normalize_fingerprint-Similar,
}
use mini_siem_project.Alerting.Batcher.Merge.{AlertDedupKey, alert_dedup_key}
use mini_siem_project.Alerting.Batcher.Flush.{AlertDb, AlertMap, group_all, split_existing}
use mini_siem_project.Alerting.Batcher.Grouping.{
  find_group, merged, find_group-group_all, events_in_all, events_of, events-group_all,
}
use mini_siem_project.Alerting.Batcher.Draining.{Routed, split_existing-Routed}
use mini_siem_project.Response.{
  ResponseAction, ResponseEngine, new_engine, add_global_severity_policy,
}
use mini_siem_project.Costs.Policy.{TenantDataCostPolicy, default_for_tenant}
use mini_siem_project.Costs.Decide.{decide}
use mini_siem_project.Costs.Laws.{sampled-decide}
use mini_siem_project.Tests.Samples.{call, alert_of}

abbrev plain_hash : List ℕ → ℕ
plain_hash l = length l

abbrev alerts : List Alert
alerts =
    alert_of "acme" "3 failed attempts"
    ∷ alert_of "acme" "12 failed attempts"
    ∷ alert_of "other" "x"
    ∷ []

abbrev first_key : AlertDedupKey
first_key = alert_dedup_key plain_hash (alert_of "acme" "3 failed attempts")

find_group-group_all_example :
    find_group "acme" first_key (group_all plain_hash alerts [])
    ≡ merged plain_hash "acme" first_key alerts none
find_group-group_all_example = find_group-group_all plain_hash alerts "acme" first_key

events-group_all_example : events_in_all (λ l. true) (group_all plain_hash alerts []) ≡ 3
unfolding events_of
events-group_all_example = events-group_all (λ l. true) plain_hash alerts

-- "9 A" and "10 a"
normalize_fingerprint-Similar_example :
    normalize_fingerprint (b'9' ∷ 32 ∷ b'A' ∷ [])
    ≡ normalize_fingerprint (b'1' ∷ b'0' ∷ 32 ∷ b'a' ∷ [])
normalize_fingerprint-Similar_example = normalize_fingerprint-Similar (
    Similar.digits refl refl (
      Similar.more_right refl (
        Similar.same refl refl refl
          (Similar.same {c = b'A'} {d = b'a'} refl refl refl Similar.end))))

abbrev open_one : AlertMap
open_one = (first_key, alert_of "acme" "open") ∷ []

abbrev grouped_one : AlertMap
grouped_one = (first_key, alert_of "acme" "new") ∷ []

split_existing-Routed_example :
    Routed open_one grouped_one
      (split_existing open_one grouped_one).0
      (split_existing open_one grouped_one).1
split_existing-Routed_example = split_existing-Routed open_one grouped_one (tt, tt)

-- A database that takes nothing and counts the attempts.
abbrev down : AlertDb ℕ
down = record {
  get_open_alerts_by_ips = λ t ips n. (err "down", n);
  create_alerts_batch = λ as' n. (err "down", n + 1);
  upsert_alerts_batch = λ as' n. (err "down", n + 1);
}

abbrev same_order : String → String → Ordering
same_order s t = Ordering.eq

abbrev block : ResponseAction ℕ
block = record { name = "block_ip"; execute = λ a n. (ok tt, n + 1) }

abbrev notify : ResponseAction ℕ
notify = record { name = "notify"; execute = λ a n. (ok tt, n) }

abbrev engine : ResponseEngine ℕ
engine = add_global_severity_policy new_engine high notify

abbrev policy : TenantDataCostPolicy
policy = default_for_tenant call "acme"

sampled-decide_example : (decide policy false true false none 26 "0.10").sampled ≡ true
sampled-decide_example = sampled-decide policy false true false none 26 "0.10"
