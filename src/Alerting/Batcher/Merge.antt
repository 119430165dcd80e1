-- ===== src/Alerting/Batcher/Merge.antt =====
-- The key by which alerts are taken as one, and the merging of two of them.
use mini_siem_project.Prelude.{
  ℕ, ◌+◌, ◌%◌, ◌^◌, String, Bool, ◌&&◌, List, ◌++◌, ◌==◌, if◌then◌else◌,
}
use mini_siem_project.Prelude.Int.{ℤ, eqb_ℤ, leb_ℤ, min_ℤ, max_ℤ, div_floor}
use mini_siem_project.Prelude.Text.{str_eq, codes}
use mini_siem_project.Types.Log.{seconds}
use mini_siem_project.Types.Alert.{Alert}
use mini_siem_project.Alerting.Batcher.Fingerprint.{normalize_fingerprint}

pub record AlertDedupKey : Type 0 where
  pub tenant_id : String
  pub rule_id : String
  pub entity : String
  pub normalized_fingerprint : ℕ
  pub window_bucket : ℤ

unfoldable pub key_eq : AlertDedupKey → AlertDedupKey → Bool
key_eq a b =
    str_eq a.tenant_id b.tenant_id
    && (str_eq a.rule_id b.rule_id
        && (str_eq a.entity b.entity
            && ((a.normalized_fingerprint == b.normalized_fingerprint)
                && eqb_ℤ a.window_bucket b.window_bucket)))

abbrev pub alert_dedup_window_seconds : ℕ
alert_dedup_window_seconds = 60

abbrev pub dedup_window_bucket : Alert → ℤ
dedup_window_bucket a = div_floor (seconds a.last_seen) alert_dedup_window_seconds

-- `hash` stands for the standard hasher fed with the normalised text.
abbrev pub fingerprint_hash : (List ℕ → ℕ) → Alert → ℕ
fingerprint_hash hash a = hash (normalize_fingerprint (codes a.description))

unfoldable pub alert_dedup_key : (List ℕ → ℕ) → Alert → AlertDedupKey
alert_dedup_key hash a = record {
  tenant_id = a.tenant_id;
  rule_id = a.rule_id;
  entity = a.source_ip;
  normalized_fingerprint = fingerprint_hash hash a;
  window_bucket = dedup_window_bucket a;
}

-- The incoming alert into the one that is there. The last test reads the time already merged.
unfoldable pub merge_alert : Alert → Alert → Alert
merge_alert existing incoming =
    let last = max_ℤ existing.last_seen incoming.last_seen in
    record existing {
      first_seen = min_ℤ existing.first_seen incoming.first_seen;
      last_seen = last;
      events_count = (existing.events_count + incoming.events_count) % 2 ^ 64;
      events = existing.events ++ incoming.events;
      description =
          if leb_ℤ last incoming.last_seen then incoming.description else existing.description;
    }
