-- ===== src/Alerting/Batcher/Flush.antt =====
-- A flush of the buffer, and the batcher's loop.
use Prim.Native.Nat.{Ordering}
use mini_siem_project.Prelude.{
  ℕ, String, Option, none, some, List, [], ◌∷◌, ◌++◌, map, length, is_empty, leb, if◌then◌else◌,
}
use mini_siem_project.Prelude.Text.{str_eq}
use mini_siem_project.Prelude.Eff.{Result, ok, err, Eff, pure, ◌>>=◌, ◌>>◌, ignore_then}
use mini_siem_project.Types.Alert.{Alert}
use mini_siem_project.Alerting.Batcher.Merge.{AlertDedupKey, key_eq, alert_dedup_key, merge_alert}

-- The database as the flush uses it, with the state `S` behind it.
pub record AlertDb (S : Type 0) : Type 0 where
  pub get_open_alerts_by_ips : String → List String → Eff S (List Alert)
  pub create_alerts_batch : List Alert → Eff S (Unit {0})
  pub upsert_alerts_batch : List Alert → Eff S (Unit {0})

-- A hash map by dedup key, and one of those by tenant. A hash map yields its entries in no order
-- that is promised; here they stand in the order of their first insertion.
abbrev pub AlertMap : Type 0
AlertMap = List (AlertDedupKey × Alert)

abbrev pub TenantMap : Type 0
TenantMap = List (String × AlertMap)

-- `entry(key).and_modify(merge).or_insert(alert)`
unfoldable pub merge_in : AlertDedupKey → Alert → AlertMap → AlertMap
merge_in k a [] = (k, a) ∷ []
merge_in k a ((j, b) ∷ m) = if key_eq j k then (j, merge_alert b a) ∷ m else (j, b) ∷ merge_in k a m

-- `entry(tenant).or_default()`, then the entry in it
unfoldable pub group_in : String → AlertDedupKey → Alert → TenantMap → TenantMap
group_in t k a [] = (t, merge_in k a []) ∷ []
group_in t k a ((u, m) ∷ rest) =
    if str_eq u t then (u, merge_in k a m) ∷ rest else (u, m) ∷ group_in t k a rest

-- `entry(key).or_insert(alert)`: the first one stays.
abbrev pub insert_first : AlertDedupKey → Alert → AlertMap → AlertMap
insert_first k a [] = (k, a) ∷ []
insert_first k a ((j, b) ∷ m) = if key_eq j k then (j, b) ∷ m else (j, b) ∷ insert_first k a m

-- `remove(key)`: the alert, and the map without it.
abbrev pub take_out : AlertDedupKey → AlertMap → Option Alert × AlertMap
take_out k [] = (none, [])
take_out k ((j, b) ∷ m) =
    let rest = take_out k m in if key_eq j k then (some b, m) else (rest.0, (j, b) ∷ rest.1)

-- Strings sorted, and equal neighbours made one.
module _ (cmp : String → String → Ordering) where
  abbrev insert_sorted : String → List String → List String
  insert_sorted s [] = s ∷ []
  insert_sorted s (t ∷ ts) = elim (cmp s t) [
    | Ordering.gt ↦ t ∷ insert_sorted s ts
    | _ ↦ s ∷ t ∷ ts
  ]

  abbrev sort : List String → List String
  sort [] = []
  sort (s ∷ ss) = insert_sorted s (sort ss)

  abbrev dedup_from : String → List String → List String
  dedup_from s [] = s ∷ []
  dedup_from s (t ∷ ts) = if str_eq s t then dedup_from s ts else s ∷ dedup_from t ts

  abbrev dedup : List String → List String
  dedup [] = []
  dedup (s ∷ ss) = dedup_from s ss

  abbrev unique_ips : AlertMap → List String
  unique_ips m = dedup (sort (map (λ e. e.1.source_ip) m))

module _ (hash : List ℕ → ℕ) where
  -- `buffer.drain(..)` into the maps
  unfoldable pub group_all : List Alert → TenantMap → TenantMap
  group_all [] maps = maps
  group_all (a ∷ as') maps = group_all as' (group_in a.tenant_id (alert_dedup_key hash a) a maps)

  unfoldable pub index_existing : List Alert → AlertMap → AlertMap
  index_existing [] m = m
  index_existing (a ∷ as') m = index_existing as' (insert_first (alert_dedup_key hash a) a m)

-- The alerts to update, those merged into an open alert, and the alerts to create.
unfoldable pub split_existing : AlertMap → AlertMap → List Alert × List Alert
split_existing existing [] = ([], [])
split_existing existing ((k, a) ∷ rest) =
    let (found, left) = take_out k existing in
    let (updates, creates) = split_existing left rest in
    elim found [ some e ↦ (merge_alert e a ∷ updates, creates) | none ↦ (updates, a ∷ creates) ]

-- What wakes the loop.
pub data Wake : Type 0 where
  received : Alert → Wake
  tick : Wake

module _ {S : Type 0} (db : AlertDb S) (hash : List ℕ → ℕ) (cmp : String → String → Ordering) where
  abbrev or_nothing : Eff S (List Alert) → Eff S (List Alert)
  or_nothing m s = let (r, t) = m s in elim r [ ok as' ↦ (ok as', t) | err e ↦ (ok [], t) ]

  -- A failed creation ends the flush; a failed update is only logged.
  unfoldable pub write_tenant : String → AlertMap → Eff S (Unit {0})
  write_tenant tenant alerts = do
    existing ← or_nothing (db.get_open_alerts_by_ips tenant (unique_ips cmp alerts))
    let parts = split_existing (index_existing hash existing []) alerts
    if is_empty parts.1 then pure tt else db.create_alerts_batch parts.1
    if is_empty parts.0 then pure tt else ignore_then (db.upsert_alerts_batch parts.0) (pure tt)

  unfoldable pub write_tenants : TenantMap → Eff S (Unit {0})
  write_tenants [] = pure tt
  write_tenants ((t, m) ∷ rest) = do write_tenant t m; write_tenants rest

  -- The outcome, the buffer after it, which has been drained, and the database.
  unfoldable pub flush_batch : List Alert → S → Result (Unit {0}) × List Alert × S
  flush_batch [] s = (ok tt, [], s)
  flush_batch (a ∷ as') s = let (r, t) = write_tenants (group_all hash (a ∷ as') []) s in (r, [], t)

  -- One round of the loop with the buffer; an error of the flush is logged.
  unfoldable pub wake : ℕ → Wake → List Alert → S → List Alert × S
  wake batch_size (received alert) buffer s =
      let full = buffer ++ alert ∷ [] in
      let (r, left, t) = flush_batch full s in
      if leb batch_size (length full) then (left, t) else (full, s)
  wake batch_size tick buffer s =
      let (r, left, t) = flush_batch buffer s in if is_empty buffer then (buffer, s) else (left, t)

  -- Shutdown ends the loop after a last flush.
  unfoldable pub shut_down : List Alert → S → List Alert × S
  shut_down buffer s =
      let (r, left, t) = flush_batch buffer s in if is_empty buffer then (buffer, s) else (left, t)

  unfoldable pub run_batcher : ℕ → List Wake → List Alert → S → List Alert × S
  run_batcher batch_size [] buffer s = shut_down buffer s
  run_batcher batch_size (w ∷ ws) buffer s =
      let (left, t) = wake batch_size w buffer s in run_batcher batch_size ws left t
