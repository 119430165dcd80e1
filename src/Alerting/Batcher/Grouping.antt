-- ===== src/Alerting/Batcher/Grouping.antt =====
-- What the maps of a flush hold.
use mini_siem_project.Prelude.{
  ℕ, ◌+◌, String, ◌≡◌, ◌↔◌, refl, ap, ◌∙◌, true, ◌&&◌, Option, none, some, List, [], ◌∷◌, Bool,
  count, count-append, if◌then◌else◌, Bool-cases, inl, inr, arith,
}
use mini_siem_project.Prelude.Int.{ℤ, eqb_ℤ}
use mini_siem_project.Prelude.Text.{str_eq, str_eq_iff}
use mini_siem_project.Types.Log.{Log}
use mini_siem_project.Types.Alert.{Alert}
use mini_siem_project.Alerting.Batcher.Merge.{AlertDedupKey, key_eq, alert_dedup_key, merge_alert}
use mini_siem_project.Alerting.Batcher.Flush.{AlertMap, TenantMap, merge_in, group_in, group_all}

eqb_ℤ_iff : (a b : ℤ) → (eqb_ℤ a b ≡ true) ↔ (a ≡ b)
eqb_ℤ_iff a b = (λ h. ground arith, λ h. ground arith)

pub key_eq_iff : (a b : AlertDedupKey) → (key_eq a b ≡ true) ↔ (a ≡ b)
unfolding key_eq
key_eq_iff a b = (
  λ h. ground (
    arith,
    str_eq_iff a.tenant_id b.tenant_id,
    str_eq_iff a.rule_id b.rule_id,
    str_eq_iff a.entity b.entity,
    eqb_ℤ_iff a.window_bucket b.window_bucket,
  ),
  λ h. ground (
    arith,
    str_eq_iff a.tenant_id b.tenant_id,
    str_eq_iff a.rule_id b.rule_id,
    str_eq_iff a.entity b.entity,
    eqb_ℤ_iff a.window_bucket b.window_bucket,
  ),
)

-- The alert of a key in a map, and in the map of a tenant.
unfoldable pub find : AlertDedupKey → AlertMap → Option Alert
find k [] = none
find k ((j, a) ∷ m) = if key_eq j k then some a else find k m

pub find_group : String → AlertDedupKey → TenantMap → Option Alert
find_group t k [] = none
find_group t k ((u, m) ∷ rest) = if str_eq u t then find k m else find_group t k rest

-- One more alert of a key.
abbrev pub absorb : Option Alert → Alert → Alert
absorb none a = a
absorb (some e) a = merge_alert e a

find-merge_in :
    (k j : AlertDedupKey) (a : Alert) (m : AlertMap)
    → find k (merge_in j a m) ≡ (if key_eq j k then some (absorb (find j m) a) else find k m)
unfolding find merge_in
find-merge_in k j a [] = refl
find-merge_in k j a ((i, b) ∷ m) =
    ground (arith, key_eq_iff i j, key_eq_iff i k, key_eq_iff j k, find-merge_in k j a m)

find_group-group_in :
    (t u : String) (k j : AlertDedupKey) (a : Alert) (maps : TenantMap)
    → find_group t k (group_in u j a maps) ≡ (
        if str_eq u t && key_eq j k
        then some (absorb (find_group u j maps) a)
        else find_group t k maps)
unfolding find_group group_in find
find_group-group_in t u k j a [] = ground (arith, find-merge_in k j a [])
find_group-group_in t u k j a ((w, m) ∷ rest) = ground (
  arith,
  str_eq_iff w u,
  str_eq_iff w t,
  str_eq_iff u t,
  find-merge_in k j a m,
  find_group-group_in t u k j a rest,
)

-- The alerts of a tenant and a key, merged in the order in which they came.
pub merged : (List ℕ → ℕ) → String → AlertDedupKey → List Alert → Option Alert → Option Alert
merged hash t k [] acc = acc
merged hash t k (a ∷ as') acc =
    merged hash t k as' (
      if str_eq a.tenant_id t && key_eq (alert_dedup_key hash a) k
      then some (absorb acc a)
      else acc)

group_all_from :
    (hash : List ℕ → ℕ) (alerts : List Alert) (maps : TenantMap) (t : String) (k : AlertDedupKey)
    → find_group t k (group_all hash alerts maps) ≡ merged hash t k alerts (find_group t k maps)
unfolding group_all merged
group_all_from hash [] maps t k = refl
group_all_from hash (a ∷ as') maps t k =
    group_all_from hash as' (group_in a.tenant_id (alert_dedup_key hash a) a maps) t k
    ∙ ap (merged hash t k as') (
        ground (
          arith,
          str_eq_iff a.tenant_id t,
          key_eq_iff (alert_dedup_key hash a) k,
          find_group-group_in t a.tenant_id k (alert_dedup_key hash a) a maps,
        ))

-- The maps of a flush hold, for each tenant and key, exactly the alerts of the buffer with that
-- tenant and key, merged in the order in which they came, and nothing where there is none.
pub find_group-group_all :
    (hash : List ℕ → ℕ) (alerts : List Alert) (t : String) (k : AlertDedupKey)
    → find_group t k (group_all hash alerts []) ≡ merged hash t k alerts none
unfolding find_group
find_group-group_all hash alerts t k = group_all_from hash alerts [] t k

-- How many of the events in a map, in the maps of the tenants and in a list of alerts pass a test.
unfoldable pub events_in : (Log → Bool) → AlertMap → ℕ
events_in p [] = 0
events_in p ((k, a) ∷ m) = count p a.events + events_in p m

pub events_in_all : (Log → Bool) → TenantMap → ℕ
events_in_all p [] = 0
events_in_all p ((t, m) ∷ rest) = events_in p m + events_in_all p rest

unfoldable pub events_of : (Log → Bool) → List Alert → ℕ
events_of p [] = 0
events_of p (a ∷ as') = count p a.events + events_of p as'

module _ (p : Log → Bool) where
  count-merge_alert :
      (e a : Alert) → count p (merge_alert e a).events ≡ count p e.events + count p a.events
  unfolding merge_alert
  count-merge_alert e a = count-append p e.events a.events

  events-merge_in :
      (k : AlertDedupKey) (a : Alert) (m : AlertMap)
      → events_in p (merge_in k a m) ≡ count p a.events + events_in p m
  unfolding events_in merge_in
  events-merge_in k a [] = refl
  events-merge_in k a ((j, b) ∷ m) = elim (Bool-cases (key_eq j k)) [
    | inl e ↦ rw e (omega (arith, count-merge_alert b a))
    | inr e ↦ rw e (omega (arith, events-merge_in k a m))
  ]

  events_in-nil : events_in p [] ≡ 0
  unfolding events_in
  events_in-nil = refl

  events-group_in :
      (t : String) (k : AlertDedupKey) (a : Alert) (maps : TenantMap)
      → events_in_all p (group_in t k a maps) ≡ count p a.events + events_in_all p maps
  unfolding events_in_all group_in
  events-group_in t k a [] = omega (arith, events-merge_in k a [], events_in-nil)
  events-group_in t k a ((u, m) ∷ rest) = elim (Bool-cases (str_eq u t)) [
    | inl e ↦ rw e (omega (arith, events-merge_in k a m))
    | inr e ↦ rw e (omega (arith, events-group_in t k a rest))
  ]

  events-group_all_from :
      (hash : List ℕ → ℕ) (alerts : List Alert) (maps : TenantMap)
      → events_in_all p (group_all hash alerts maps) ≡ events_of p alerts + events_in_all p maps
  unfolding group_all events_of
  events-group_all_from hash [] maps = omega arith
  events-group_all_from hash (a ∷ as') maps = omega (
    arith,
    events-group_all_from hash as' (group_in a.tenant_id (alert_dedup_key hash a) a maps),
    events-group_in a.tenant_id (alert_dedup_key hash a) a maps,
  )

  -- No event of the buffer is lost, made up or doubled by the grouping and the merging: of each kind
  -- of event, given by any test, the maps hold as many as the buffer does.
  pub events-group_all :
      (hash : List ℕ → ℕ) (alerts : List Alert)
      → events_in_all p (group_all hash alerts []) ≡ events_of p alerts
  unfolding events_in_all
  events-group_all hash alerts = omega (arith, events-group_all_from hash alerts [])
