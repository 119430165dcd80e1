-- ===== src/Costs/Usage.antt =====
-- What is recorded of a decision, and where a tenant's policy comes from (backend/src/costs.rs).
-- The names of the counters are taken on one day; the code reads the clock for each of them.
pub mod Distinct
pub mod Amounts
pub mod Laws
pub mod Policies
use mini_siem_project.Prelude.{
  ℕ, String, Bool, true, false, Option, none, some, List, [], ◌∷◌, ◌++◌,
}
use mini_siem_project.Prelude.Eff.{Result, ok, err, Eff, pure, ◌>>=◌, ignore_then}
use mini_siem_project.Types.External.{External}
use mini_siem_project.Detection.Cache.{Cache}
use mini_siem_project.Costs.Policy.{TenantDataCostPolicy, CostDecision}
use mini_siem_project.Costs.Keys.{usage_key, dimension_key, rank_key, policy_cache_key}

-- What the controller calls beside the cache's interface: INCRBY, ZINCRBY and the policies of the
-- database.
pub record CostStore (S : Type 0) : Type 0 where
  pub cache : Cache S
  pub incr_by : String → ℕ → ℕ → Eff S ℕ
  pub zincrby : String → String → ℕ → Eff S ℕ
  pub get_tenant_data_cost_policy : String → Eff S TenantDataCostPolicy
  pub upsert_tenant_data_cost_policy : TenantDataCostPolicy → Eff S TenantDataCostPolicy

-- `serde_json` at a policy
pub record PolicyCodec : Type 0 where
  pub encode : TenantDataCostPolicy → String
  pub decode : String → Option TenantDataCostPolicy

-- One call of the store whose outcome is dropped: INCRBY, an increment by one, or a rank.
pub data Write : Type 0 where
  add : String → ℕ → Write
  one : String → Write
  rank : String → String → ℕ → Write

-- The bytes and the log itself, at one source, integration or team.
abbrev pub dimension_writes : String → String → String → String → ℕ → List Write
dimension_writes day t dimension key bytes =
    add (dimension_key day t dimension key "bytes") bytes
    ∷ one (dimension_key day t dimension key "logs")
    ∷ []

-- One more at the tenant and at each dimension, if the decision is of that kind.
abbrev pub kind_writes : String → String → CostDecision → String → Bool → List Write
kind_writes day t d what false = []
kind_writes day t d what true =
    one (usage_key day t what)
    ∷ one (dimension_key day t "source" d.source_key what)
    ∷ one (dimension_key day t "integration" d.integration_key what)
    ∷ one (dimension_key day t "team" d.team_key what)
    ∷ []

abbrev pub rank_writes : External → String → String → CostDecision → List Write
rank_writes x day t d =
    rank (rank_key day t "source") d.source_key (x.f64_of_u64 d.estimated_bytes)
    ∷ rank (rank_key day t "integration") d.integration_key (x.f64_of_u64 d.estimated_bytes)
    ∷ rank (rank_key day t "team") d.team_key (x.f64_of_u64 d.estimated_bytes)
    ∷ []

unfoldable pub usage_writes : External → String → String → CostDecision → List Write
usage_writes x day t d =
    add (usage_key day t "bytes") d.estimated_bytes
      ∷ one (usage_key day t "logs")
      ∷ dimension_writes day t "source" d.source_key d.estimated_bytes
    ++ dimension_writes day t "integration" d.integration_key d.estimated_bytes
    ++ dimension_writes day t "team" d.team_key d.estimated_bytes
    ++ rank_writes x day t d
    ++ kind_writes day t d "sampled" d.sampled
    ++ kind_writes day t d "dropped" d.dropped

abbrev pub decode_cached : PolicyCodec → Option String → Option TenantDataCostPolicy
decode_cached codec none = none
decode_cached codec (some raw) = codec.decode raw

module _ {S : Type 0} (store : CostStore S) where
  abbrev pub run_write : Write → S → S
  run_write (add k n) s = (store.incr_by k n 86_400 s).1
  run_write (one k) s = (store.cache.increment_counter k 86_400 s).1
  run_write (rank k member n) s = (store.zincrby k member n s).1

  unfoldable pub run_writes : List Write → S → S
  run_writes [] s = s
  run_writes (w ∷ ws) s = run_writes ws (run_write w s)

  -- Every call's error is dropped, so the function always ends well.
  unfoldable pub record_cost_usage : External → String → String → CostDecision → Eff S (Unit {0})
  record_cost_usage x day t d s = (ok tt, run_writes (usage_writes x day t d) s)

  -- The cached policy, where it can be read; else that of the database, which is then cached.
  abbrev pub refill :
      PolicyCodec → String → Option TenantDataCostPolicy → Eff S TenantDataCostPolicy
  refill codec t (some policy) = pure policy
  refill codec t none = do
    policy ← store.get_tenant_data_cost_policy t
    ignore_then (store.cache.set_string (policy_cache_key t) (codec.encode policy) (some 900))
        (pure policy)

  unfoldable pub load_tenant_cost_policy : PolicyCodec → String → Eff S TenantDataCostPolicy
  load_tenant_cost_policy codec t = do
    raw ← store.cache.get_string (policy_cache_key t)
    refill codec t (decode_cached codec raw)

  unfoldable pub save_tenant_cost_policy :
      PolicyCodec → TenantDataCostPolicy → Eff S TenantDataCostPolicy
  save_tenant_cost_policy codec policy = do
    saved ← store.upsert_tenant_data_cost_policy policy
    ignore_then
        (store.cache.set_string (policy_cache_key saved.tenant_id) (codec.encode saved) (some 900))
        (pure saved)
