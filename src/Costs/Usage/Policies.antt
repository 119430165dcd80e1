-- ===== src/Costs/Usage/Policies.antt =====
-- The policies in the cache and in the database.
use mini_siem_project.Prelude.{String, ◌≡◌, refl, ◌∙◌, none, some}
use mini_siem_project.Prelude.Text.{str_eq_refl}
use mini_siem_project.Prelude.Eff.{ok}
use mini_siem_project.Detection.Cache.Reliable.{View, TextCommands}
use mini_siem_project.Costs.Policy.{TenantDataCostPolicy}
use mini_siem_project.Costs.Keys.{policy_cache_key}
use mini_siem_project.Costs.Usage.{
  CostStore, PolicyCodec, decode_cached, load_tenant_cost_policy, save_tenant_cost_policy,
}

module _ {S : Type 0} (store : CostStore S) (v : View S) (texts : TextCommands store.cache v)
    (codec : PolicyCodec) where
  load_cached :
      (t raw : String) (policy : TenantDataCostPolicy) (s : S)
      → v.text s (policy_cache_key t) ≡ some raw
      → codec.decode raw ≡ some policy
      → load_tenant_cost_policy store codec t s ≡ (ok policy, s)
  unfolding load_tenant_cost_policy
  load_cached t raw policy s stored readable =
      rw (texts.get_ok (policy_cache_key t) s, stored, readable) refl

  set_then_text :
      (t raw : String) (s : S)
      → v.text (store.cache.set_string (policy_cache_key t) raw (some 900) s).1 (policy_cache_key t)
        ≡ some raw
  set_then_text t raw s =
      texts.set_text (policy_cache_key t) raw (some 900) s (policy_cache_key t)
      ∙ rw (str_eq_refl (policy_cache_key t)) refl

  load_missed :
      (tenant : String) (policy : TenantDataCostPolicy) (s t : S)
      → decode_cached codec (v.text s (policy_cache_key tenant)) ≡ none
      → store.get_tenant_data_cost_policy tenant s ≡ (ok policy, t)
      → load_tenant_cost_policy store codec tenant s ≡ (
        ok policy,
        (store.cache.set_string (policy_cache_key tenant) (codec.encode policy) (some 900) t).1,
      )
  unfolding load_tenant_cost_policy
  load_missed tenant policy s t missed found =
      rw (texts.get_ok (policy_cache_key tenant) s, missed, found) refl

  -- A policy that was saved is what the next load answers with, as the database stored it, whatever
  -- the cache held before; the load changes nothing. The codec reads back what it writes of it.
  pub load-save :
      (policy saved : TenantDataCostPolicy) (s t : S)
      → store.upsert_tenant_data_cost_policy policy s ≡ (ok saved, t)
      → codec.decode (codec.encode saved) ≡ some saved
      → ((save_tenant_cost_policy store codec policy s).0 ≡ ok saved)
        × (load_tenant_cost_policy store codec saved.tenant_id
              (save_tenant_cost_policy store codec policy s).1
            ≡ (ok saved, (save_tenant_cost_policy store codec policy s).1))
  unfolding save_tenant_cost_policy
  load-save policy saved s t stored readable = rw stored (
    refl,
    load_cached saved.tenant_id (codec.encode saved) saved _
        (set_then_text saved.tenant_id (codec.encode saved) t) readable,
  )

  -- Where the cache has no readable policy and the database has one that the codec reads back, a load
  -- answers with the one of the database, and the next load answers with the same one from the cache
  -- and changes nothing.
  pub load-load :
      (tenant : String) (policy : TenantDataCostPolicy) (s t : S)
      → decode_cached codec (v.text s (policy_cache_key tenant)) ≡ none
      → store.get_tenant_data_cost_policy tenant s ≡ (ok policy, t)
      → codec.decode (codec.encode policy) ≡ some policy
      → ((load_tenant_cost_policy store codec tenant s).0 ≡ ok policy)
        × (load_tenant_cost_policy store codec tenant
              (load_tenant_cost_policy store codec tenant s).1
            ≡ (ok policy, (load_tenant_cost_policy store codec tenant s).1))
  load-load tenant policy s t missed found readable =
      rw (load_missed tenant policy s t missed found) (
        refl,
        load_cached tenant (codec.encode policy) policy _
            (set_then_text tenant (codec.encode policy) t) readable,
      )
