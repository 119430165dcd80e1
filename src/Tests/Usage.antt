-- ===== src/Tests/Usage.antt =====
-- The recording of decisions and the policies at concrete inputs, over the cache in memory.
use mini_siem_project.Prelude.{◌+◌, ◌≡◌, refl, true, false, some, [], ◌∷◌, if◌then◌else◌, arith}
use mini_siem_project.Prelude.Text.{str_eq}
use mini_siem_project.Prelude.Eff.{ok}
use mini_siem_project.Costs.Policy.{TenantDataCostPolicy, CostDecision, default_for_tenant}
use mini_siem_project.Costs.Keys.{usage_key}
use mini_siem_project.Costs.Usage.{
  CostStore, PolicyCodec, load_tenant_cost_policy, save_tenant_cost_policy,
}
use mini_siem_project.Costs.Usage.Amounts.{Counted}
use mini_siem_project.Costs.Usage.Laws.{Accounts, sum_of, record_all, record_all-Counted}
use mini_siem_project.Costs.Usage.Policies.{load-save}
use mini_siem_project.Tests.Memory.{Memory, memory, memory_view, memory_texts, empty_memory}
use mini_siem_project.Tests.Samples.{plain, call}

abbrev policy : TenantDataCostPolicy
policy = default_for_tenant call "acme"

abbrev pub store : CostStore Memory
store = record {
  cache = memory;
  incr_by = λ k n e s.
      (ok (s.counts k + n), record s { counts = λ j. (if str_eq k j then n else 0) + s.counts j });
  zincrby = λ k member n s. (ok n, s);
  get_tenant_data_cost_policy = λ t s. (ok (default_for_tenant call t), s);
  upsert_tenant_data_cost_policy = λ p s. (ok p, s);
}

store_accounts : Accounts store (λ s k. s.counts k)
store_accounts = record {
  incr_by_count = λ k n e s j. refl;
  increment_count = λ k e s j. ground arith;
  rank_count = λ k member n s j. refl;
}

abbrev decision : CostDecision
decision = record {
  action = "dropped";
  keep = false;
  sampled = false;
  dropped = true;
  sample_rate_percent = 0;
  reason = "schema rule matched severity ==";
  estimated_bytes = 120;
  source_key = "10.0.0.7";
  integration_key = "sshd";
  team_key = "unassigned";
}

-- The bytes of two dropped logs count.
record_all-Counted_example :
    (record_all store
        (λ s k. s.counts k)
        store_accounts
        plain
        "2026-01-02"
        "acme"
        (decision ∷ decision ∷ [])
        empty_memory).counts
      (usage_key "2026-01-02" "acme" "bytes")
    ≡ sum_of (decision ∷ decision ∷ []) "bytes" + 0
record_all-Counted_example =
    record_all-Counted store (λ s k. s.counts k) store_accounts plain "2026-01-02" "acme"
      Counted.bytes (decision ∷ decision ∷ []) empty_memory

-- A codec of this one policy.
abbrev one_policy : PolicyCodec
one_policy = record { encode = λ p. p.tenant_id; decode = λ s. some (default_for_tenant call s) }

load-save_example :
    ((save_tenant_cost_policy store one_policy policy empty_memory).0 ≡ ok policy)
    × (load_tenant_cost_policy store one_policy "acme"
          (save_tenant_cost_policy store one_policy policy empty_memory).1
        ≡ (ok policy, (save_tenant_cost_policy store one_policy policy empty_memory).1))
load-save_example =
    load-save store memory_view memory_texts one_policy policy policy empty_memory empty_memory refl
      refl
