-- ===== src/Costs/Decide.antt =====
-- The decision on one log.
use Prim.Native.Nat.{max, min}
use mini_siem_project.Prelude.{
  ℕ, ◌+◌, ◌%◌, String, Bool, true, false, ◌||◌, ◌&&◌, not, Option, none, some, ltb, unwrap_or,
  if◌then◌else◌,
}
use mini_siem_project.Prelude.Int.{ℤ, pos, negsuc}
use mini_siem_project.Prelude.Text.{◌++ₛ◌, show_nat}
use mini_siem_project.Prelude.Eff.{Eff, pure, ◌>>=◌}
use mini_siem_project.Types.Json.{Value, as_i64, get}
use mini_siem_project.Types.External.{External}
use mini_siem_project.Detection.Cache.{Cache}
use mini_siem_project.Costs.Policy.{IngestLogRequest, TenantDataCostPolicy, CostDecision}
use mini_siem_project.Costs.Keys.{usage_key, dimension_key}
use mini_siem_project.Costs.Classify.{
  classify_source, classify_integration, classify_team, estimated_cost_bytes, is_low_value_event,
  is_severe, schema_drop_reason,
}

-- `clamp(1, 100)`
abbrev pub clamp_percent : ℤ → ℕ
clamp_percent (pos n) = min (max n 1) 100
clamp_percent (negsuc n) = 1

-- What is decided: the mutable variables of the function.
pub record Verdict : Type 0 where
  pub action : String
  pub keep : Bool
  pub sampled : Bool
  pub dropped : Bool
  pub rate : ℕ
  pub reason : String

abbrev pub kept : TenantDataCostPolicy → Verdict
kept p = record {
  action = "keep";
  keep = true;
  sampled = false;
  dropped = false;
  rate = clamp_percent p.high_value_sampling_percent;
  reason = "kept";
}

abbrev pub after_schema : TenantDataCostPolicy → Bool → Option String → Verdict → Verdict
after_schema p low none v = v
after_schema p low (some why) v =
    if p.drop_low_value_when_over_budget || low
    then record {
      action = "dropped";
      keep = false;
      sampled = v.sampled;
      dropped = true;
      rate = 0;
      reason = why;
    }
    else v

abbrev pub set_rate : TenantDataCostPolicy → Bool → Bool → Bool → Verdict → Verdict
set_rate p severe low over v =
    if severe
    then record v { rate = clamp_percent p.high_value_sampling_percent }
    else if low || over
    then record v { rate = clamp_percent p.low_value_sampling_percent }
    else v

-- `bucket` is the log's place among a hundred, from 1.
abbrev pub sample : TenantDataCostPolicy → Bool → Bool → ℕ → String → Verdict → Verdict
sample p low over bucket pressure v =
    if p.sampling_enabled && (ltb v.rate bucket && (low || over))
    then record v {
      action = "sampled";
      keep = false;
      sampled = true;
      reason = "sampled at " ++ₛ show_nat v.rate ++ₛ "% due to pressure " ++ₛ pressure;
    }
    else v

abbrev pub last_reason : Verdict → Verdict
last_reason v =
    if not v.keep && (not v.sampled && not v.dropped)
    then record v { reason = "dropped by cost controller" }
    else v

unfoldable pub decide :
    TenantDataCostPolicy → Bool → Bool → Bool → Option String → ℕ → String → Verdict
decide p severe low over schema bucket pressure =
    let v = after_schema p low schema (kept p) in
    last_reason
      (if v.keep then sample p low over bucket pressure (set_rate p severe low over v) else v)

-- Bytes over budget; no pressure where there is no positive budget.
abbrev pressure_of : External → ℕ → ℕ → ℕ
pressure_of x current n = if ltb 0 n then x.f64_div (x.f64_of_u64 current) (x.f64_of_u64 n) else 0

unfoldable pub current_pressure : External → ℕ → ℤ → ℕ
current_pressure x current (pos n) = pressure_of x current n
current_pressure x current (negsuc n) = 0

-- The float 1.0
abbrev one_f64 : ℕ
one_f64 = 0x3ff0000000000000

abbrev budget_at : Value → String → ℤ → ℤ
budget_at budgets key default = elim (get budgets key) [
  | none ↦ default
  | some v ↦ unwrap_or default (as_i64 v)
]

module _ {S : Type 0} (cache : Cache S) (x : External) (print : Value → String) where
  abbrev pub counter : String → Eff S ℕ
  counter key = do n ← cache.get_counter key; pure (unwrap_or 0 n)

  abbrev decision : TenantDataCostPolicy → String → IngestLogRequest → ℕ → CostDecision
  decision policy tenant log pressure =
      let bucket =
        x.hash64
            (tenant ++ₛ ":" ++ₛ log.source_ip ++ₛ ":" ++ₛ log.event_type ++ₛ ":" ++ₛ log.message)
          % 100
        + 1 in
      let v =
        decide policy (is_severe log) (is_low_value_event x log) (x.f64_ge pressure one_f64)
          (schema_drop_reason x log policy) bucket (x.show_f64_2 pressure) in
      record {
        action = v.action;
        keep = v.keep;
        sampled = v.sampled;
        dropped = v.dropped;
        sample_rate_percent = v.rate;
        reason = v.reason;
        estimated_bytes = estimated_cost_bytes print log;
        source_key = classify_source log;
        integration_key = classify_integration log;
        team_key = classify_team log;
      }

  -- The policy is that which `load_tenant_cost_policy` answers with.
  unfoldable pub evaluate_cost_decision :
      Eff S TenantDataCostPolicy
      → String
      → String
      → IngestLogRequest
      → Eff S (TenantDataCostPolicy × CostDecision)
  evaluate_cost_decision load day tenant log = do
    policy ← load
    let source = classify_source log
    let integration = classify_integration log
    let team = classify_team log
    let daily = policy.daily_ingest_bytes_budget
    current ← counter (usage_key day tenant "bytes")
    by_source ← counter (dimension_key day tenant "source" source "bytes")
    by_integration ← counter (dimension_key day tenant "integration" integration "bytes")
    by_team ← counter (dimension_key day tenant "team" team "bytes")
    let pressure =
        x.f64_max
          (x.f64_max
            (x.f64_max (current_pressure x current daily)
              (current_pressure x by_source (budget_at policy.source_budgets source daily)))
            (current_pressure x by_integration
              (budget_at policy.integration_budgets integration daily)))
          (current_pressure x by_team (budget_at policy.team_budgets team daily))
    pure (policy, decision policy tenant log pressure)
