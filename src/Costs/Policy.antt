-- ===== src/Costs/Policy.antt =====
-- The tenant's policy, the request and the decision (backend/src/db/models/data_cost.rs and
-- backend/src/api/handlers/logs.rs).
use mini_siem_project.Prelude.{ℕ, String, Bool, true, Option}
use mini_siem_project.Prelude.Int.{ℤ, pos}
use mini_siem_project.Types.Json.{Value, string, array, object, nil, cons, end, field}
use mini_siem_project.Types.Log.{LogSeverity, Call}

pub record TenantDataCostPolicy : Type 0 where
  pub tenant_id : String
  pub daily_ingest_bytes_budget : ℤ
  pub hot_storage_bytes_budget : ℤ
  pub warm_storage_bytes_budget : ℤ
  pub cold_storage_bytes_budget : ℤ
  pub sampling_enabled : Bool
  pub low_value_sampling_percent : ℤ
  pub high_value_sampling_percent : ℤ
  pub drop_low_value_when_over_budget : Bool
  pub schema_drop_rules : Value
  pub source_budgets : Value
  pub integration_budgets : Value
  pub team_budgets : Value
  pub updated_at : ℤ

-- An object in key order.
abbrev drop_rule : String → String → Value → Value
drop_rule f op v = object (field "field" (string f) (field "op" (string op) (field "value" v end)))

abbrev pub default_for_tenant : Call → String → TenantDataCostPolicy
default_for_tenant c tenant_id = record {
  tenant_id = tenant_id;
  daily_ingest_bytes_budget = pos 25_000_000_000;
  hot_storage_bytes_budget = pos 10_000_000_000;
  warm_storage_bytes_budget = pos 10_000_000_000;
  cold_storage_bytes_budget = pos 5_000_000_000;
  sampling_enabled = true;
  low_value_sampling_percent = pos 25;
  high_value_sampling_percent = pos 100;
  drop_low_value_when_over_budget = true;
  schema_drop_rules = array (
      cons
        (drop_rule "event_type" "in"
          (array (cons (string "heartbeat") (cons (string "metrics") (cons (string "debug") nil)))))
        (cons (drop_rule "severity" "==" (string "DEBUG"))
          (cons (drop_rule "message" "contains" (string "health check")) nil)));
  source_budgets = object end;
  integration_budgets = object end;
  team_budgets = object end;
  updated_at = c.now;
}

pub record IngestLogRequest : Type 0 where
  pub event_type : String
  pub source_ip : String
  pub target_user : Option String
  pub service : Option String
  pub message : String
  pub severity : Option LogSeverity
  pub timestamp : Option ℤ
  pub metadata : Option Value

pub record CostDecision : Type 0 where
  pub action : String
  pub keep : Bool
  pub sampled : Bool
  pub dropped : Bool
  pub sample_rate_percent : ℕ
  pub reason : String
  pub estimated_bytes : ℕ
  pub source_key : String
  pub integration_key : String
  pub team_key : String
