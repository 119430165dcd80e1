-- ===== src/Tests/Samples.antt =====
-- Concrete inputs: plain functions in the place of what the program does not implement, and logs,
-- rules and alerts.
use Prim.Native.Nat.{Ordering, compare, max}
use Prim.Native.String.{len}
use mini_siem_project.Prelude.{leb, ℕ, String, true, none, some, [], ◌∷◌, ◌==◌}
use mini_siem_project.Prelude.Int.{pos}
use mini_siem_project.Prelude.Text.{contains}
use mini_siem_project.Types.Json.{null, string}
use mini_siem_project.Types.Log.{Log, Call, info}
use mini_siem_project.Types.External.{External}
use mini_siem_project.Types.Alert.{Alert, high, new_alert}
use mini_siem_project.Detection.Evaluator.{
  RuleCondition, all_of, any_of, not_of, on_field, nil, cons,
}
use mini_siem_project.Detection.Rules.BruteForce.{BruteForceRule}
use mini_siem_project.Detection.Rules.Malware.{MalwareDetectionRule}
use mini_siem_project.Detection.Rules.Correlation.State.{
  CorrelationRule, CorrelationStage, CorrelationEvictionPolicy, reset_state,
}
use mini_siem_project.Detection.Rules.Correlation.Evaluate.{Codec}
use mini_siem_project.Detection.Engine.Index.{DetectionRule, Parsers}

-- Floats are compared by their bits, and a text's hash is its length.
abbrev pub plain : External
plain = record {
  to_uppercase = λ s. s;
  to_lowercase = λ s. s;
  f64_of_u64 = λ n. n;
  f64_of_neg = λ n. 0;
  f64_eq = λ a b. a == b;
  f64_cmp = λ a b. some (compare a b);
  f64_div = λ a b. a;
  f64_max = λ a b. max a b;
  f64_ge = λ a b. leb b a;
  show_f64_2 = λ a. "0.00";
  ssh_accepted = λ s. none;
  ssh_failed = λ s. some (record { user = some "root"; ip = some "10.0.0.7"; port = none });
  parse_u16 = λ s. none;
  find_iocs = λ l. [];
  is_complex_match = λ s. contains s "powershell";
  set_order = λ l. l;
  hash64 = λ s. len s;
  str_cmp = λ s t. Ordering.eq;
}

abbrev pub call : Call
call = record { now = pos 5_000_000_000; fresh_id = 1 }

-- A log of a tenant, from an address, with a type and a message.
abbrev pub log_of : String → String → String → String → Log
log_of tenant ip event_type message = record {
  id = 7;
  tenant_id = tenant;
  timestamp = pos 4_000_000_000;
  event_type = event_type;
  source_ip = ip;
  target_user = none;
  service = some "sshd";
  message = message;
  severity = info;
  metadata = null;
  received_at = pos 4_000_000_000;
}

abbrev pub failed_login : Log
failed_login = log_of "acme" "10.0.0.7" "login_failed" "Failed password for root"

abbrev pub is_login : RuleCondition
is_login = on_field "event_type" "eq" (string "login_failed")

abbrev pub mixed_condition : RuleCondition
mixed_condition =
    all_of (cons is_login (cons (any_of (cons (not_of is_login) (cons is_login nil))) nil))

abbrev pub brute_rule : BruteForceRule
brute_rule = record {
  tenant_id = "acme";
  name = "Brute force";
  id = "r1";
  threshold = 2;
  window_seconds = pos 300;
}

abbrev pub malware_rule : MalwareDetectionRule
malware_rule = record { tenant_id = "acme"; id = "r2"; name = "Malware" }

abbrev pub malware_row : DetectionRule
malware_row = record {
  id = "r2";
  tenant_id = "acme";
  name = "Malware";
  description = none;
  rule_type = "malware";
  severity = "HIGH";
  threshold = none;
  window_seconds = none;
  condition = none;
  is_enabled = true;
  created_at = pos 0;
  updated_at = pos 0;
}

abbrev pub no_parsers : Parsers
no_parsers = record { parse_condition = λ v. none; parse_definition = λ v. none }

abbrev pub stage_of : ℕ → CorrelationStage
stage_of n = record { name = "failed logins"; condition = is_login; min_count = n }

-- A correlation rule by source address, with a cap on its groups.
abbrev pub correlation_of : CorrelationEvictionPolicy → ℕ → CorrelationRule
correlation_of policy groups = record {
  tenant_id = "acme";
  id = "c1";
  name = "Logins";
  severity = high;
  definition = record {
    window_seconds = 60;
    version = 1;
    max_active_groups = groups;
    watermark_lateness_seconds = pos 30;
    state_ttl_seconds = 900;
    eviction_policy = policy;
    group_by = "source_ip" ∷ [];
    stages = stage_of 2 ∷ stage_of 1 ∷ [];
  };
}

-- A group is written as its key, and read as a group that begins at the fourth second.
abbrev pub by_key : Codec
by_key = record { encode = λ st. st.group_key; decode = λ s. some (reset_state s (pos 4)) }

abbrev pub alert_of : String → String → Alert
alert_of tenant description =
    new_alert call tenant "r1" "Brute force" high description "10.0.0.7" (failed_login ∷ [])
