-- ===== src/Detection/Engine/Index.antt =====
-- Rules of the database into the index by tag (`reload_rules`), and the rules that a log is checked
-- against (the first half of `process_log`).
pub mod Laws
use mini_siem_project.Prelude.{
  ℕ, ◌-◌, ◌%◌, ◌^◌, ◌+◌, String, Bool, ◌||◌, Option, none, some, List, [], ◌∷◌, ◌++◌, length, any,
  retain, is_empty, unwrap_or, if◌then◌else◌,
}
use mini_siem_project.Prelude.Int.{ℤ, pos, negsuc}
use mini_siem_project.Prelude.Text.{str_eq, contains}
use mini_siem_project.Prelude.Eff.{Result, ok, err}
use mini_siem_project.Types.Json.{Value}
use mini_siem_project.Types.Log.{Log, is_failed_login}
use mini_siem_project.Types.Tag.{LogTag, auth, network, malware, tag_eq}
use mini_siem_project.Types.External.{External}
use mini_siem_project.Detection.Evaluator.{RuleCondition}
use mini_siem_project.Detection.Rules.Generic.{new_generic}
use mini_siem_project.Detection.Rules.Correlation.State.{CorrelationDefinition, new_correlation}
use mini_siem_project.Detection.CompiledRule.{CompiledRule, log_types, tenant_id}
use mini_siem_project.Detection.CompiledRule

-- A row of the table of rules (backend/src/db/models/rule.rs).
pub record DetectionRule : Type 0 where
  pub id : String
  pub tenant_id : String
  pub name : String
  pub description : Option String
  pub rule_type : String
  pub severity : String
  pub threshold : Option ℤ
  pub window_seconds : Option ℤ
  pub condition : Option Value
  pub is_enabled : Bool
  pub created_at : ℤ
  pub updated_at : ℤ

-- `serde_json::from_value` at the two types of conditions.
pub record Parsers : Type 0 where
  pub parse_condition : Value → Option RuleCondition
  pub parse_definition : Value → Option CorrelationDefinition

-- `x as u32` of an `i32`
abbrev i32_as_u32 : ℤ → ℕ
i32_as_u32 (pos n) = n
i32_as_u32 (negsuc n) = 2 ^ 32 - n - 1

abbrev option_map {ℓ κ} : {A : Type ℓ} {B : Type κ} → (A → B) → Option A → Option B
option_map f none = none
option_map f (some a) = some (f a)

abbrev option_bind {ℓ κ} : {A : Type ℓ} {B : Type κ} → Option A → (A → Option B) → Option B
option_bind none f = none
option_bind (some a) f = f a

-- The rule of a row; a row of an unknown type, or whose condition is absent or cannot be read, is
-- skipped.
unfoldable pub compile : External → Parsers → DetectionRule → Option CompiledRule
compile x p d =
    if str_eq d.rule_type "brute_force"
    then some (
        CompiledRule.brute_force (record {
          tenant_id = d.tenant_id;
          name = d.name;
          id = d.id;
          threshold = i32_as_u32 (unwrap_or (pos 5) d.threshold);
          window_seconds = unwrap_or (pos 300) d.window_seconds;
        }))
    else if str_eq d.rule_type "port_scan"
    then some (
        CompiledRule.port_scan (record {
          tenant_id = d.tenant_id;
          id = d.id;
          name = d.name;
          port_threshold = i32_as_u32 (unwrap_or (pos 20) d.threshold);
          window_seconds = unwrap_or (pos 60) d.window_seconds;
        }))
    else if str_eq d.rule_type "malware"
    then some (CompiledRule.malware (record { tenant_id = d.tenant_id; id = d.id; name = d.name }))
    else if str_eq d.rule_type "generic"
    then option_map (λ c. CompiledRule.generic (new_generic x d.tenant_id d.id d.name d.severity c))
        (option_bind d.condition p.parse_condition)
    else if str_eq d.rule_type "correlation"
    then option_map
        (λ c. CompiledRule.correlation (new_correlation x d.tenant_id d.id d.name d.severity c))
        (option_bind d.condition p.parse_definition)
    else none

-- The index: the rules of a tag, none for a tag that is no key of the map.
abbrev pub RuleIndex : Type 0
RuleIndex = LogTag → List CompiledRule

abbrev pub empty_index : RuleIndex
empty_index t = []

-- `new_rules.entry(tag).or_default().push(rule)`
abbrev push_rule : CompiledRule → LogTag → RuleIndex → RuleIndex
push_rule r tag index t = if tag_eq tag t then index t ++ r ∷ [] else index t

abbrev push_all : CompiledRule → List LogTag → RuleIndex → RuleIndex
push_all r [] index = index
push_all r (tag ∷ tags) index = push_all r tags (push_rule r tag index)

abbrev add_row : External → Parsers → Option CompiledRule → RuleIndex → RuleIndex
add_row x p none index = index
add_row x p (some r) index = push_all r (log_types r) index

unfoldable pub load_rows : External → Parsers → List DetectionRule → RuleIndex → RuleIndex
load_rows x p [] index = index
load_rows x p (d ∷ ds) index = load_rows x p ds (add_row x p (compile x p d) index)

-- The index that a reload stores.
unfoldable pub reload_rules : External → Parsers → List DetectionRule → RuleIndex
unfolding load_rows
reload_rules x p rows = load_rows x p rows empty_index

-- A reload: if the database answers the new index is stored, and else the old one stays.
abbrev pub reload :
    External → Parsers → Result (List DetectionRule) → RuleIndex → Result (Unit {0}) × RuleIndex
reload x p (err e) old = (err e, old)
reload x p (ok rows) old = (ok tt, reload_rules x p rows)

-- The tags that are inferred from a log.
unfoldable pub infer_tags : Log → List LogTag
infer_tags log =
    (if is_failed_login log || (contains log.event_type "auth" || contains log.event_type "login")
      then auth ∷ []
      else [])
    ++ ((if contains log.event_type "network"
            || (contains log.event_type "port" || contains (unwrap_or "" log.service) "ssh")
          then network ∷ []
          else [])
        ++ (if contains log.message "http"
              || (contains log.message "."
                  || (contains log.message "powershell" || contains log.message "wget"))
            then malware ∷ []
            else []))

abbrev collect : RuleIndex → List LogTag → List CompiledRule
collect index [] = []
collect index (t ∷ ts) = index t ++ collect index ts

-- With no rule under the log's tags, those of the tag `malware` serve.
abbrev fall_back : RuleIndex → List CompiledRule → List CompiledRule
fall_back index [] = index malware
fall_back index (r ∷ rs) = r ∷ rs

unfoldable pub candidates : RuleIndex → Log → List CompiledRule
candidates index log =
    retain (λ r. str_eq (tenant_id r) log.tenant_id)
      (fall_back index (collect index (infer_tags log)))
