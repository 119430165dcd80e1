-- ===== src/Packs.antt =====
-- Packs of detection rules (backend/src/api/handlers/packs.rs): their data, and what is installed of
-- a pack.
pub mod Curated
pub mod Loaded
use mini_siem_project.Prelude.{
  ℕ, ◌+◌, ◌==◌, Bool, any, length, String, Option, none, some, List, [], ◌∷◌, map, if◌then◌else◌,
}
use mini_siem_project.Prelude.Int.{ℤ}
use mini_siem_project.Prelude.Text.{str_eq}
use mini_siem_project.Types.Json.{Value}
use mini_siem_project.Detection.Engine.Index.{DetectionRule}

pub record PackRuleTemplate : Type 0 where
  pub name : String
  pub description : String
  pub rule_type : String
  pub severity : String
  pub threshold : Option ℤ
  pub window_seconds : Option ℤ
  pub condition : Value
  pub validated : Bool

pub record PackPlaybookStep : Type 0 where
  pub title : String
  pub action_type : String
  pub owner_role : String
  pub automated : Bool
  pub description : String

pub record PackTemplate : Type 0 where
  pub slug : String
  pub vertical : String
  pub name : String
  pub description : String
  pub enrichment : Value
  pub playbook : List PackPlaybookStep
  pub rules : List PackRuleTemplate

pub record PackRuleResponse : Type 0 where
  pub name : String
  pub description : String
  pub rule_type : String
  pub severity : String
  pub threshold : Option ℤ
  pub window_seconds : Option ℤ
  pub condition : Value
  pub validated : Bool
  pub installed_rule_id : Option String

pub record DetectionPackResponse : Type 0 where
  pub slug : String
  pub vertical : String
  pub name : String
  pub description : String
  pub enrichment : Value
  pub playbook : List PackPlaybookStep
  pub rules : List PackRuleResponse
  pub installed : Bool
  pub installed_rule_count : ℕ
  pub total_rule_count : ℕ

-- `iter().find` by the name.
unfoldable pub installed_rule : String → List DetectionRule → Option DetectionRule
installed_rule name [] = none
installed_rule name (rule ∷ rules) =
    let rest = installed_rule name rules in if str_eq rule.name name then some rule else rest

abbrev id_of : Option DetectionRule → Option String
id_of none = none
id_of (some rule) = some rule.id

unfoldable pub rule_response : List DetectionRule → PackRuleTemplate → PackRuleResponse
unfolding installed_rule
rule_response installed_rules template = record {
  name = template.name;
  description = template.description;
  rule_type = template.rule_type;
  severity = template.severity;
  threshold = template.threshold;
  window_seconds = template.window_seconds;
  condition = template.condition;
  validated = template.validated;
  installed_rule_id = id_of (installed_rule template.name installed_rules);
}

abbrev one_if_some : Option DetectionRule → ℕ
one_if_some none = 0
one_if_some (some rule) = 1

unfoldable pub count_installed : List DetectionRule → List PackRuleTemplate → ℕ
unfolding installed_rule
count_installed installed_rules [] = 0
count_installed installed_rules (template ∷ templates) =
    one_if_some (installed_rule template.name installed_rules)
    + count_installed installed_rules templates

unfoldable pub pack_summary : PackTemplate → List DetectionRule → DetectionPackResponse
unfolding rule_response count_installed
pack_summary pack installed_rules = record {
  slug = pack.slug;
  vertical = pack.vertical;
  name = pack.name;
  description = pack.description;
  enrichment = pack.enrichment;
  playbook = pack.playbook;
  rules = map (rule_response installed_rules) pack.rules;
  installed = count_installed installed_rules pack.rules == length pack.rules;
  installed_rule_count = count_installed installed_rules pack.rules;
  total_rule_count = length pack.rules;
}
