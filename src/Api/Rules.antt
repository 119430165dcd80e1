-- ===== src/Api/Rules.antt =====
-- The handlers of detection rules, and how a rule is changed in the database.
use mini_siem_project.Prelude.{
  ℕ, Bool, true, not, unwrap_or, String, Option, none, some, List, [], ◌∷◌,
}
use mini_siem_project.Prelude.Int.{ℤ}
use mini_siem_project.Prelude.Text.{◌++ₛ◌}
use mini_siem_project.Prelude.Eff.{ok, err, Eff, pure, fail, ◌>>=◌}
use mini_siem_project.Types.Json.{Value, string, bool, object, field, end}
use mini_siem_project.Types.Log.{Call}
use mini_siem_project.Auth.Claims.{Claims}
use mini_siem_project.Detection.Engine.Index.{DetectionRule}
use mini_siem_project.Api.Handler
use mini_siem_project.Api.Handler.{
  Handler, Response, empty_body, done, respond, with_status, with_fields, outcome_of, present, ◌>>◌,
}
use mini_siem_project.Api.Tenant.{FixedWindow, enforce_tenant_fixed_window}
use mini_siem_project.Api.Audit.{AuditLog, record_rule_audit}

pub record RuleCreate : Type 0 where
  pub tenant_id : String
  pub name : String
  pub description : Option String
  pub rule_type : String
  pub severity : String
  pub threshold : Option ℤ
  pub window_seconds : Option ℤ
  pub condition : Option Value

pub record RuleUpdate : Type 0 where
  pub name : Option String
  pub description : Option String
  pub severity : Option String
  pub threshold : Option ℤ
  pub window_seconds : Option ℤ
  pub condition : Option Value
  pub is_enabled : Option Bool

-- The columns that an update sets.
pub record RuleColumns : Type 0 where
  pub name : String
  pub description : Option String
  pub severity : String
  pub threshold : Option ℤ
  pub window_seconds : Option ℤ
  pub condition : Option Value
  pub is_enabled : Bool

-- The table of rules, the audit log, the quotas and the text of an identifier. Rules have their
-- identifiers as texts.
pub record RuleServer (S : Type 0) : Type 0 where
  pub get_all_rules : String → Eff S (List DetectionRule)
  pub insert_rule : RuleCreate → Eff S DetectionRule
  pub get_rule_by_id : String → String → Eff S (Option DetectionRule)
  pub write_rule : RuleColumns → String → String → Eff S DetectionRule
  pub delete_rule : String → String → Eff S (Unit {0})
  pub audit : AuditLog S
  pub allow_fixed_window : FixedWindow S
  pub api_requests_per_minute : ℕ
  pub rule_mutations_per_minute : ℕ

abbrev or_else : {A : Type 0} → Option A → Option A → Option A
or_else (some a) other = some a
or_else none other = other

unfoldable pub rule_columns : RuleUpdate → DetectionRule → RuleColumns
rule_columns update existing = record {
  name = unwrap_or existing.name update.name;
  description = or_else update.description existing.description;
  severity = unwrap_or existing.severity update.severity;
  threshold = or_else update.threshold existing.threshold;
  window_seconds = or_else update.window_seconds existing.window_seconds;
  condition = or_else update.condition existing.condition;
  is_enabled = unwrap_or existing.is_enabled update.is_enabled;
}

-- An update that changes nothing but whether the rule is on.
unfoldable pub toggled : DetectionRule → RuleUpdate
toggled rule = record {
  name = none;
  description = none;
  severity = none;
  threshold = none;
  window_seconds = none;
  condition = none;
  is_enabled = some (not rule.is_enabled);
}

module _ {S : Type 0} (server : RuleServer S) where
  abbrev or_missing : Option DetectionRule → Eff S DetectionRule
  or_missing none = fail "Rule not found"
  or_missing (some r) = pure r

  unfoldable pub update_rule : String → String → RuleUpdate → Eff S DetectionRule
  unfolding rule_columns
  update_rule tenant_id id update = do
    row ← server.get_rule_by_id tenant_id id
    existing ← or_missing row
    server.write_rule (rule_columns update existing) tenant_id id

  module _ {R : Type 0} where
    -- A token and the quota; no role is asked for.
    unfoldable pub quota_claims : String → ℕ → Option Claims → Handler S R Claims
    unfolding enforce_tenant_fixed_window
    quota_claims resource limit auth =
        Handler.◌>>=◌ (present (record { status = 401; body = empty_body }) auth) λ claims.
          enforce_tenant_fixed_window server.allow_fixed_window claims.tenant_id resource limit 1
          >> done claims

    -- A query whose error ends the request.
    abbrev queried : {A : Type 0} → Eff S A → Handler S R A
    queried m = Handler.◌>>=◌ (outcome_of m) λ r. elim r [
      | ok a ↦ done a
      | err e ↦ with_fields 500 (("error", "Database error: " ++ₛ e) ∷ [])
    ]

    -- An audit event whose error ends the request, after the change that it is about.
    unfoldable pub audited_rule : Call → Claims → String → String → Value → Handler S R (Unit {0})
    unfolding record_rule_audit
    audited_rule c claims action id metadata =
        Handler.◌>>=◌
          (outcome_of (record_rule_audit server.audit c claims action (some id) metadata))
          λ r. elim r [ ok u ↦ done tt | err e ↦ with_fields 500 (("error", e) ∷ []) ]

    abbrev present_rule : Option DetectionRule → Handler S R DetectionRule
    present_rule row = present (record { status = 404; body = empty_body }) row

    abbrev reading : Option Claims → Handler S R Claims
    reading auth = quota_claims "api_requests" server.api_requests_per_minute auth

    abbrev changing : Option Claims → Handler S R Claims
    changing auth = quota_claims "rule_mutations" server.rule_mutations_per_minute auth

  unfoldable pub list_rules : Option Claims → Handler S (List DetectionRule) (Unit {0})
  unfolding quota_claims
  list_rules auth = Handler.◌>>=◌ (reading auth) λ claims.
      Handler.◌>>=◌ (queried (server.get_all_rules claims.tenant_id)) λ rules. with_status 200 rules

  unfoldable pub create_rule :
      Call → Option Claims → RuleCreate → Handler S DetectionRule (Unit {0})
  unfolding quota_claims audited_rule
  create_rule c auth body = Handler.◌>>=◌ (changing auth) λ claims.
      Handler.◌>>=◌ (queried (server.insert_rule (record body { tenant_id = claims.tenant_id })))
        λ rule.
          audited_rule c claims "rule.create" rule.id (
            object (
              field "name" (string rule.name) (
                field "rule_type" (string rule.rule_type)
                  (field "severity" (string rule.severity) end))))
          >> with_status 201 rule

  unfoldable pub get_rule : Option Claims → String → Handler S DetectionRule (Unit {0})
  unfolding quota_claims
  get_rule auth id = Handler.◌>>=◌ (reading auth) λ claims.
      Handler.◌>>=◌ (queried (server.get_rule_by_id claims.tenant_id id))
        λ row. Handler.◌>>=◌ (present_rule row) λ rule. with_status 200 rule

  unfoldable pub update_rule_handler :
      Call → Option Claims → String → RuleUpdate → Handler S DetectionRule (Unit {0})
  unfolding quota_claims update_rule audited_rule
  update_rule_handler c auth id body = Handler.◌>>=◌ (changing auth) λ claims.
      Handler.◌>>=◌ (queried (update_rule claims.tenant_id id body)) λ rule.
        audited_rule c claims "rule.update" rule.id (
          object (
            field "enabled" (bool rule.is_enabled)
              (field "name" (string rule.name) (field "severity" (string rule.severity) end))))
        >> with_status 200 rule

  unfoldable pub delete_rule_handler :
      Call → Option Claims → String → Handler S (Unit {0}) (Unit {0})
  unfolding quota_claims audited_rule
  delete_rule_handler c auth id = Handler.◌>>=◌ (changing auth) λ claims.
      queried (server.delete_rule claims.tenant_id id)
      >> audited_rule c claims "rule.delete" id (object (field "deleted" (bool true) end))
      >> respond (record { status = 204; body = empty_body })

  unfoldable pub toggle_rule : Call → Option Claims → String → Handler S DetectionRule (Unit {0})
  unfolding quota_claims update_rule audited_rule toggled
  toggle_rule c auth id = Handler.◌>>=◌ (changing auth) λ claims.
      Handler.◌>>=◌ (queried (server.get_rule_by_id claims.tenant_id id)) λ row.
        Handler.◌>>=◌ (present_rule row) λ rule.
          Handler.◌>>=◌ (queried (update_rule claims.tenant_id id (toggled rule))) λ updated.
            audited_rule c claims "rule.toggle" updated.id
              (object (field "enabled" (bool updated.is_enabled) end))
            >> with_status 200 updated
