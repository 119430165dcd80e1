-- ===== src/Api/Packs.antt =====
-- The handlers of the packs of rules (backend/src/api/handlers/packs.rs).
pub mod Laws
use mini_siem_project.Prelude.{
  ℕ, Bool, any, ◌||◌, map, length, String, Option, none, some, List, [], ◌∷◌, if◌then◌else◌,
}
use mini_siem_project.Prelude.Int.{ℤ, pos}
use mini_siem_project.Prelude.Text.{◌++ₛ◌, str_eq}
use mini_siem_project.Prelude.Eff.{Result, ok, err, Eff}
use mini_siem_project.Types.Json.{Value, string, object, field, end, int}
use mini_siem_project.Types.Log.{Call}
use mini_siem_project.Auth.Claims.{Claims}
use mini_siem_project.Detection.Engine.Index.{DetectionRule}
use mini_siem_project.Packs.{PackRuleTemplate, PackTemplate, DetectionPackResponse, pack_summary}
use mini_siem_project.Packs.Curated.{curated_packs}
use mini_siem_project.Api.Handler.{
  Handler, empty_body, done, with_status, with_fields, outcome_of, perform, present, ◌>>=◌, ◌>>◌,
}
use mini_siem_project.Api.Tenant.{FixedWindow, enforce_tenant_fixed_window}
use mini_siem_project.Api.Audit.{AuditLog, record_audit}
use mini_siem_project.Api.Rules.{RuleCreate}

pub record PackServer (S : Type 0) : Type 0 where
  pub get_all_rules : String → Eff S (List DetectionRule)
  pub create_rule : RuleCreate → Eff S DetectionRule
  pub audit : AuditLog S
  pub allow_fixed_window : FixedWindow S
  pub api_requests_per_minute : ℕ
  pub rule_mutations_per_minute : ℕ

unfoldable pub require_pack_roles : Claims → Bool
require_pack_roles claims = any (str_eq "analyst") claims.roles || any (str_eq "admin") claims.roles

abbrev pub has_rule : String → List DetectionRule → Bool
has_rule name rules = any (λ rule. str_eq rule.name name) rules

unfoldable pub rule_of : String → PackRuleTemplate → RuleCreate
rule_of tenant_id template = record {
  tenant_id = tenant_id;
  name = template.name;
  description = some template.description;
  rule_type = template.rule_type;
  severity = template.severity;
  threshold = template.threshold;
  window_seconds = template.window_seconds;
  condition = some template.condition;
}

unfoldable pub find_pack : String → List PackTemplate → Option PackTemplate
find_pack slug [] = none
find_pack slug (pack ∷ packs) =
    let rest = find_pack slug packs in if str_eq pack.slug slug then some pack else rest

module _ {S : Type 0} (server : PackServer S) where
  open server use {get_all_rules, allow_fixed_window}

  module _ {R : Type 0} where
    abbrev pub queried : {A : Type 0} → String → Eff S A → Handler S R A
    queried what m = do
      r ← outcome_of m
      (elim r [ ok a ↦ done a | err e ↦ with_fields 500 (("error", what ++ₛ e) ∷ []) ])

    -- The rules of the pack that the tenant has under no such name yet, up to the first error.
    unfoldable pub create_missing :
        String → List DetectionRule → List PackRuleTemplate → Handler S R (Unit {0})
    unfolding rule_of
    create_missing tenant_id existing_rules [] = done tt
    create_missing tenant_id existing_rules (template ∷ templates) =
        let rest = create_missing tenant_id existing_rules templates in
        if has_rule template.name existing_rules
        then rest
        else (queried ("failed to install pack rule '" ++ₛ template.name ++ₛ "': ")
              (server.create_rule (rule_of tenant_id template))
            >> rest)

    unfoldable pub ensure_pack_rules : String → PackTemplate → Handler S R (List DetectionRule)
    unfolding create_missing
    ensure_pack_rules tenant_id pack = do
      existing_rules ← queried "failed to load rules: " (get_all_rules tenant_id)
      create_missing tenant_id existing_rules pack.rules
      queried "failed to refresh rules: " (get_all_rules tenant_id)

    unfoldable pub pack_claims : Option Claims → Handler S R Claims
    unfolding require_pack_roles
    pack_claims auth = do
      claims ← present (record { status = 401; body = empty_body }) auth
      (if require_pack_roles claims
          then done claims
          else with_fields 403 (("error", "insufficient role") ∷ []))

    abbrev pub found : Option PackTemplate → Handler S R PackTemplate
    found none = with_fields 404 (("error", "detection pack not found") ∷ [])
    found (some pack) = done pack

  unfoldable pub list_detection_packs :
      Option Claims → Handler S (List DetectionPackResponse) (Unit {0})
  unfolding pack_claims enforce_tenant_fixed_window pack_summary
  list_detection_packs auth = do
    claims ← pack_claims auth
    enforce_tenant_fixed_window allow_fixed_window claims.tenant_id "api_requests"
        server.api_requests_per_minute 1
    rules ← queried "failed to load rules: " (get_all_rules claims.tenant_id)
    with_status 200 (map (λ pack. pack_summary pack rules) curated_packs)

  -- There is no quota on a single pack.
  unfoldable pub get_detection_pack :
      Option Claims → String → Handler S DetectionPackResponse (Unit {0})
  unfolding pack_claims find_pack pack_summary
  get_detection_pack auth slug = do
    claims ← pack_claims auth
    pack ← found (find_pack slug curated_packs)
    rules ← queried "failed to load rules: " (get_all_rules claims.tenant_id)
    with_status 200 (pack_summary pack rules)

  unfoldable pub install_detection_pack :
      Call → Option Claims → String → Handler S DetectionPackResponse (Unit {0})
  unfolding pack_claims enforce_tenant_fixed_window find_pack ensure_pack_rules pack_summary
  install_detection_pack c auth slug = do
    claims ← pack_claims auth
    enforce_tenant_fixed_window allow_fixed_window claims.tenant_id "rule_mutations"
        server.rule_mutations_per_minute 1
    pack ← found (find_pack slug curated_packs)
    rules ← ensure_pack_rules claims.tenant_id pack
    perform (
        record_audit server.audit "detection_pack" c claims "detection_pack.install"
          (some pack.slug) none
          (object (
            field "name" (string pack.name) (
              field "rule_count" (int (pos (length pack.rules)))
                (field "vertical" (string pack.vertical) end)))))
    with_status 200 (pack_summary pack rules)
