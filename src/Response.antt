-- ===== src/Response.antt =====
-- The response engine (backend/src/response/engine.rs): policies, and the actions that an alert
-- calls for. An action is its name and what it does is not looked into.
pub mod Laws
use mini_siem_project.Prelude.{
  String, Bool, ◌&&◌, Option, none, some, List, [], ◌∷◌, ◌++◌, map, if◌then◌else◌, unwrap_or,
}
use mini_siem_project.Prelude.Text.{str_eq}
use mini_siem_project.Prelude.Eff.{Eff}
use mini_siem_project.Types.Alert.{Alert, AlertSeverity, severity_eq}

-- `ResponseAction`: its name, and its execution on an alert against the services `S`.
pub record ResponseAction (S : Type 0) : Type 0 where
  pub name : String
  pub execute : Alert → Eff S (Unit {0})

-- A hash map from a pair of keys to a list of actions; `same` tests the second key.
abbrev pub Policies : Type 0 → Type 0 → Type 0
Policies S K = List ((String × K) × List (ResponseAction S))

module _ {S : Type 0} where
  abbrev pub lookup :
      {K : Type 0} → (K → K → Bool) → String → K → Policies S K → Option (List (ResponseAction S))
  lookup same t k [] = none
  lookup same t k (((u, j), as') ∷ rest) =
      if str_eq u t && same j k then some as' else lookup same t k rest

  -- `entry(key).or_insert_with(Vec::new).push(action)`
  abbrev pub push :
      {K : Type 0} → (K → K → Bool) → String → K → ResponseAction S → Policies S K → Policies S K
  push same t k a [] = ((t, k), a ∷ []) ∷ []
  push same t k a (((u, j), as') ∷ rest) =
      if str_eq u t && same j k
      then ((u, j), as' ++ a ∷ []) ∷ rest
      else ((u, j), as') ∷ push same t k a rest

pub record ResponseEngine (S : Type 0) : Type 0 where
  pub rule_policies : Policies S String
  pub severity_policies : Policies S AlertSeverity

abbrev pub new_engine : {S : Type 0} → ResponseEngine S
new_engine = record { rule_policies = []; severity_policies = [] }

module _ {S : Type 0} where
  unfoldable pub add_rule_policy :
      ResponseEngine S → String → String → ResponseAction S → ResponseEngine S
  add_rule_policy e tenant rule action = record e {
    rule_policies = push str_eq tenant rule action e.rule_policies;
  }

  unfoldable pub add_severity_policy :
      ResponseEngine S → Option String → AlertSeverity → ResponseAction S → ResponseEngine S
  add_severity_policy e tenant severity action = record e {
    severity_policies = push severity_eq (unwrap_or "*" tenant) severity action e.severity_policies;
  }

  unfoldable pub add_global_severity_policy :
      ResponseEngine S → AlertSeverity → ResponseAction S → ResponseEngine S
  unfolding add_severity_policy
  add_global_severity_policy e severity action = add_severity_policy e none severity action

  -- The tenant's policy for the rule hides the global one.
  abbrev pub rule_actions :
      Option (List (ResponseAction S)) → Option (List (ResponseAction S)) → List (ResponseAction S)
  rule_actions (some own) global = own
  rule_actions none (some global) = global
  rule_actions none none = []

  unfoldable pub collect_actions : ResponseEngine S → Alert → List (ResponseAction S)
  collect_actions e alert =
      rule_actions (lookup str_eq alert.tenant_id alert.rule_id e.rule_policies)
        (lookup str_eq "*" alert.rule_id e.rule_policies)
      ++ (unwrap_or [] (lookup severity_eq alert.tenant_id alert.severity e.severity_policies)
          ++ unwrap_or [] (lookup severity_eq "*" alert.severity e.severity_policies))

  unfoldable pub preview_actions : ResponseEngine S → Alert → List String
  unfolding collect_actions
  preview_actions e alert = map (λ a. a.name) (collect_actions e alert)

  -- The spawned task: the actions one after the other, whatever they end with.
  abbrev pub run_actions : List (ResponseAction S) → Alert → S → S
  run_actions [] alert s = s
  run_actions (a ∷ as') alert s = run_actions as' alert (a.execute alert s).1

  unfoldable pub handle_alert : ResponseEngine S → Alert → S → S
  unfolding collect_actions
  handle_alert e alert s = run_actions (collect_actions e alert) alert s
