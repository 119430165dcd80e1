-- ===== src/Response/Laws.antt =====
-- Which actions an added policy brings to which alerts.
use mini_siem_project.Prelude.{
  String, ◌≡◌, ◌↔◌, refl, ap, sym, ◌∙◌, Bool, true, false, ◌&&◌, some, [], ◌∷◌, ◌++◌, if◌then◌else◌,
  unwrap_or, arith, List, Option,
}
use mathlib.Core.List.{append_assoc, append-nil}
use mini_siem_project.Prelude.Text.{str_eq, str_eq_iff, str_eq_refl}
use mini_siem_project.Types.Alert.{
  Alert, AlertSeverity, severity_eq, critical, high, medium, low, info,
}
use mini_siem_project.Response.{
  ResponseAction, ResponseEngine, Policies, lookup, push, add_rule_policy,
  add_global_severity_policy, collect_actions,
}

severity_eq_iff : (a b : AlertSeverity) → (severity_eq a b ≡ true) ↔ (a ≡ b)
severity_eq_iff critical critical = (λ h. refl, λ h. refl)
severity_eq_iff high high = (λ h. refl, λ h. refl)
severity_eq_iff medium medium = (λ h. refl, λ h. refl)
severity_eq_iff low low = (λ h. refl, λ h. refl)
severity_eq_iff info info = (λ h. refl, λ h. refl)
severity_eq_iff a b = (λ h. cc, λ h. cc)

module _ {S K : Type 0} (same : K → K → Bool)
    (same_iff : (a b : K) → (same a b ≡ true) ↔ (a ≡ b)) where
  -- The policies after a push, at every key.
  pub lookup-push :
      (t : String) (k : K) (a : ResponseAction S) (u : String) (j : K) (p : Policies S K)
      → lookup same u j (push same t k a p) ≡ (
          if str_eq t u && same k j
          then some (unwrap_or [] (lookup same t k p) ++ a ∷ [])
          else lookup same u j p)
  lookup-push t k a u j [] = ground arith
  lookup-push t k a u j (((w, i), as') ∷ rest) = ground (
    arith,
    str_eq_iff w t,
    str_eq_iff w u,
    str_eq_iff t u,
    same_iff i k,
    same_iff i j,
    same_iff k j,
    lookup-push t k a u j rest,
  )

grow_last :
    {A : Type 0} (xs ys zs : List A) (o : Option (List A)) (a : A) (b : Bool)
    → (b ≡ true → zs ≡ unwrap_or [] o)
    → xs ++ (ys ++ unwrap_or [] (if b then some (zs ++ a ∷ []) else o))
      ≡ (xs ++ (ys ++ unwrap_or [] o)) ++ (if b then a ∷ [] else [])
grow_last xs ys zs o a true h = rw (h refl) (
    sym (
      append_assoc xs (ys ++ unwrap_or [] o) (a ∷ [])
      ∙ ap (λ l. xs ++ l) (append_assoc ys (unwrap_or [] o) (a ∷ []))))
grow_last xs ys zs o a false h = sym (append-nil _)

module _ {S : Type 0} where
  -- The actions by severity: the tenant's, then the global ones.
  unfoldable pub severity_actions : ResponseEngine S → Alert → List (ResponseAction S)
  severity_actions e alert =
      unwrap_or [] (lookup severity_eq alert.tenant_id alert.severity e.severity_policies)
      ++ unwrap_or [] (lookup severity_eq "*" alert.severity e.severity_policies)

  -- A rule policy of one tenant, which is not named `*`, changes nothing for the alerts of another one.
  pub add_rule_policy_other :
      (e : ResponseEngine S) (tenant rule : String) (action : ResponseAction S) (alert : Alert)
      → str_eq tenant alert.tenant_id ≡ false
      → str_eq tenant "*" ≡ false
      → collect_actions (add_rule_policy e tenant rule action) alert ≡ collect_actions e alert
  unfolding collect_actions add_rule_policy
  add_rule_policy_other e tenant rule action alert other not_global = rw (
    lookup-push str_eq str_eq_iff tenant rule action alert.tenant_id alert.rule_id e.rule_policies,
    lookup-push str_eq str_eq_iff tenant rule action "*" alert.rule_id e.rule_policies,
    other,
    not_global,
  )

  -- After a rule policy is added for a tenant, an alert of that tenant and rule calls for the
  -- tenant's own actions for the rule, the added one last, in place of the global ones for the rule,
  -- and then for the same actions by severity as before.
  pub add_rule_policy_own :
      (e : ResponseEngine S) (action : ResponseAction S) (alert : Alert)
      → collect_actions (add_rule_policy e alert.tenant_id alert.rule_id action) alert
        ≡ (unwrap_or [] (lookup str_eq alert.tenant_id alert.rule_id e.rule_policies)
            ++ action ∷ [])
          ++ severity_actions e alert
  unfolding collect_actions add_rule_policy severity_actions
  add_rule_policy_own e action alert = rw (
    lookup-push str_eq str_eq_iff alert.tenant_id alert.rule_id action alert.tenant_id alert.rule_id
        e.rule_policies,
    str_eq_refl alert.tenant_id,
    str_eq_refl alert.rule_id,
  )

  -- A global severity policy adds its action at the end for every alert of that severity, of any
  -- tenant but one named `*`, and changes nothing for the alerts of another severity.
  pub add_global_severity_policy_lem :
      (e : ResponseEngine S) (severity : AlertSeverity) (action : ResponseAction S) (alert : Alert)
      → str_eq "*" alert.tenant_id ≡ false
      → collect_actions (add_global_severity_policy e severity action) alert
        ≡ collect_actions e alert
          ++ (if severity_eq severity alert.severity then action ∷ [] else [])
  unfolding collect_actions add_global_severity_policy
  add_global_severity_policy_lem e severity action alert named =
      rw
        (
          lookup-push severity_eq severity_eq_iff "*" severity action alert.tenant_id alert.severity
              e.severity_policies,
          lookup-push severity_eq severity_eq_iff "*" severity action "*" alert.severity
              e.severity_policies,
          named,
        )
        (grow_last _ _ _ _ action (severity_eq severity alert.severity) (λ h.
          ap (λ k. unwrap_or [] (lookup severity_eq "*" k e.severity_policies))
            ((severity_eq_iff _ _).0 h)))
