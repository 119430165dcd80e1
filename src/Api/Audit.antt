-- ===== src/Api/Audit.antt =====
-- The chain of audit events: each carries the hash of the one before it, and a signature. The
-- handlers of the different resources append to it in the same way.
pub mod Chain
use mini_siem_project.Prelude.{ℕ, String, Option, none, List, [], ◌∷◌}
use mini_siem_project.Prelude.Int.{ℤ}
use mini_siem_project.Prelude.Text.{◌++ₛ◌}
use mini_siem_project.Prelude.Eff.{Result, ok, err, Eff, pure, fail, ◌>>=◌, handle}
use mini_siem_project.Types.Json.{Value, Items, nil, cons, string, array, object, field, end}
use mini_siem_project.Types.Log.{Call}
use mini_siem_project.Auth.Claims.{Claims}
use mini_siem_project.Cases.Store.{or_string}

pub record AuditEvent : Type 0 where
  pub id : ℕ
  pub tenant_id : String
  pub actor_user_id : String
  pub actor_email : String
  pub actor_roles : List String
  pub action : String
  pub resource_type : String
  pub resource_id : Option String
  pub target_tenant_id : Option String
  pub request_id : Option String
  pub metadata : Value
  pub previous_hash : Option String
  pub event_hash : String
  pub signature : String
  pub created_at : ℤ

-- The table of audit events, and the hash and the signature with the server's key.
pub record AuditLog (S : Type 0) : Type 0 where
  pub latest_audit_hash : String → Eff S (Option String)
  pub insert_audit_event : AuditEvent → Eff S (Unit {0})
  pub hash_audit_payload : Option String → Value → Result String
  pub sign_audit_hash : String → Result String

abbrev pub strings : List String → Items
strings [] = nil
strings (s ∷ ss) = cons (string s) (strings ss)

unfoldable pub audit_payload :
    Claims → String → String → Option String → Option String → Value → Value
unfolding or_string
audit_payload claims action resource_type resource_id target metadata = object (
    field "action" (string action) (
      field "actor_email" (string claims.email) (
        field "actor_roles" (array (strings claims.roles)) (
          field "actor_user_id" (string claims.sub) (
            field "metadata" metadata (
              field "request_id" (or_string claims.jti) (
                field "resource_id" (or_string resource_id) (
                  field "resource_type" (string resource_type) (
                    field "target_tenant_id" (or_string target)
                      (field "tenant_id" (string claims.tenant_id) end))))))))))

-- An error with a text before it.
abbrev labelled : {S A : Type 0} → String → Eff S A → Eff S A
labelled label m = handle m λ r. elim r [ ok a ↦ pure a | err e ↦ fail (label ++ₛ e) ]

abbrev of_result : {S A : Type 0} → Result A → Eff S A
of_result r s = (r, s)

-- The event of a request by the bearer of the claims, appended to the chain of the bearer's tenant.
unfoldable pub record_audit :
    {S : Type 0}
    → AuditLog S
    → String
    → Call
    → Claims
    → String
    → Option String
    → Option String
    → Value
    → Eff S (Unit {0})
unfolding audit_payload
record_audit audit resource_type c claims action resource_id target metadata = do
  let payload = audit_payload claims action resource_type resource_id target metadata
  previous_hash ← labelled "audit chain lookup failed: " (audit.latest_audit_hash claims.tenant_id)
  event_hash ←
      labelled "audit hash failed: " (of_result (audit.hash_audit_payload previous_hash payload))
  signature ← labelled "audit signature failed: " (of_result (audit.sign_audit_hash event_hash))
  labelled "audit write failed: " (
      audit.insert_audit_event (record {
        id = c.fresh_id;
        tenant_id = claims.tenant_id;
        actor_user_id = claims.sub;
        actor_email = claims.email;
        actor_roles = claims.roles;
        action = action;
        resource_type = resource_type;
        resource_id = resource_id;
        target_tenant_id = target;
        request_id = claims.jti;
        metadata = payload;
        previous_hash = previous_hash;
        event_hash = event_hash;
        signature = signature;
        created_at = c.now;
      }))

unfoldable pub record_case_audit :
    {S : Type 0} → AuditLog S → Call → Claims → String → Option String → Value → Eff S (Unit {0})
unfolding record_audit
record_case_audit audit c claims action resource_id metadata =
    record_audit audit "case" c claims action resource_id none metadata

unfoldable pub record_rule_audit :
    {S : Type 0} → AuditLog S → Call → Claims → String → Option String → Value → Eff S (Unit {0})
unfolding record_audit
record_rule_audit audit c claims action resource_id metadata =
    record_audit audit "rule" c claims action resource_id none metadata
