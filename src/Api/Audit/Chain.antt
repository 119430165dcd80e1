-- ===== src/Api/Audit/Chain.antt =====
-- The links between the audit events of a tenant.
use mathlib.Core.Option
use mini_siem_project.Prelude.{
  ◌⊎◌, ℕ, ◌+◌, ltb, Bool, true, false, ◌&&◌, ◌||◌, Bool-cases, inl, inr, String, Option, none, some,
  List, [], ◌∷◌, ◌≡◌, ap, refl, All, if◌then◌else◌, arith,
}
use mini_siem_project.Prelude.Int.{ℤ, ltb_ℤ, eqb_ℤ}
use mini_siem_project.Prelude.Text.{str_eq}
use mini_siem_project.Prelude.Eff.{Result, ok, err, Result-cases}
use mini_siem_project.Types.Json.{Value, Items, nil, cons, null, string, array, get}
use mini_siem_project.Types.Log.{Call}
use mini_siem_project.Auth.Claims.{Claims}
use mini_siem_project.Api.Audit.{AuditEvent, AuditLog, strings, audit_payload, record_audit}
use mini_siem_project.Cases.Store.{or_string}

-- The table of audit events, the last inserted first, and how many operations on it there were.
pub record Table : Type 0 where
  pub rows : List AuditEvent
  pub operations : ℕ

-- `ORDER BY created_at DESC, id DESC LIMIT 1`
abbrev is_later : AuditEvent → AuditEvent → Bool
is_later a b = ltb_ℤ b.created_at a.created_at || (eqb_ℤ b.created_at a.created_at && ltb b.id a.id)

abbrev later_of : AuditEvent → Option AuditEvent → Option AuditEvent
later_of e none = some e
later_of e (some b) = if is_later b e then some b else some e

abbrev pub latest_of : String → List AuditEvent → Option AuditEvent
latest_of tenant_id [] = none
latest_of tenant_id (e ∷ es) =
    let rest = latest_of tenant_id es in
    if str_eq e.tenant_id tenant_id then later_of e rest else rest

-- The event of the tenant that was inserted last.
abbrev pub last_inserted : String → List AuditEvent → Option AuditEvent
last_inserted tenant_id [] = none
last_inserted tenant_id (e ∷ es) =
    let rest = last_inserted tenant_id es in if str_eq e.tenant_id tenant_id then some e else rest

-- The hash and the signature, and which operation on the table, by its number, fails.
pub record Keeping : Type 0 where
  pub hash : Option String → Value → Result String
  pub sign : String → Result String
  pub fails : ℕ → Bool

abbrev counted : Table → Table
counted t = record t { operations = t.operations + 1 }

abbrev pub keeping : Keeping → AuditLog Table
keeping k = record {
  latest_audit_hash = λ tenant_id t. (
    if k.fails t.operations
        then err "database error"
        else ok (Option.map (λ e. e.event_hash) (latest_of tenant_id t.rows)),
    counted t,
  );
  insert_audit_event = λ e t.
      if k.fails t.operations
      then (err "database error", counted t)
      else (ok tt, record t { rows = e ∷ t.rows; operations = t.operations + 1 });
  hash_audit_payload = k.hash;
  sign_audit_hash = k.sign;
}

-- The moment is after all events.
abbrev pub IsAfter : ℤ → List AuditEvent → Type 0
IsAfter now es = All (λ e. ltb_ℤ e.created_at now ≡ true) es

abbrev text_or_null : Option String → Value
text_or_null none = null
text_or_null (some t) = string t

abbrev texts : List String → Items
texts [] = nil
texts (t ∷ ts) = cons (string t) (texts ts)

-- The event's document says what its columns say: who did what to which resource, and for whom.
pub record Says (e : AuditEvent) : Type 0 where
  pub of_action : get e.metadata "action" ≡ some (string e.action)
  pub of_email : get e.metadata "actor_email" ≡ some (string e.actor_email)
  pub of_roles : get e.metadata "actor_roles" ≡ some (array (texts e.actor_roles))
  pub of_user : get e.metadata "actor_user_id" ≡ some (string e.actor_user_id)
  pub of_request : get e.metadata "request_id" ≡ some (text_or_null e.request_id)
  pub of_resource : get e.metadata "resource_id" ≡ some (text_or_null e.resource_id)
  pub of_type : get e.metadata "resource_type" ≡ some (string e.resource_type)
  pub of_target : get e.metadata "target_tenant_id" ≡ some (text_or_null e.target_tenant_id)
  pub of_tenant : get e.metadata "tenant_id" ≡ some (string e.tenant_id)

-- Each event is linked to the one of its tenant inserted before it, its document says what its
-- columns say, its hash is that of the link and the document and its signature that of the hash, and
-- its moment is after those of the events before it.
abbrev pub Linked : Keeping → List AuditEvent → Type 0
Linked k [] = Unit
Linked k (e ∷ es) =
    (e.previous_hash ≡ Option.map (λ b. b.event_hash) (last_inserted e.tenant_id es))
    × (k.hash e.previous_hash e.metadata ≡ ok e.event_hash)
    × (k.sign e.event_hash ≡ ok e.signature)
    × Says e
    × IsAfter e.created_at es
    × Linked k es

abbrev IsBefore : ℤ → Option AuditEvent → Type 0
IsBefore now none = Unit
IsBefore now (some e) = ltb_ℤ e.created_at now ≡ true

IsBefore-if :
    (b : Bool) (now : ℤ) (x y : Option AuditEvent)
    → IsBefore now x
    → IsBefore now y
    → IsBefore now (if b then x else y)
IsBefore-if true now x y h k = h
IsBefore-if false now x y h k = k

later_of-IsBefore :
    (now : ℤ) (e : AuditEvent) (o : Option AuditEvent)
    → ltb_ℤ e.created_at now ≡ true
    → IsBefore now o
    → IsBefore now (later_of e o)
later_of-IsBefore now e none h k = h
later_of-IsBefore now e (some b) h k = IsBefore-if (is_later b e) now (some b) (some e) k h

latest_of-IsBefore :
    (now : ℤ) (tenant_id : String) (es : List AuditEvent)
    → IsAfter now es
    → IsBefore now (latest_of tenant_id es)
latest_of-IsBefore now tenant_id [] h = tt
latest_of-IsBefore now tenant_id (e ∷ es) (l, h) =
    let rest = latest_of tenant_id es in
    let k = latest_of-IsBefore now tenant_id es h in
    IsBefore-if (str_eq e.tenant_id tenant_id) now (later_of e rest) rest
      (later_of-IsBefore now e rest l k) k

earlier-later : (a b : ℤ) (c : Bool) → ltb_ℤ b a ≡ true → ltb_ℤ a b || (eqb_ℤ a b && c) ≡ false
earlier-later a b c h = ground (arith, h)

later_of-some :
    (e : AuditEvent) (o : Option AuditEvent) → IsBefore e.created_at o → later_of e o ≡ some e
later_of-some e none h = refl
later_of-some e (some b) h = rw (earlier-later e.created_at b.created_at (ltb e.id b.id) h) refl

-- Among linked events, the one that the query finds is the one that was inserted last.
latest_of-Linked :
    (k : Keeping) (tenant_id : String) (es : List AuditEvent)
    → Linked k es
    → latest_of tenant_id es ≡ last_inserted tenant_id es
latest_of-Linked k tenant_id [] h = refl
latest_of-Linked k tenant_id (e ∷ es) (p, q, s, d, a, h) =
    rw
      (
        later_of-some e (latest_of tenant_id es) (latest_of-IsBefore e.created_at tenant_id es a),
        latest_of-Linked k tenant_id es h,
      )
      refl

strings-texts : (l : List String) → strings l ≡ texts l
strings-texts [] = refl
strings-texts (t ∷ ts) = ap (cons (string t)) (strings-texts ts)

or_string-text_or_null : (o : Option String) → or_string o ≡ text_or_null o
unfolding or_string
or_string-text_or_null none = refl
or_string-text_or_null (some t) = refl

module _ (k : Keeping) (resource_type : String) (c : Call) (claims : Claims) (action : String)
    (resource_id target : Option String) (metadata : Value) where
  abbrev recorded : Table → Table
  recorded t =
      (record_audit (keeping k) resource_type c claims action resource_id target metadata t).1

  abbrev payload : Value
  payload = audit_payload claims action resource_type resource_id target metadata

  abbrev previous : Table → Option String
  previous t = Option.map (λ e. e.event_hash) (latest_of claims.tenant_id t.rows)

  abbrev event : Table → String → String → AuditEvent
  event t event_hash signature = record {
    id = c.fresh_id;
    tenant_id = claims.tenant_id;
    actor_user_id = claims.sub;
    actor_email = claims.email;
    actor_roles = claims.roles;
    action = action;
    resource_type = resource_type;
    resource_id = resource_id;
    target_tenant_id = target;
    request_id = claims.jti;
    metadata = payload;
    previous_hash = previous t;
    event_hash = event_hash;
    signature = signature;
    created_at = c.now;
  }

  -- The table is left as it is, or the event is put before it.
  abbrev Appended : Table → Type 0
  Appended t =
      ((h : String) × (g : String) × (k.hash (previous t) payload ≡ ok h)
        × (k.sign h ≡ ok g)
        × ((recorded t).rows ≡ event t h g ∷ t.rows))
      ⊎ ((recorded t).rows ≡ t.rows)

  record_audit-Appended : (t : Table) → Appended t
  unfolding record_audit
  record_audit-Appended t = elim (Bool-cases (k.fails t.operations)) [
    | inl f ↦ inr (ground (arith, f))
    | inr f ↦ elim (Result-cases (k.hash (previous t) payload)) [
      | inr (e, h) ↦ inr (ground (arith, f, h))
      | inl (h, is_h) ↦ elim (Result-cases (k.sign h)) [
        | inr (e, g) ↦ inr (ground (arith, f, is_h, g))
        | inl (g, is_g) ↦ elim (Bool-cases (k.fails (t.operations + 1))) [
          | inl e ↦ inr (ground (arith, f, is_h, is_g, e))
          | inr e ↦ inl (h, g, is_h, is_g, ground (arith, f, is_h, is_g, e))
        ]
      ]
    ]
  ]

  event-Says : (t : Table) (h g : String) → Says (event t h g)
  unfolding audit_payload or_string
  event-Says t h g = record {
    of_action = refl;
    of_email = refl;
    of_roles = ap (λ l. some (array l)) (strings-texts claims.roles);
    of_user = refl;
    of_request = ap some (or_string-text_or_null claims.jti);
    of_resource = ap some (or_string-text_or_null resource_id);
    of_type = refl;
    of_target = ap some (or_string-text_or_null target);
    of_tenant = refl;
  }

  -- Nothing is added, or one event of the bearer of the claims with the action and the details given.
  abbrev pub Recorded : Table → List AuditEvent → Type 0
  Recorded t rows =
      ((e : AuditEvent) × (rows ≡ e ∷ t.rows)
        × (e.tenant_id ≡ claims.tenant_id)
        × (e.actor_user_id ≡ claims.sub)
        × (e.action ≡ action)
        × (get e.metadata "metadata" ≡ some metadata))
      ⊎ (rows ≡ t.rows)

  Appended-Recorded : (t : Table) → Appended t → Recorded t (recorded t).rows
  unfolding audit_payload
  Appended-Recorded t (inr e) = inr e
  Appended-Recorded t (inl (h, g, is_h, is_g, e)) = inl (event t h g, e, refl, refl, refl, refl)

  Appended-Linked :
      (t : Table) → Linked k t.rows → IsAfter c.now t.rows → Appended t → Linked k (recorded t).rows
  Appended-Linked t l a (inr e) = rw e l
  Appended-Linked t l a (inl (h, g, is_h, is_g, e)) = rw e (
    ap (λ o. Option.map (λ b. b.event_hash) o) (latest_of-Linked k claims.tenant_id t.rows l),
    is_h,
    is_g,
    event-Says t h g,
    a,
    l,
  )

  -- An audit event of a moment after those in the table keeps the chain of each tenant linked: each
  -- event carries the hash of the one before it, a document that says what its columns say, the hash
  -- of the two and a signature of that. What is added is one event of the bearer with the action and
  -- the details given, or, where a query, the hash or the signature fails, nothing.
  pub record_audit-Linked :
      (t : Table)
      → Linked k t.rows
      → IsAfter c.now t.rows
      → Linked k (recorded t).rows × Recorded t (recorded t).rows
  record_audit-Linked t l a =
      let added = record_audit-Appended t in
      (Appended-Linked t l a added, Appended-Recorded t added)
