-- ===== src/Startup/Retention/Laws.antt =====
-- Which deletions a round of retention asks for.
use mini_siem_project.Prelude.{
  ℕ, zero, suc, ◌*◌, ◌&&◌, ◌||◌, refl, Bool, true, false, not, all, length, String, Option, none,
  some, List, [], ◌∷◌, ◌++◌, ◌≡◌, ◌∙◌, ap, sym, if◌then◌else◌, arith,
}
use mathlib.Core.List.{append_assoc, append-nil}
use mini_siem_project.Prelude.Int.{ℤ, pos, negsuc, ◌-ℤ◌, ltb_ℤ, leb_ℤ, max_ℤ}
use mini_siem_project.Prelude.Eff.{ok, err, Eff}
use mini_siem_project.Types.Json.{Value, nil, cons, string, array, object, field, end}
use mini_siem_project.Compliance.{TenantCompliancePolicy, hold_active}
use mini_siem_project.Startup.Retention.{
  Purging, Ended, completed, panicked, times_day, retention_days, cutoff_at, old_logs_query,
  purge_logs, purge_tenant, retain_tenant, retain_all, run_tenant_retention_cycle,
}

pub data Deletion : Type 0 where
  of_audit_events : String → ℤ → Deletion
  of_alerts : String → ℤ → Deletion
  of_logs : String → Value → Deletion

-- The moment at which the round runs, whether there is an index, the texts of moments, the first
-- date and the policies; and which deletion, by its number, fails.
pub record Hour : Type 0 where
  pub now : ℤ
  pub is_connected : Bool
  pub rfc3339 : ℤ → String
  pub first_instant : ℤ
  pub policies : List TenantCompliancePolicy
  pub fails : ℕ → Bool

-- The services in that hour, with the deletions asked for as their state.
abbrev asked : {A : Type 0} → Hour → A → Deletion → Eff (List Deletion) A
asked hour a d ds = (if hour.fails (length ds) then err "database error" else ok a, ds ++ (d ∷ []))

abbrev pub purging : Hour → Purging (List Deletion) (Unit {0})
purging hour = record {
  list_tenant_compliance_policies = λ ds. (ok hour.policies, ds);
  purge_audit_events_before = λ t c. asked hour 0 (of_audit_events t c);
  purge_alerts_before = λ t c. asked hour 0 (of_alerts t c);
  borrow = λ ds. if hour.is_connected then some tt else none;
  delete_by_query = λ client index q. asked hour tt (of_logs index q);
  utc_now = λ ds. hour.now;
  first_instant = hour.first_instant;
  rfc3339 = hour.rfc3339;
}

-- The documents of a tenant with a time before a moment, as a query.
abbrev before_query : String → String → Value
before_query tenant_id cutoff =
    let of_tenant = object (field "term" (object (field "tenant_id" (string tenant_id) end)) end) in
    let older = object (
      field "range" (object (field "@timestamp" (object (field "lt" (string cutoff) end)) end))
        end) in
    object
      (field "bool" (object (field "filter" (array (cons of_tenant (cons older nil))) end)) end)

-- The deletions of one tenant up to a moment.
unfoldable pub deletions_before : Hour → String → String → ℤ → List Deletion
deletions_before hour index tenant_id cutoff =
    of_audit_events tenant_id cutoff
    ∷ of_alerts tenant_id cutoff
    ∷ (if hour.is_connected
        then of_logs index (before_query tenant_id (hour.rfc3339 cutoff)) ∷ []
        else [])

-- The end of a hold, if it has one, has come.
abbrev pub is_over : ℤ → Option ℤ → Bool
is_over now none = false
is_over now (some until) = leb_ℤ until now

-- The tenant is on hold.
abbrev pub is_held : ℤ → TenantCompliancePolicy → Bool
is_held now policy = policy.legal_hold && not (is_over now policy.legal_hold_until)

-- How long so many days are in nanoseconds, where one day is the least.
abbrev pub kept_for : ℤ → ℤ
kept_for (pos zero) = pos 86_400_000_000_000
kept_for (pos (suc n)) = pos (suc n * 86_400_000_000_000)
kept_for (negsuc n) = pos 86_400_000_000_000

-- The moment from which the tenant keeps its data.
abbrev pub kept_since : ℤ → TenantCompliancePolicy → ℤ
kept_since now policy = now -ℤ kept_for policy.retention_days

-- The deletions that a list of policies asks for: none for a tenant on hold, and for each other one
-- those of what is older than the days that it keeps.
unfoldable pub expected_deletions : Hour → String → List TenantCompliancePolicy → List Deletion
unfolding deletions_before
expected_deletions hour index [] = []
expected_deletions hour index (policy ∷ policies) =
    (if is_held hour.now policy
      then []
      else deletions_before hour index policy.tenant_id (kept_since hour.now policy))
    ++ expected_deletions hour index policies

-- The tenant is on hold, or the day from which it keeps its data is a date.
unfoldable pub is_datable : Hour → TenantCompliancePolicy → Bool
is_datable hour policy =
    is_held hour.now policy || not (ltb_ℤ (kept_since hour.now policy) hour.first_instant)

hold_active-is_held :
    (now : ℤ) (policy : TenantCompliancePolicy) → hold_active now policy ≡ is_held now policy
unfolding hold_active
hold_active-is_held now policy = ground arith

times_day-kept_for : (z : ℤ) → times_day (max_ℤ z (pos 1)) ≡ kept_for z
times_day-kept_for (pos zero) = refl
times_day-kept_for (pos (suc n)) = ground arith
times_day-kept_for (negsuc n) = ground arith

cutoff_at-kept_since :
    (first now : ℤ) (policy : TenantCompliancePolicy)
    → cutoff_at first now policy
      ≡ (if ltb_ℤ (kept_since now policy) first then none else some (kept_since now policy))
unfolding cutoff_at retention_days
cutoff_at-kept_since first now policy = rw (times_day-kept_for policy.retention_days) refl

module _ (hour : Hour) (index : String) where
  purge_tenant-deletions :
      (policy : TenantCompliancePolicy) (cutoff : ℤ) (ds : List Deletion)
      → purge_tenant (purging hour) index policy cutoff ds
        ≡ ds ++ deletions_before hour index policy.tenant_id cutoff
  unfolding purge_tenant purge_logs deletions_before old_logs_query
  purge_tenant-deletions policy cutoff ds =
      let a = of_audit_events policy.tenant_id cutoff in
      let b = of_alerts policy.tenant_id cutoff in
      let c = of_logs index (before_query policy.tenant_id (hour.rfc3339 cutoff)) in
      ground (arith, append_assoc ds (a ∷ []) (b ∷ []), append_assoc ds (a ∷ b ∷ []) (c ∷ []))

  retain_tenant-deletions :
      (policy : TenantCompliancePolicy) (ds : List Deletion)
      → is_datable hour policy ≡ true
      → retain_tenant (purging hour) index policy ds
        ≡ (completed, ds ++ expected_deletions hour index (policy ∷ []))
  unfolding retain_tenant is_datable expected_deletions
  retain_tenant-deletions policy ds d =
      let c = kept_since hour.now policy in
      ground (
        arith,
        d,
        hold_active-is_held hour.now policy,
        cutoff_at-kept_since hour.first_instant hour.now policy,
        append-nil ds,
        append-nil (deletions_before hour index policy.tenant_id c),
        purge_tenant-deletions policy c ds,
      )

  expected_deletions-append :
      (policy : TenantCompliancePolicy) (policies : List TenantCompliancePolicy)
      → expected_deletions hour index (policy ∷ policies)
        ≡ expected_deletions hour index (policy ∷ []) ++ expected_deletions hour index policies
  unfolding expected_deletions
  expected_deletions-append policy policies = ground (
    arith,
    append-nil (deletions_before hour index policy.tenant_id (kept_since hour.now policy)),
  )

  retain_all-completed :
      (policy : TenantCompliancePolicy) (policies : List TenantCompliancePolicy)
      (ds ds' : List Deletion)
      → retain_tenant (purging hour) index policy ds ≡ (completed, ds')
      → retain_all (purging hour) index (policy ∷ policies) ds
        ≡ retain_all (purging hour) index policies ds'
  unfolding retain_all
  retain_all-completed policy policies ds ds' h =
      ap
        (λ r. elim r.0 as (λ _. Ended × List Deletion) [
          | completed ↦ retain_all (purging hour) index policies r.1
          | panicked ↦ (panicked, r.1)
        ])
        h

  retain_all-deletions :
      (policies : List TenantCompliancePolicy) (ds : List Deletion)
      → all (is_datable hour) policies ≡ true
      → retain_all (purging hour) index policies ds
        ≡ (completed, ds ++ expected_deletions hour index policies)
  unfolding retain_all expected_deletions
  retain_all-deletions [] ds d = ap (λ x. (completed, x)) (sym (append-nil ds))
  retain_all-deletions (policy ∷ policies) ds d =
      let first = expected_deletions hour index (policy ∷ []) in
      retain_all-completed policy policies ds (ds ++ first)
        (retain_tenant-deletions policy ds (ground (arith, d)))
      ∙ retain_all-deletions policies (ds ++ first) (ground (arith, d))
      ∙ ap (λ x. (completed, x))
          (append_assoc ds first (expected_deletions hour index policies)
            ∙ ap (λ x. ds ++ x) (sym (expected_deletions-append policy policies)))

  -- Where for every tenant that is not on hold the day from which it keeps its data is a date, a
  -- round of retention ends well and asks for exactly these deletions, whichever of them fail: for
  -- no tenant on hold, and for each other one its audit events, its alerts and, where there is an
  -- index, its logs from before that day.
  pub run_tenant_retention_cycle-deletions :
      all (is_datable hour) hour.policies ≡ true
      → run_tenant_retention_cycle (purging hour) index []
        ≡ (completed, expected_deletions hour index hour.policies)
  unfolding run_tenant_retention_cycle
  run_tenant_retention_cycle-deletions d = retain_all-deletions hour.policies [] d

  retain_tenant-panicked :
      (policy : TenantCompliancePolicy) (ds : List Deletion)
      → is_datable hour policy ≡ false
      → retain_tenant (purging hour) index policy ds ≡ (panicked, ds)
  unfolding retain_tenant is_datable
  retain_tenant-panicked policy ds d = ground (
    arith,
    d,
    hold_active-is_held hour.now policy,
    cutoff_at-kept_since hour.first_instant hour.now policy,
  )

  -- A tenant that is not on hold and keeps its data from a day that is no date ends the round in a
  -- panic, and nothing is deleted for the tenants after it, however short a time they keep theirs.
  pub retain_all-panicked :
      (before : List TenantCompliancePolicy) (policy : TenantCompliancePolicy)
      (after : List TenantCompliancePolicy) (ds : List Deletion)
      → all (is_datable hour) before ≡ true
      → is_datable hour policy ≡ false
      → retain_all (purging hour) index (before ++ (policy ∷ after)) ds
        ≡ (panicked, ds ++ expected_deletions hour index before)
  unfolding expected_deletions retain_all
  retain_all-panicked [] policy after ds h d =
      ap
        (λ r. elim r.0 as (λ _. Ended × List Deletion) [
          | completed ↦ retain_all (purging hour) index after r.1
          | panicked ↦ (panicked, r.1)
        ])
        (retain_tenant-panicked policy ds d)
      ∙ ap (λ x. (panicked, x)) (sym (append-nil ds))
  retain_all-panicked (b ∷ before) policy after ds h d =
      let first = expected_deletions hour index (b ∷ []) in
      retain_all-completed b (before ++ (policy ∷ after)) ds (ds ++ first)
        (retain_tenant-deletions b ds (ground (arith, h)))
      ∙ retain_all-panicked before policy after (ds ++ first) (ground (arith, h)) d
      ∙ ap (λ x. (panicked, x))
          (append_assoc ds first (expected_deletions hour index before)
            ∙ ap (λ x. ds ++ x) (sym (expected_deletions-append b before)))
