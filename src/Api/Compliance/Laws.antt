-- ===== src/Api/Compliance/Laws.antt =====
-- What every change of a policy by the handlers keeps.
use mini_siem_project.Prelude.{Bool, true, is_some, List, [], ◌∷◌, ◌≡◌, arith}
use mini_siem_project.Prelude.Int.{ℤ, pos, leb_ℤ}
use mini_siem_project.Compliance.{TenantCompliancePolicy}
use mini_siem_project.Api.Compliance.{CompliancePolicyRequest, changed_policy, rotated_policy}

-- A change of a policy at a moment: by a request, or the record of a key rotation.
pub data PolicyChange : Type 0 where
  by_request : CompliancePolicyRequest → ℤ → PolicyChange
  by_rotation : ℤ → PolicyChange

abbrev pub change_one : PolicyChange → TenantCompliancePolicy → TenantCompliancePolicy
change_one (by_request body now) policy = changed_policy body now policy
change_one (by_rotation now) policy = rotated_policy now policy

abbrev pub change_all : List PolicyChange → TenantCompliancePolicy → TenantCompliancePolicy
change_all [] policy = policy
change_all (change ∷ changes) policy = change_all changes (change_one change policy)

abbrev is_positive : ℤ → Bool
is_positive z = leb_ℤ (pos 1) z

-- Data is kept for a day at least, and reviews and rotations are at least a day apart.
abbrev pub IsPositive : TenantCompliancePolicy → Type 0
IsPositive p =
    (is_positive p.retention_days ≡ true)
    × (is_positive p.access_review_interval_days ≡ true)
    × (is_positive p.key_rotation_interval_days ≡ true)

change_one-IsPositive :
    (change : PolicyChange) (p : TenantCompliancePolicy)
    → IsPositive p
    → IsPositive (change_one change p)
unfolding changed_policy rotated_policy
change_one-IsPositive (by_rotation now) p h = h
change_one-IsPositive (by_request body now) p (r, a, k) =
    (ground (arith, r), ground (arith, a), ground (arith, k))

change_one-until :
    (change : PolicyChange) (p : TenantCompliancePolicy)
    → is_some p.legal_hold_until ≡ true
    → is_some (change_one change p).legal_hold_until ≡ true
unfolding changed_policy rotated_policy
change_one-until (by_rotation now) p h = h
change_one-until (by_request body now) p h = ground (arith, h)

-- From a policy that keeps data for a day at least, with reviews and rotations a day apart at least,
-- every run of requests and key rotations leads to such a policy, whatever numbers are asked for.
pub change_all-IsPositive :
    (changes : List PolicyChange) (p : TenantCompliancePolicy)
    → IsPositive p
    → IsPositive (change_all changes p)
change_all-IsPositive [] p h = h
change_all-IsPositive (change ∷ changes) p h =
    change_all-IsPositive changes (change_one change p) (change_one-IsPositive change p h)

-- A legal hold that has had an end once has one for ever: no run of changes makes it one without
-- end again.
pub change_all-until :
    (changes : List PolicyChange) (p : TenantCompliancePolicy)
    → is_some p.legal_hold_until ≡ true
    → is_some (change_all changes p).legal_hold_until ≡ true
change_all-until [] p h = h
change_all-until (change ∷ changes) p h =
    change_all-until changes (change_one change p) (change_one-until change p h)
