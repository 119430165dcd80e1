-- ===== src/Api/Packs/Laws.antt =====
-- The installation of a pack into a table of rules that answers.
use mini_siem_project.Prelude.{
  ℕ, Bool, true, false, Bool-cases, inl, inr, ◌||◌, ◌&&◌, all, retain, length, String, Option, none,
  some, List, [], ◌∷◌, ◌++◌, ◌≡◌, ◌∙◌, ap, refl, if◌then◌else◌, arith,
}
use mini_siem_project.Prelude.Int.{ℤ}
use mini_siem_project.Prelude.Text.{str_eq, str_eq_refl, is_empty_str}
use mini_siem_project.Prelude.Eff.{ok}
use mini_siem_project.Detection.Engine.Index.{DetectionRule}
use mini_siem_project.Packs.{
  PackRuleTemplate, PackTemplate, installed_rule, count_installed, pack_summary,
}
use mini_siem_project.Api.Handler.{Flow, go}
use mini_siem_project.Api.Audit.{AuditLog}
use mini_siem_project.Api.Tenant.{FixedWindow}
use mini_siem_project.Api.Rules.{RuleCreate}
use mini_siem_project.Api.Packs.{PackServer, has_rule, rule_of, create_missing, ensure_pack_rules}

both_true : {a b : Bool} → a ≡ true → b ≡ true → a && b ≡ true
both_true h k = ground (arith, h, k)

abbrev pub Rows : Type 0
Rows = List DetectionRule

-- `SELECT … WHERE tenant_id = $1`, and all rows for an empty tenant.
abbrev pub rows_of : String → Rows → Rows
rows_of tenant_id rows =
    if is_empty_str tenant_id then rows else retain (λ row. str_eq row.tenant_id tenant_id) rows

abbrev counted : Option DetectionRule → ℕ
counted none = 0
counted (some rule) = 1

installed-has_rule :
    (name : String) (rows : Rows)
    → has_rule name rows ≡ true
    → counted (installed_rule name rows) ≡ 1
unfolding installed_rule
installed-has_rule name [] h = cc h
installed-has_rule name (row ∷ rows) h = elim (Bool-cases (str_eq row.name name)) [
  | inl e ↦ ground (arith, e)
  | inr e ↦ ground (arith, e, installed-has_rule name rows (ground (arith, e, h)))
]

-- A table that answers; the identifiers and times of new rows are any functions of their number.
module _ (ids : ℕ → String) (times : ℕ → ℤ) where
  abbrev pub new_row : RuleCreate → Rows → DetectionRule
  new_row rule rows = record {
    id = ids (length rows);
    tenant_id = rule.tenant_id;
    name = rule.name;
    description = rule.description;
    rule_type = rule.rule_type;
    severity = rule.severity;
    threshold = rule.threshold;
    window_seconds = rule.window_seconds;
    condition = rule.condition;
    is_enabled = true;
    created_at = times (length rows);
    updated_at = times (length rows);
  }

  abbrev pub table : AuditLog Rows → FixedWindow Rows → PackServer Rows
  table audit window = record {
    get_all_rules = λ tenant_id rows. (ok (rows_of tenant_id rows), rows);
    create_rule = λ rule rows. (ok (new_row rule rows), rows ++ (new_row rule rows ∷ []));
    audit = audit;
    allow_fixed_window = window;
    api_requests_per_minute = 0;
    rule_mutations_per_minute = 0;
  }

  -- The rows with those of the templates that have no row of their name among the existing ones.
  unfoldable pub added : String → Rows → List PackRuleTemplate → Rows → Rows
  unfolding rule_of
  added tenant_id existing [] rows = rows
  added tenant_id existing (t ∷ ts) rows =
      if has_rule t.name existing
      then added tenant_id existing ts rows
      else added tenant_id existing ts (rows ++ (new_row (rule_of tenant_id t) rows ∷ []))

  has_rule-append :
      (name : String) (xs ys : Rows)
      → has_rule name (xs ++ ys) ≡ has_rule name xs || has_rule name ys
  has_rule-append name [] ys = refl
  has_rule-append name (x ∷ xs) ys = ground (arith, has_rule-append name xs ys)

  retain-append :
      (p : DetectionRule → Bool) (xs ys : Rows) → retain p (xs ++ ys) ≡ retain p xs ++ retain p ys
  retain-append p [] ys = refl
  retain-append p (x ∷ xs) ys = ground (arith, retain-append p xs ys)

  rows_of-append :
      (tenant_id : String) (xs ys : Rows)
      → rows_of tenant_id (xs ++ ys) ≡ rows_of tenant_id xs ++ rows_of tenant_id ys
  rows_of-append tenant_id xs ys =
      ground (arith, retain-append (λ row. str_eq row.tenant_id tenant_id) xs ys)

  abbrev has : String → Rows → String → Bool
  has tenant_id rows name = has_rule name (rows_of tenant_id rows)

  has-append :
      (tenant_id : String) (xs ys : Rows) (name : String)
      → has tenant_id (xs ++ ys) name ≡ has tenant_id xs name || has tenant_id ys name
  has-append tenant_id xs ys name =
      ap (has_rule name) (rows_of-append tenant_id xs ys)
      ∙ has_rule-append name (rows_of tenant_id xs) (rows_of tenant_id ys)

  has-new :
      (tenant_id : String) (t : PackRuleTemplate) (rows : Rows)
      → has tenant_id (new_row (rule_of tenant_id t) rows ∷ []) t.name ≡ true
  unfolding rule_of
  has-new tenant_id t rows = ground (arith, str_eq_refl tenant_id, str_eq_refl t.name)

  added-keeps :
      (tenant_id : String) (existing : Rows) (ts : List PackRuleTemplate) (rows : Rows)
      (name : String)
      → has tenant_id rows name ≡ true
      → has tenant_id (added tenant_id existing ts rows) name ≡ true
  unfolding added
  added-keeps tenant_id existing [] rows name h = h
  added-keeps tenant_id existing (t ∷ ts) rows name h =
      let row = new_row (rule_of tenant_id t) rows in
      ground (
        arith,
        added-keeps tenant_id existing ts rows name h,
        added-keeps tenant_id existing ts (rows ++ (row ∷ [])) name
            (has-append tenant_id rows (row ∷ []) name ∙ ground (arith, h)),
      )

  added-present :
      (tenant_id : String) (existing : Rows) (t : PackRuleTemplate) (ts : List PackRuleTemplate)
      (rows : Rows)
      → has_rule t.name existing ≡ true
      → added tenant_id existing (t ∷ ts) rows ≡ added tenant_id existing ts rows
  unfolding added
  added-present tenant_id existing t ts rows h = ground (arith, h)

  added-missing :
      (tenant_id : String) (existing : Rows) (t : PackRuleTemplate) (ts : List PackRuleTemplate)
      (rows : Rows)
      → has_rule t.name existing ≡ false
      → added tenant_id existing (t ∷ ts) rows
        ≡ added tenant_id existing ts (rows ++ (new_row (rule_of tenant_id t) rows ∷ []))
  unfolding added
  added-missing tenant_id existing t ts rows h = ground (arith, h)

  -- The rows of the tenant have one for each template.
  abbrev pub has_all : String → Rows → List PackRuleTemplate → Bool
  has_all tenant_id rows ts = all (λ t. has tenant_id rows t.name) ts

  added-has_all :
      (tenant_id : String) (existing : Rows) (ts : List PackRuleTemplate) (rows : Rows)
      → ((name : String) → has_rule name existing ≡ true → has tenant_id rows name ≡ true)
      → has_all tenant_id (added tenant_id existing ts rows) ts ≡ true
  added-has_all tenant_id existing [] rows h = refl
  added-has_all tenant_id existing (t ∷ ts) rows h =
      let row = new_row (rule_of tenant_id t) rows in
      let later : (name : String)
          → has_rule name existing ≡ true
          → has tenant_id (rows ++ (row ∷ [])) name ≡ true =
        λ name k. has-append tenant_id rows (row ∷ []) name ∙ ground (arith, h name k) in
      elim (Bool-cases (has_rule t.name existing)) [
        | inl e ↦
            ap (λ r. has_all tenant_id r (t ∷ ts)) (added-present tenant_id existing t ts rows e)
            ∙ (both_true (added-keeps tenant_id existing ts rows t.name (h t.name e))
                (added-has_all tenant_id existing ts rows h))
        | inr e ↦
            ap (λ r. has_all tenant_id r (t ∷ ts)) (added-missing tenant_id existing t ts rows e)
            ∙ (both_true
                (added-keeps tenant_id existing ts (rows ++ (row ∷ [])) t.name (
                  has-append tenant_id rows (row ∷ []) t.name
                  ∙ ground (arith, has-new tenant_id t rows)))
                (added-has_all tenant_id existing ts (rows ++ (row ∷ [])) later))
      ]

  -- A second time nothing is missing.
  added-has_all_again :
      (tenant_id : String) (ts : List PackRuleTemplate) (existing rows : Rows)
      → all (λ t. has_rule t.name existing) ts ≡ true
      → added tenant_id existing ts rows ≡ rows
  unfolding added
  added-has_all_again tenant_id [] existing rows h = refl
  added-has_all_again tenant_id (t ∷ ts) existing rows h =
      added-present tenant_id existing t ts rows (ground (arith, h))
      ∙ added-has_all_again tenant_id ts existing rows (ground (arith, h))

  count_installed-has_all :
      (rows : Rows) (ts : List PackRuleTemplate)
      → all (λ t. has_rule t.name rows) ts ≡ true
      → count_installed rows ts ≡ length ts
  unfolding count_installed
  count_installed-has_all rows [] h = refl
  count_installed-has_all rows (t ∷ ts) h = ground (
    arith,
    h,
    installed-has_rule t.name rows (ground (arith, h)),
    count_installed-has_all rows ts (ground (arith, h)),
  )

  module _ (audit : AuditLog Rows) (window : FixedWindow Rows) {R : Type 0} where
    create_missing-added :
        (tenant_id : String) (existing : Rows) (ts : List PackRuleTemplate) (rows : Rows)
        → create_missing (table audit window) {R = R} tenant_id existing ts rows
          ≡ (go tt, added tenant_id existing ts rows)
    unfolding create_missing added
    create_missing-added tenant_id existing [] rows = refl
    create_missing-added tenant_id existing (t ∷ ts) rows =
        elim (Bool-cases (has_rule t.name existing)) [
          | inl e ↦ rw (e, create_missing, added) (create_missing-added tenant_id existing ts rows)
          | inr e ↦
              rw (e, create_missing, added)
                (create_missing-added tenant_id existing ts
                  (rows ++ (new_row (rule_of tenant_id t) rows ∷ [])))
        ]

    abbrev ensured : String → PackTemplate → Rows → Flow R Rows × Rows
    ensured tenant_id pack rows = ensure_pack_rules (table audit window) {R = R} tenant_id pack rows

    ensure_pack_rules-added :
        (tenant_id : String) (pack : PackTemplate) (rows : Rows)
        → let rows' = added tenant_id (rows_of tenant_id rows) pack.rules rows in
          ensured tenant_id pack rows ≡ (go (rows_of tenant_id rows'), rows')
    unfolding ensure_pack_rules
    ensure_pack_rules-added tenant_id pack rows =
        rw (create_missing-added tenant_id (rows_of tenant_id rows) pack.rules rows) refl

    -- On a table that answers, the rules of a pack are all there after it is installed for a tenant,
    -- so that its summary says so, and installing it again changes no row.
    pub ensure_pack_rules-installed :
        (tenant_id : String) (pack : PackTemplate) (rows : Rows)
        → let rows' = (ensured tenant_id pack rows).1 in
          ((ensured tenant_id pack rows).0 ≡ go (rows_of tenant_id rows'))
          × ((pack_summary pack (rows_of tenant_id rows')).installed ≡ true)
          × ((ensured tenant_id pack rows').1 ≡ rows')
    unfolding pack_summary
    ensure_pack_rules-installed tenant_id pack rows =
        let existing = rows_of tenant_id rows in
        let rows' = added tenant_id existing pack.rules rows in
        let present = added-has_all tenant_id existing pack.rules rows (λ name h. h) in
        let count = count_installed-has_all (rows_of tenant_id rows') pack.rules present in
        let again =
          added-has_all_again tenant_id pack.rules (rows_of tenant_id rows') rows' present in
        rw
          (
            ensure_pack_rules-added tenant_id pack rows,
            ensure_pack_rules-added tenant_id pack rows',
            again,
          )
          (refl, ground (arith, count), refl)
