-- ===== src/Packs/Loaded.antt =====
-- What the detection engine makes of the rules of the packs: the conditions are written without the
-- tag of the last variant, which the derived reader asks for.
use mini_siem_project.Prelude.{
  Option, none, some, List, [], ◌∷◌, ◌++◌, ◌≡◌, ◌⊎◌, inl, inr, refl, All,
}
use mini_siem_project.Types.Json.{Value}
use mini_siem_project.Types.External.{External}
use mini_siem_project.Detection.Evaluator.Stored.{read_condition}
use mini_siem_project.Detection.Rules.Correlation.State.{CorrelationDefinition}
use mini_siem_project.Detection.Engine.Index.{
  DetectionRule, Parsers, RuleIndex, empty_index, compile, load_rows, reload_rules,
}
use mini_siem_project.Packs.{PackRuleTemplate, PackTemplate}
use mini_siem_project.Packs.Curated.{
  cloud_iam_abuse, endpoint_ransomware_precursors, insider_risk, curated_packs,
}

-- The readers of the engine, with the derived one for conditions.
abbrev pub readers : (Value → Option CorrelationDefinition) → Parsers
readers read_definition = record {
  parse_condition = read_condition;
  parse_definition = read_definition;
}

abbrev pub rules_of : List PackTemplate → List PackRuleTemplate
rules_of [] = []
rules_of (pack ∷ packs) = pack.rules ++ rules_of packs

-- The row has the type and the condition of one of the templates.
abbrev pub IsFrom : List PackRuleTemplate → DetectionRule → Type 0
IsFrom [] row = ⊥
IsFrom (template ∷ templates) row =
    ((row.rule_type ≡ template.rule_type) × (row.condition ≡ some template.condition))
    ⊎ IsFrom templates row

-- The condition of a generic rule that cannot be read.
abbrev IsUnread : PackRuleTemplate → Type 0
IsUnread t = (t.rule_type ≡ "generic") × (read_condition t.condition ≡ none)

curated_packs-IsUnread : All IsUnread (rules_of curated_packs)
unfolding curated_packs cloud_iam_abuse endpoint_ransomware_precursors insider_risk read_condition
curated_packs-IsUnread = (
  (refl, refl),
  (
    (refl, refl),
    (
      (refl, refl),
      (
        (refl, refl),
        ((refl, refl), ((refl, refl), ((refl, refl), ((refl, refl), ((refl, refl), tt))))),
      ),
    ),
  ),
)

module _ (x : External) (read_definition : Value → Option CorrelationDefinition) where
  compile-IsUnread :
      (t : PackRuleTemplate) (row : DetectionRule)
      → IsUnread t
      → row.rule_type ≡ t.rule_type
      → row.condition ≡ some t.condition
      → compile x (readers read_definition) row ≡ none
  unfolding compile
  compile-IsUnread t row (g, u) r c = rw (r, g, c, u) refl

  compile-IsFrom :
      (ts : List PackRuleTemplate) (row : DetectionRule)
      → All IsUnread ts
      → IsFrom ts row
      → compile x (readers read_definition) row ≡ none
  compile-IsFrom [] row u h = elim h [ ]
  compile-IsFrom (t ∷ ts) row (u, us) (inl (r, c)) = compile-IsUnread t row u r c
  compile-IsFrom (t ∷ ts) row (u, us) (inr h) = compile-IsFrom ts row us h

  load_rows-IsFrom :
      (rows : List DetectionRule) (index : RuleIndex)
      → All (IsFrom (rules_of curated_packs)) rows
      → load_rows x (readers read_definition) rows index ≡ index
  unfolding load_rows
  load_rows-IsFrom [] index h = refl
  load_rows-IsFrom (row ∷ rows) index (r, h) =
      rw (compile-IsFrom (rules_of curated_packs) row curated_packs-IsUnread r)
        (load_rows-IsFrom rows index h)

  -- Rules that are installed from the packs never take part in detection: a reload of rows with
  -- their types and conditions gives the index without any rule, whatever their other columns are.
  pub reload_rules-curated_packs :
      (rows : List DetectionRule)
      → All (IsFrom (rules_of curated_packs)) rows
      → reload_rules x (readers read_definition) rows ≡ empty_index
  unfolding reload_rules
  reload_rules-curated_packs rows h = load_rows-IsFrom rows empty_index h
