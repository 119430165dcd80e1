-- ===== src/Detection/Evaluator/Stored.antt =====
-- Conditions as they are stored: the JSON that the derived `Deserialize` of `RuleCondition` reads. Its
-- enum is tagged externally, so that a variant is an object with one entry, whose key is the variant's
-- name in snake case.
use mathlib.Core.Option
use mini_siem_project.Prelude.{String, Option, none, some, if◌then◌else◌}
use mini_siem_project.Prelude.Text.{str_eq}
use mini_siem_project.Types.Json.{
  Value, Items, Fields, array, object, field, end, nil, cons, get, as_str,
}
use mini_siem_project.Detection.Evaluator.{
  RuleCondition, Conditions, all_of, any_of, not_of, on_field,
}
use mini_siem_project.Detection.Evaluator

abbrev of_parts : Option String → Option String → Option Value → Option RuleCondition
of_parts (some name) (some op) (some value) = some (on_field name op value)
of_parts name op value = none

abbrev text_at : Value → String → Option String
text_at v key = elim (get v key) [ some t ↦ as_str t | none ↦ none ]

-- The fields of the last variant, by their names or in their order.
unfoldable pub read_field : Value → Option RuleCondition
read_field (object fs) =
    of_parts (text_at (object fs) "field") (text_at (object fs) "op") (get (object fs) "value")
read_field (array (cons name (cons op (cons value nil)))) =
    of_parts (as_str name) (as_str op) (some value)
read_field v = none

abbrev pick :
    String → Option Conditions → Option RuleCondition → Option RuleCondition → Option RuleCondition
pick key list one on =
    if str_eq key "all"
    then Option.map all_of list
    else if str_eq key "any"
    then Option.map any_of list
    else if str_eq key "not"
    then Option.map not_of one
    else if str_eq key "field"
    then on
    else none

abbrev both : Option RuleCondition → Option Conditions → Option Conditions
both (some c) (some cs) = some (Evaluator.cons c cs)
both c cs = none

unfoldable mutual
  unfolding read_field

  pub read_condition : Value → Option RuleCondition
  read_condition (object fs) = read_variant fs
  read_condition v = none

  pub read_variant : Fields → Option RuleCondition
  read_variant (field key v end) = pick key (read_list v) (read_condition v) (read_field v)
  read_variant fs = none

  pub read_list : Value → Option Conditions
  read_list (array vs) = read_items vs
  read_list v = none

  pub read_items : Items → Option Conditions
  read_items nil = some Evaluator.nil
  read_items (cons v vs) = both (read_condition v) (read_items vs)
