-- ===== src/Detection/Evaluator.antt =====
-- Conditions of rules and their evaluation on a log (backend/src/detection/evaluator.rs).
pub mod Stored
use Prim.Native.Nat.{compare, Ordering}
use mini_siem_project.Prelude.{
  ℕ, String, Bool, true, false, not, ◌&&◌, ◌||◌, Option, none, some, if◌then◌else◌, unwrap_or,
}
use mini_siem_project.Prelude.Text.{str_eq, contains, starts_with, ends_with}
use mini_siem_project.Types.Json.{
  Number, Value, null, string, number, pos_int, neg_int, float, value_eq, as_str, get,
}
use mini_siem_project.Types.Log.{Log, Call, show_severity}
use mini_siem_project.Types.Ecs.{EcsLog}
use mini_siem_project.Types.External.{External}
use mini_siem_project.Detection.Normalization.{normalize_log}

mutual
  pub data RuleCondition : Type 0 where
    all_of : Conditions → RuleCondition
    any_of : Conditions → RuleCondition
    not_of : RuleCondition → RuleCondition
    on_field : String → String → Value → RuleCondition

  pub data Conditions : Type 0 where
    nil : Conditions
    cons : RuleCondition → Conditions → Conditions

abbrev pub text_or_null : Option String → Value
text_or_null none = null
text_or_null (some s) = string s

-- `as_f64`
abbrev as_f64 : External → Value → Option ℕ
as_f64 x (number (pos_int n)) = some (x.f64_of_u64 n)
as_f64 x (number (neg_int n)) = some (x.f64_of_neg n)
as_f64 x (number (float b)) = some b
as_f64 x _ = none

abbrev compare_texts : External → Option String → Option String → Option Ordering
compare_texts x (some a) (some b) = some (x.str_cmp a b)
compare_texts x _ _ = none

abbrev compare_floats : External → Option ℕ → Option ℕ → Option Ordering → Option Ordering
compare_floats x (some a) (some b) other = x.f64_cmp a b
compare_floats x _ _ other = other

unfoldable pub compare_json_values : External → Value → Value → Option Ordering
compare_json_values x a b =
    compare_floats x (as_f64 x a) (as_f64 x b) (compare_texts x (as_str a) (as_str b))

-- The field's value: the normalised names first, then those of the log, then its metadata.
pub field_value : External → Call → Log → String → Value
field_value x c log field =
    let ecs : EcsLog = normalize_log x c log in
    if str_eq field "user.name"
    then text_or_null ecs.user_name
    else if str_eq field "source.ip"
    then text_or_null ecs.source_ip
    else if str_eq field "event.outcome"
    then text_or_null ecs.event_outcome
    else if str_eq field "log.level"
    then text_or_null ecs.log_level
    else if str_eq field "event_type"
    then string log.event_type
    else if str_eq field "source_ip"
    then string log.source_ip
    else if str_eq field "target_user"
    then text_or_null log.target_user
    else if str_eq field "service"
    then text_or_null log.service
    else if str_eq field "message"
    then string log.message
    else if str_eq field "severity"
    then string (show_severity log.severity)
    else unwrap_or null (get log.metadata field)

abbrev both_texts : (String → String → Bool) → Option String → Option String → Bool
both_texts test (some a) (some b) = test a b
both_texts test _ _ = false

abbrev pub is_greater : Option Ordering → Bool
is_greater (some Ordering.gt) = true
is_greater _ = false

abbrev pub is_less : Option Ordering → Bool
is_less (some Ordering.lt) = true
is_less _ = false

abbrev pub is_equal : Option Ordering → Bool
is_equal (some Ordering.eq) = true
is_equal _ = false

pub apply_op : External → String → Value → Value → Bool
apply_op x op l v =
    if str_eq op "==" || str_eq op "eq"
    then value_eq x.f64_eq l v
    else if str_eq op "!=" || str_eq op "ne"
    then not (value_eq x.f64_eq l v)
    else if str_eq op "contains"
    then both_texts contains (as_str l) (as_str v)
    else if str_eq op "startswith"
    then both_texts starts_with (as_str l) (as_str v)
    else if str_eq op "endswith"
    then both_texts ends_with (as_str l) (as_str v)
    else if str_eq op ">" || str_eq op "gt"
    then is_greater (compare_json_values x l v)
    else if str_eq op "<" || str_eq op "lt"
    then is_less (compare_json_values x l v)
    else if str_eq op ">=" || str_eq op "ge"
    then is_greater (compare_json_values x l v) || is_equal (compare_json_values x l v)
    else if str_eq op "<=" || str_eq op "le"
    then is_less (compare_json_values x l v) || is_equal (compare_json_values x l v)
    else false

-- `iter().all` and `iter().any` stop early, which a pure test does not show.
unfoldable mutual
  unfolding field_value apply_op

  pub evaluate : External → Call → Log → RuleCondition → Bool
  evaluate x c log (all_of cs) = evaluate_all x c log cs
  evaluate x c log (any_of cs) = evaluate_any x c log cs
  evaluate x c log (not_of r) = not (evaluate x c log r)
  evaluate x c log (on_field field op value) = apply_op x op (field_value x c log field) value

  pub evaluate_all : External → Call → Log → Conditions → Bool
  evaluate_all x c log nil = true
  evaluate_all x c log (cons r rs) = evaluate x c log r && evaluate_all x c log rs

  pub evaluate_any : External → Call → Log → Conditions → Bool
  evaluate_any x c log nil = false
  evaluate_any x c log (cons r rs) = evaluate x c log r || evaluate_any x c log rs
