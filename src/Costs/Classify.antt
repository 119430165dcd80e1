-- ===== src/Costs/Classify.antt =====
-- What the controller reads off a request.
use Prim.Native.String.{len}
use mini_siem_project.Prelude.{
  ℕ, ◌+◌, String, Bool, true, false, ◌||◌, all, Option, none, some, List, [], ◌∷◌, unwrap_or,
  if◌then◌else◌,
}
use mini_siem_project.Prelude.Text.{◌++ₛ◌, str_eq, contains, codes, is_whitespace, is_empty_str}
use mini_siem_project.Types.Json.{Value, as_str, as_array, get}
use mini_siem_project.Types.Log.{LogSeverity, debug, info, high, critical, show_severity}
use mini_siem_project.Types.External.{External}
use mini_siem_project.Costs.Policy.{IngestLogRequest, TenantDataCostPolicy}

unfoldable pub classify_source : IngestLogRequest → String
classify_source log = if is_empty_str log.source_ip then "unknown" else log.source_ip

-- `v.trim().is_empty()`
abbrev is_blank : String → Bool
is_blank v = all is_whitespace (codes v)

abbrev integration_of : String → Option String → String
integration_of event_type none = event_type
integration_of event_type (some v) = if is_blank v then event_type else v

unfoldable pub classify_integration : IngestLogRequest → String
classify_integration log = integration_of log.event_type log.service

abbrev text_of : Option Value → Option String
text_of none = none
text_of (some v) = as_str v

abbrev first_text : Option String → Option String → Option String → String
first_text (some a) b c = a
first_text none (some b) c = b
first_text none none (some c) = c
first_text none none none = "unassigned"

abbrev team_of : Option Value → String
team_of none = "unassigned"
team_of (some m) =
    first_text (text_of (get m "team")) (text_of (get m "team_id")) (text_of (get m "owner_team"))

unfoldable pub classify_team : IngestLogRequest → String
classify_team log = team_of log.metadata

abbrev len_of : Option String → ℕ
len_of none = 0
len_of (some s) = len s

abbrev json_len : (Value → String) → Option Value → ℕ
json_len print none = 0
json_len print (some m) = len (print m)

-- Bytes; `print` stands for the JSON printer.
unfoldable pub estimated_cost_bytes : (Value → String) → IngestLogRequest → ℕ
estimated_cost_bytes print log =
    len log.event_type
    + len log.source_ip
    + len log.message
    + len_of log.target_user
    + len_of log.service
    + json_len print log.metadata

abbrev is_debug_or_info : LogSeverity → Bool
is_debug_or_info debug = true
is_debug_or_info info = true
is_debug_or_info _ = false

unfoldable pub is_low_value_event : External → IngestLogRequest → Bool
is_low_value_event x log =
    let event_type = x.to_lowercase log.event_type in
    let message = x.to_lowercase log.message in
    is_debug_or_info (unwrap_or info log.severity)
    || (contains event_type "heartbeat"
        || (contains event_type "metrics"
            || (contains event_type "debug"
                || (contains event_type "health"
                    || (contains message "health check" || contains message "keepalive")))))

abbrev is_severe_level : LogSeverity → Bool
is_severe_level high = true
is_severe_level critical = true
is_severe_level _ = false

abbrev pub is_severe : IngestLogRequest → Bool
is_severe log = is_severe_level (unwrap_or info log.severity)

abbrev is_text : Option String → (String → Bool) → Bool
is_text none test = false
is_text (some s) test = test s

abbrev some_text_is : List Value → String → Bool
some_text_is [] s = false
some_text_is (v ∷ vs) s = is_text (as_str v) (λ t. str_eq t s) || some_text_is vs s

abbrev is_in : Option Value → String → Bool
is_in none s = false
is_in (some v) s = elim (as_array v) [ none ↦ false | some vs ↦ some_text_is vs s ]

abbrev service_is : Option String → String → Bool
service_is none expected = false
service_is (some s) expected = str_eq s expected

-- Whether one rule matches: its field, its operator and its value.
unfoldable pub rule_matches : External → IngestLogRequest → String → String → Option Value → Bool
rule_matches x log field op value =
    let severity = show_severity (unwrap_or info log.severity) in
    if str_eq field "event_type"
    then (if str_eq op "=="
        then is_text (text_of value) (λ e. str_eq log.event_type e)
        else if str_eq op "in"
        then is_in value log.event_type
        else false)
    else if str_eq field "severity"
    then (if str_eq op "=="
        then is_text (text_of value) (λ e. str_eq severity e)
        else if str_eq op "in"
        then is_in value severity
        else false)
    else if str_eq field "message"
    then (if str_eq op "contains"
        then is_text (text_of value) (λ n. contains (x.to_lowercase log.message) (x.to_lowercase n))
        else false)
    else if str_eq field "service"
    then (if str_eq op "==" then is_text (text_of value) (service_is log.service) else false)
    else false

-- The first rule that matches gives the reason.
unfoldable pub first_match : External → IngestLogRequest → List Value → Option String
first_match x log [] = none
first_match x log (rule ∷ rules) =
    let field = unwrap_or "" (text_of (get rule "field")) in
    let op = unwrap_or "" (text_of (get rule "op")) in
    if rule_matches x log field op (get rule "value")
    then some ("schema rule matched " ++ₛ field ++ₛ " " ++ₛ op)
    else first_match x log rules

unfoldable pub schema_drop_reason :
    External → IngestLogRequest → TenantDataCostPolicy → Option String
unfolding first_match
schema_drop_reason x log policy = elim (as_array policy.schema_drop_rules) [
  | none ↦ none
  | some rules ↦ first_match x log rules
]
