-- ===== src/Detection/Rules/Correlation/State.antt =====
-- The definition of a correlation rule, a group's state and the pure steps on it.
use mini_siem_project.Prelude.{
  ℕ, ◌+◌, ◌%◌, ◌^◌, String, Bool, ◌&&◌, Option, none, some, List, [], ◌∷◌, map, length, get_elem?,
  unwrap_or, leb, ◌==◌, if◌then◌else◌,
}
use Prim.Native.Nat.{max}
use mini_siem_project.Prelude.Int.{
  ℤ, pos, ltb_ℤ, eqb_ℤ, max_ℤ, saturating_sub, wrapping_sub, u64_as_i64, i64_as_u64,
  saturating_add_u64,
}
use mini_siem_project.Prelude.Text.{◌++ₛ◌, str_eq, join, show_nat, hex16}
use mini_siem_project.Types.Log.{Log, Call}
use mini_siem_project.Types.Alert.{AlertSeverity}
use mini_siem_project.Types.Tag.{LogTag, auth, network, malware}
use mini_siem_project.Types.External.{External}
use mini_siem_project.Detection.Evaluator.{RuleCondition, evaluate}
use mini_siem_project.Detection.Rules.Generic.{rule_severity}

abbrev pub default_version : ℕ
default_version = 1

abbrev pub default_max_active_groups : ℕ
default_max_active_groups = 4096

abbrev pub default_watermark_lateness_seconds : ℤ
default_watermark_lateness_seconds = pos 30

abbrev pub default_state_ttl_seconds : ℕ
default_state_ttl_seconds = 900

pub data CorrelationEvictionPolicy : Type 0 where
  oldest_first drop_newest : CorrelationEvictionPolicy

abbrev pub default_eviction_policy : CorrelationEvictionPolicy
default_eviction_policy = oldest_first

pub record CorrelationStage : Type 0 where
  pub name : String
  pub condition : RuleCondition
  pub min_count : ℕ

pub record CorrelationDefinition : Type 0 where
  pub window_seconds : ℕ
  pub version : ℕ
  pub max_active_groups : ℕ
  pub watermark_lateness_seconds : ℤ
  pub state_ttl_seconds : ℕ
  pub eviction_policy : CorrelationEvictionPolicy
  pub group_by : List String
  pub stages : List CorrelationStage

pub record CorrelationState : Type 0 where
  pub group_key : String
  pub current_stage_idx : ℕ
  pub events_in_stage : ℕ
  pub window_start_event_ts : ℤ
  pub max_event_ts : ℤ
  pub last_event_ts : ℤ

pub record CorrelationRule : Type 0 where
  pub tenant_id : String
  pub id : String
  pub name : String
  pub severity : AlertSeverity
  pub definition : CorrelationDefinition

abbrev pub new_correlation :
    External → String → String → String → String → CorrelationDefinition → CorrelationRule
new_correlation x tenant_id id name severity def = record {
  tenant_id = tenant_id;
  id = id;
  name = name;
  severity = rule_severity x severity;
  definition = def;
}

abbrev pub log_types : CorrelationRule → List LogTag
log_types r = auth ∷ network ∷ malware ∷ []

-- The part of the group key that a field gives; an unknown field gives none.
abbrev pub group_part : Log → String → String
group_part log field =
    if str_eq field "source_ip"
    then log.source_ip
    else if str_eq field "target_user"
    then unwrap_or "" log.target_user
    else if str_eq field "event_type"
    then log.event_type
    else ""

unfoldable pub get_group_key : CorrelationRule → Log → String
get_group_key r log = join ":" (map (group_part log) r.definition.group_by)

unfoldable pub namespace : CorrelationRule → String
namespace r = "cep:" ++ₛ r.tenant_id ++ₛ ":" ++ₛ r.id ++ₛ ":v" ++ₛ show_nat r.definition.version

unfoldable pub state_key : External → CorrelationRule → String → String
state_key x r group = namespace r ++ₛ ":state:" ++ₛ hex16 (x.hash64 group)

unfoldable pub active_index_key : CorrelationRule → String
active_index_key r = namespace r ++ₛ ":active"

abbrev pub lateness : CorrelationDefinition → ℤ
lateness d = max_ℤ d.watermark_lateness_seconds (pos 0)

abbrev pub state_ttl_seconds : CorrelationRule → ℕ
state_ttl_seconds r =
    let d = r.definition in
    max d.state_ttl_seconds
      (saturating_add_u64 (saturating_add_u64 d.window_seconds (i64_as_u64 (lateness d))) 60)

-- The newest time seen in the group, less the lateness that is allowed.
unfoldable pub watermark : CorrelationRule → CorrelationState → ℤ
watermark r st = saturating_sub st.max_event_ts (lateness r.definition)

unfoldable pub is_stale_by_watermark : CorrelationRule → CorrelationState → ℤ → Bool
is_stale_by_watermark r st event_ts = ltb_ℤ event_ts (watermark r st)

abbrev pub reset_state : String → ℤ → CorrelationState
reset_state group event_ts = record {
  group_key = group;
  current_stage_idx = 0;
  events_in_stage = 0;
  window_start_event_ts = event_ts;
  max_event_ts = event_ts;
  last_event_ts = event_ts;
}

-- The newest and the last event time, brought up to this event.
abbrev pub touch : ℤ → CorrelationState → CorrelationState
touch event_ts st = record st {
  max_event_ts = if ltb_ℤ st.max_event_ts event_ts then event_ts else st.max_event_ts;
  last_event_ts = event_ts;
}

-- The window starts again when the watermark has left it.
unfoldable pub slide_window : CorrelationRule → String → ℤ → CorrelationState → CorrelationState
unfolding watermark
slide_window r group event_ts st =
    let seen : CorrelationState = touch event_ts st in
    if ltb_ℤ (u64_as_i64 r.definition.window_seconds)
      (wrapping_sub (watermark r seen) seen.window_start_event_ts)
    then reset_state group event_ts
    else seen

unfoldable pub is_new_group : CorrelationState → ℤ → Bool
is_new_group st event_ts =
    st.current_stage_idx == 0
    && (st.events_in_stage == 0
        && (eqb_ℤ st.window_start_event_ts event_ts && eqb_ℤ st.max_event_ts event_ts))

-- What an event does to the current stage: the rule is complete, or the group goes on.
pub data Progress : Type 0 where
  complete : Progress
  carry : CorrelationState → Progress

-- One more event counted, in `u32`.
abbrev pub counted : CorrelationState → ℕ
counted st = (st.events_in_stage + 1) % 2 ^ 32

abbrev pub stage_event : List CorrelationStage → CorrelationStage → ℤ → CorrelationState → Progress
stage_event stages stage event_ts st =
    if leb stage.min_count (counted st)
    then (if leb (length stages) (st.current_stage_idx + 1)
        then complete
        else carry (record st {
          current_stage_idx = st.current_stage_idx + 1;
          events_in_stage = 0;
          last_event_ts = event_ts;
        }))
    else carry (record st { events_in_stage = counted st; last_event_ts = event_ts })

abbrev pub at_stage :
    External
    → Call
    → Log
    → List CorrelationStage
    → Option CorrelationStage
    → ℤ
    → CorrelationState
    → Progress
at_stage x c log stages none event_ts st = carry st
at_stage x c log stages (some stage) event_ts st =
    if evaluate x c log stage.condition then stage_event stages stage event_ts st else carry st

unfoldable pub advance :
    External → Call → Log → List CorrelationStage → ℤ → CorrelationState → Progress
advance x c log stages event_ts st =
    at_stage x c log stages (get_elem? stages st.current_stage_idx) event_ts st
