-- ===== src/Detection/Rules/Correlation/Evaluate.antt =====
-- The evaluation of a correlation rule on a log, against the cache.
use mini_siem_project.Prelude.{
  String, Bool, true, false, not, Option, none, some, List, [], ◌∷◌, ltb, if◌then◌else◌,
}
use mini_siem_project.Prelude.Int.{ℤ}
use mini_siem_project.Prelude.Text.{◌++ₛ◌, str_eq, is_empty_str}
use mini_siem_project.Prelude.Eff.{Eff, pure, ◌>>=◌, ◌>>◌, ignore_then}
use mini_siem_project.Types.Log.{Log, Call, seconds}
use mini_siem_project.Types.Alert.{Alert}
use mini_siem_project.Types.External.{External}
use mini_siem_project.Detection.Cache.{Cache}
use mini_siem_project.Detection.Rules.Generic.{log_alert}
use mini_siem_project.Detection.Rules.Correlation.State.{
  CorrelationRule, CorrelationState, CorrelationEvictionPolicy, oldest_first, drop_newest, Progress,
  complete, carry, get_group_key, state_key, active_index_key, state_ttl_seconds,
  is_stale_by_watermark, reset_state, slide_window, is_new_group, advance,
}

-- `serde_json::to_string` and `from_str` at a group's state.
pub record Codec : Type 0 where
  pub encode : CorrelationState → String
  pub decode : String → Option CorrelationState

module _ {S : Type 0} (cache : Cache S) (codec : Codec) (x : External) where
  -- A stored state serves if it can be read and is of this group: two groups may share a key.
  abbrev pub accept_state : String → ℤ → Option CorrelationState → CorrelationState
  accept_state group event_ts none = reset_state group event_ts
  accept_state group event_ts (some st) =
      if str_eq st.group_key group then st else reset_state group event_ts

  abbrev pub decode_state : String → ℤ → Option String → CorrelationState
  decode_state group event_ts none = reset_state group event_ts
  decode_state group event_ts (some json) = accept_state group event_ts (codec.decode json)

  unfoldable pub load_state : String → String → ℤ → Eff S CorrelationState
  load_state key group event_ts = do
    stored ← cache.get_string key
    pure (decode_state group event_ts stored)

  abbrev pub drop_popped : Option String → Eff S Bool
  drop_popped none = pure true
  drop_popped (some oldest) = ignore_then (cache.delete_key oldest) (pure true)

  abbrev pub make_room : CorrelationEvictionPolicy → String → String → Eff S Bool
  make_room oldest_first index key = do popped ← cache.zpopmin index; drop_popped popped
  make_room drop_newest index key = ignore_then (cache.zrem index key) (pure false)

  unfoldable pub evict_if_needed : CorrelationRule → String → Eff S Bool
  evict_if_needed r key = do
    active ← cache.zcard (active_index_key r)
    if ltb active r.definition.max_active_groups
        then pure true
        else make_room r.definition.eviction_policy (active_index_key r) key

  unfoldable pub persist_state : CorrelationRule → String → CorrelationState → Eff S (Unit {0})
  persist_state r key st = do
    cache.set_string key (codec.encode st) (some (state_ttl_seconds r))
    cache.zadd (active_index_key r) key st.last_event_ts
    cache.expire_key (active_index_key r) (state_ttl_seconds r)
    pure tt

  abbrev pub correlation_alert : CorrelationRule → Call → Log → Alert
  correlation_alert r c log =
      log_alert c r.id r.name r.severity ("Correlation rule triggered: " ++ₛ r.name) log

  -- The end of the evaluation: the alert, with the state cleared, or the state saved.
  unfoldable pub finish : CorrelationRule → Call → Log → String → Progress → Eff S (Option Alert)
  unfolding persist_state
  finish r c log key complete =
      ignore_then (cache.delete_key key) (
        ignore_then (cache.zrem (active_index_key r) key) (pure (some (correlation_alert r c log))))
  finish r c log key (carry st) = do persist_state r key st; pure none

  -- A group that looks new needs room in the index.
  unfoldable pub admit : CorrelationRule → String → ℤ → CorrelationState → Eff S Bool
  unfolding evict_if_needed
  admit r key event_ts st = if is_new_group st event_ts then evict_if_needed r key else pure true

  -- The events that are not late.
  unfoldable pub on_time :
      CorrelationRule → Call → Log → String → String → ℤ → CorrelationState → Eff S (Option Alert)
  unfolding admit finish
  on_time r c log group key event_ts st = do
    let slid = slide_window r group event_ts st
    allowed ← admit r key event_ts slid
    if not allowed
        then pure none
        else finish r c log key (advance x c log r.definition.stages event_ts slid)

  unfoldable pub evaluate : CorrelationRule → Call → Log → Eff S (Option Alert)
  unfolding load_state on_time
  evaluate r c log =
      let group = get_group_key r log in
      if is_empty_str group then pure none else do
        let event_ts = seconds log.timestamp
        let key = state_key x r group
        st ← load_state key group event_ts
        if is_stale_by_watermark r st event_ts
            then pure none
            else on_time r c log group key event_ts st

  -- The rule on a run of logs, one after the other.
  unfoldable pub process : CorrelationRule → List (Call × Log) → S → S
  process r [] s = s
  process r ((c, log) ∷ rest) s = process r rest (evaluate r c log s).1
