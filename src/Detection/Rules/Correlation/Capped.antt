-- ===== src/Detection/Rules/Correlation/Capped.antt =====
-- The index of a rule along a run of logs.
use Prim.Native.Nat.{max}
use mini_siem_project.Prelude.{
  ℕ, ◌≤◌, String, ◌≡◌, ◌≢◌, ap, inl, inr, Bool, true, false, Option, none, List, [], ◌∷◌, arith,
  if◌then◌else◌, Bool-cases,
}
use mini_siem_project.Prelude.Int.{ℤ}
use mini_siem_project.Prelude.Text.{is_empty_str}
use mini_siem_project.Prelude.Eff.{Eff, ok, pure}
use mini_siem_project.Types.Log.{Log, Call, seconds}
use mini_siem_project.Types.Alert.{Alert}
use mini_siem_project.Types.External.{External}
use mini_siem_project.Detection.Cache.{Cache}
use mini_siem_project.Detection.Cache.Reliable.{View, TextCommands, SetCommands}
use mini_siem_project.Detection.Rules.Correlation.State.{
  CorrelationRule, CorrelationState, oldest_first, state_key, active_index_key, is_new_group,
  slide_window, reset_state, get_group_key, is_stale_by_watermark,
}
use mini_siem_project.Detection.Rules.Correlation.Evaluate.{
  Codec, decode_state, load_state, admit, on_time, evaluate, process,
}
use mini_siem_project.Detection.Rules.Correlation.Bounded.{Bounded, Room}
use mini_siem_project.Detection.Rules.Correlation.MakeRoom.{evict_makes_room}
use mini_siem_project.Detection.Rules.Correlation.Save.{finish-Bounded}

-- A group that the cache does not know looks new, so it is asked for room.
is_new_group-reset :
    (r : CorrelationRule) (g : String) (t : ℤ)
    → is_new_group (slide_window r g t (reset_state g t)) t ≡ true
unfolding is_new_group slide_window
is_new_group-reset r g t = ground arith

module _ {S : Type 0} (cache : Cache S) (codec : Codec) (x : External) (v : View S)
    (texts : TextCommands cache v) (sets : SetCommands cache v) (r : CorrelationRule) where
  abbrev index : String
  index = active_index_key r

  abbrev cap : ℕ
  cap = max 1 r.definition.max_active_groups

  abbrev Good : S → Type 0
  Good s = Bounded cache codec x v texts sets r s

  -- What ends early changes nothing.
  gate_keeps :
      (b : Bool) (f : Eff S (Option Alert)) (s : S)
      → Good s
      → Good (f s).1
      → Good ((if b then pure none else f) s).1
  gate_keeps true f s h k = h
  gate_keeps false f s h k = k

  module _ (oldest : r.definition.eviction_policy ≡ oldest_first) where
    -- A group is let in, and then there is room for its key.
    admit_lem :
        (g : String) (event_ts : ℤ) (st : CorrelationState) (s : S)
        → Good s
        → (v.text s (state_key x r g) ≡ none → is_new_group st event_ts ≡ true)
        → (t : S) × (admit cache codec x r (state_key x r g) event_ts st s ≡ (ok true, t))
          × Good t
          × Room cache codec x v texts sets r (state_key x r g) t
    unfolding admit
    admit_lem g event_ts st s b fresh = elim (Bool-cases (is_new_group st event_ts)) [
      | inl isnew ↦
          let (t, e, bt, room) =
            evict_makes_room cache codec x v texts sets r oldest (state_key x r g) s b in
          (t, rw isnew e, bt, inr room)
      | inr known ↦ (s, rw known, b, inl (b.indexed g (λ absent. cc (fresh absent))))
    ]

    on_time-Bounded :
        (c : Call) (log : Log) (g : String) (event_ts : ℤ) (st : CorrelationState) (s : S)
        → Good s
        → (v.text s (state_key x r g) ≡ none → st ≡ reset_state g event_ts)
        → Good (on_time cache codec x r c log g (state_key x r g) event_ts st s).1
    unfolding on_time
    on_time-Bounded c log g event_ts st s b fresh =
        let (t, e, bt, room) =
          admit_lem g event_ts (slide_window r g event_ts st) s b
            (λ absent. rw (fresh absent) (is_new_group-reset r g event_ts)) in
        rw (e) (finish-Bounded cache codec x v texts sets r c log g _ t bt room)

    -- With the policy that evicts the oldest group, and a cache that answers every command, an
    -- evaluation on any log keeps every stored group in the index and at most `cap` groups there.
    pub evaluate-Bounded :
        (c : Call) (log : Log) (s : S) → Good s → Good (evaluate cache codec x r c log s).1
    unfolding evaluate load_state
    evaluate-Bounded c log s b = gate_keeps (is_empty_str group) _ s b (
        rw (texts.get_ok (state_key x r group) s) (
          gate_keeps (is_stale_by_watermark r st event_ts) _ s b (
            on_time-Bounded c log group event_ts st s b
              (λ absent. ap (decode_state cache codec x group event_ts) absent))))
      where
        group : String
        group = get_group_key r log

        event_ts : ℤ
        event_ts = seconds log.timestamp

        st : CorrelationState
        st = decode_state cache codec x group event_ts (v.text s (state_key x r group))

    -- So it holds along any run of logs.
    pub process-Bounded :
        (events : List (Call × Log)) (s : S) → Good s → Good (process cache codec x r events s)
    unfolding process
    process-Bounded [] s b = b
    process-Bounded ((c, log) ∷ rest) s b =
        process-Bounded rest (evaluate cache codec x r c log s).1 (evaluate-Bounded c log s b)

    -- For a rule that evicts the oldest group, on a server that keeps the laws of its commands and
    -- from a cache in which the rule has no group (its index being empty), a run of any logs leaves
    -- at most `max 1 max_active_groups` groups in the index, and every stored group is there.
    pub process_capped :
        (events : List (Call × Log)) (s : S)
        → ((g : String) → v.text s (state_key x r g) ≡ none)
        → v.size s index ≡ 0
        → v.has s index index ≡ false
        → (v.size (process cache codec x r events s) index ≤ cap)
          × ((g : String)
              → v.text (process cache codec x r events s) (state_key x r g) ≢ none
              → v.has (process cache codec x r events s) index (state_key x r g) ≡ true)
    process_capped events s untexted empty no_self =
        let b = process-Bounded events s (record {
          indexed = λ g stored. absurd (stored (untexted g));
          capped = omega (arith, empty);
          not_self = no_self;
        }) in
        (b.capped, b.indexed)
