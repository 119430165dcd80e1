-- ===== src/Detection/Rules/Correlation/Save.antt =====
-- Saving a group of a rule, and completing the rule.
use Prim.Native.Nat.{max}
use mini_siem_project.Prelude.{
  ℕ, suc, ◌≤◌, String, ◌≡◌, ◌≢◌, ap, ◌∙◌, ◌⊎◌, inl, inr, true, ◌||◌, none, some, arith,
  if◌then◌else◌,
}
use mini_siem_project.Prelude.Text.{str_eq}
use mini_siem_project.Prelude.Eff.{ok}
use mini_siem_project.Types.Log.{Log, Call}
use mini_siem_project.Types.External.{External}
use mini_siem_project.Detection.Cache.{Cache}
use mini_siem_project.Detection.Cache.Reliable.{View, TextCommands, SetCommands}
use mini_siem_project.Detection.Rules.Correlation.State.{
  CorrelationRule, CorrelationState, Progress, complete, carry, state_key, active_index_key,
  state_ttl_seconds,
}
use mini_siem_project.Detection.Rules.Correlation.Evaluate.{Codec, persist_state, finish}
use mini_siem_project.Detection.Rules.Correlation.Bounded.{
  Bounded, Room, key_ne_index, delete_keeps,
}

module _ {S : Type 0} (cache : Cache S) (codec : Codec) (x : External) (v : View S)
    (texts : TextCommands cache v) (sets : SetCommands cache v) (r : CorrelationRule) where
  abbrev index : String
  index = active_index_key r

  abbrev cap : ℕ
  cap = max 1 r.definition.max_active_groups

  abbrev Good : S → Type 0
  Good s = Bounded cache codec x v texts sets r s

  -- The states that saving goes through.
  abbrev after_set : String → CorrelationState → S → S
  after_set key st s = (cache.set_string key (codec.encode st) (some (state_ttl_seconds r)) s).1

  abbrev after_add : String → CorrelationState → S → S
  after_add key st s = (cache.zadd index key st.last_event_ts (after_set key st s)).1

  abbrev after_save : String → CorrelationState → S → S
  after_save key st s = (cache.expire_key index (state_ttl_seconds r) (after_add key st s)).1

  pub persist_state_lem :
      (key : String) (st : CorrelationState) (s : S)
      → persist_state cache codec x r key st s ≡ (ok tt, after_save key st s)
  unfolding persist_state
  persist_state_lem key st s = rw (
    texts.set_ok key (codec.encode st) (some (state_ttl_seconds r)) s,
    sets.zadd_ok index key st.last_event_ts (after_set key st s),
    texts.expire_ok index (state_ttl_seconds r) (after_add key st s),
  )

  save_has :
      (key : String) (st : CorrelationState) (s : S) (m : String)
      → v.has (after_save key st s) index m ≡ (str_eq key m || v.has s index m)
  save_has key st s m =
      (texts.expire_sets index (state_ttl_seconds r) (after_add key st s)).same_has index m
      ∙ sets.zadd_has index key st.last_event_ts (after_set key st s) m
      ∙ ap (λ b. str_eq key m || b)
          ((texts.set_sets key (codec.encode st) (some (state_ttl_seconds r)) s).same_has index m)

  save_size :
      (key : String) (st : CorrelationState) (s : S)
      → v.size (after_save key st s) index
        ≡ (if v.has s index key then v.size s index else suc (v.size s index))
  save_size key st s = ground (
    arith,
    (texts.expire_sets index (state_ttl_seconds r) (after_add key st s)).same_size index,
    sets.zadd_size index key st.last_event_ts (after_set key st s),
    (texts.set_sets key (codec.encode st) (some (state_ttl_seconds r)) s).same_has index key,
    (texts.set_sets key (codec.encode st) (some (state_ttl_seconds r)) s).same_size index,
  )

  save_text :
      (key : String) (st : CorrelationState) (s : S) (j : String)
      → v.text (after_save key st s) j
        ≡ (if str_eq key j then some (codec.encode st) else v.text s j)
  save_text key st s j =
      texts.expire_text index (state_ttl_seconds r) (after_add key st s) j
      ∙ sets.zadd_text index key st.last_event_ts (after_set key st s) j
      ∙ texts.set_text key (codec.encode st) (some (state_ttl_seconds r)) s j

  save-Bounded :
      (g : String) (st : CorrelationState) (s : S)
      → Good s
      → Room cache codec x v texts sets r (state_key x r g) s
      → Good (after_save (state_key x r g) st s)
  save-Bounded g st s b room = record {
    indexed = λ g' h. saved_indexed g' h;
    capped = saved_capped room;
    not_self = ground (
      arith,
      save_has (state_key x r g) st s index,
      b.not_self,
      (key_ne_index cache codec x v texts sets r) g,
    );
  }
    where
      saved_capped :
          (v.has s index (state_key x r g) ≡ true) ⊎ (suc (v.size s index) ≤ cap)
          → v.size (after_save (state_key x r g) st s) index ≤ cap
      saved_capped (inl old) = ground (arith, save_size (state_key x r g) st s, b.capped, old)
      saved_capped (inr fits) = ground (arith, save_size (state_key x r g) st s, b.capped, fits)

      saved_indexed :
          (h : String)
          → v.text (after_save (state_key x r g) st s) (state_key x r h) ≢ none
          → v.has (after_save (state_key x r g) st s) index (state_key x r h) ≡ true
      saved_indexed h stored = ground (
        arith,
        save_has (state_key x r g) st s (state_key x r h),
        save_text (state_key x r g) st s (state_key x r h),
        b.indexed h,
        stored,
      )

  -- The states that completing a rule goes through.
  abbrev after_complete : String → S → S
  after_complete key s = (cache.zrem index key (cache.delete_key key s).1).1

  complete-Bounded : (g : String) (s : S) → Good s → Good (after_complete (state_key x r g) s)
  complete-Bounded g s b = record {
    indexed = λ h stored. ground (
      arith,
      sets.zrem_text index (state_key x r g) (cache.delete_key (state_key x r g) s).1
          (state_key x r h),
      texts.delete_text (state_key x r g) s (state_key x r h),
      sets.zrem_has index (state_key x r g) (cache.delete_key (state_key x r g) s).1
          (state_key x r h),
      ((delete_keeps cache codec x v texts sets r) (state_key x r g) s
          ((key_ne_index cache codec x v texts sets r) g) (state_key x r h)).0,
      b.indexed h,
      stored,
    );
    capped = omega (
      arith,
      sets.zrem_size index (state_key x r g) (cache.delete_key (state_key x r g) s).1,
      ((delete_keeps cache codec x v texts sets r) (state_key x r g) s
          ((key_ne_index cache codec x v texts sets r) g) index).1,
      b.capped,
    );
    not_self = ground (
      arith,
      sets.zrem_has index (state_key x r g) (cache.delete_key (state_key x r g) s).1 index,
      (key_ne_index cache codec x v texts sets r) g,
      ((delete_keeps cache codec x v texts sets r) (state_key x r g) s
          ((key_ne_index cache codec x v texts sets r) g) index).0,
      b.not_self,
    );
  }

  -- Either end of an evaluation keeps the invariant, if there is room for the key.
  pub finish-Bounded :
      (c : Call) (log : Log) (g : String) (p : Progress) (s : S)
      → Good s
      → Room cache codec x v texts sets r (state_key x r g) s
      → Good (finish cache codec x r c log (state_key x r g) p s).1
  unfolding finish
  finish-Bounded c log g complete s b room = complete-Bounded g s b
  finish-Bounded c log g (carry st) s b room =
      rw (persist_state_lem (state_key x r g) st s) (save-Bounded g st s b room)
