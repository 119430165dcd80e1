-- ===== src/Detection/Rules/Correlation/MakeRoom.antt =====
-- Room in the index of a rule.
use Prim.Native.Nat.{max}
use mini_siem_project.Prelude.{
  ℕ, suc, ◌≤◌, String, ◌≡◌, ◌≢◌, ap, ◌∙◌, ◌⊎◌, inl, inr, true, false, none, arith, ltb, ltb→lt,
  if◌then◌else◌, Bool-cases,
}
use mini_siem_project.Prelude.Text.{str_eq}
use mini_siem_project.Prelude.Eff.{ok}
use mini_siem_project.Types.External.{External}
use mini_siem_project.Detection.Cache.{Cache}
use mini_siem_project.Detection.Cache.Reliable.{View, TextCommands, SetCommands, Popped}
use mini_siem_project.Detection.Rules.Correlation.State.{
  CorrelationRule, oldest_first, state_key, active_index_key,
}
use mini_siem_project.Detection.Rules.Correlation.Evaluate.{Codec, evict_if_needed}
use mini_siem_project.Detection.Rules.Correlation.Bounded.{Bounded, delete_keeps, member_is_key}

module _ {S : Type 0} (cache : Cache S) (codec : Codec) (x : External) (v : View S)
    (texts : TextCommands cache v) (sets : SetCommands cache v) (r : CorrelationRule) where
  abbrev index : String
  index = active_index_key r

  abbrev cap : ℕ
  cap = max 1 r.definition.max_active_groups

  abbrev Good : S → Type 0
  Good s = Bounded cache codec x v texts sets r s

  -- Popping a member and deleting its text keeps the invariant and makes room.
  pop_makes_room :
      (m : String) (s t : S)
      → Popped v index m s t
      → Good s
      → Good (cache.delete_key m t).1 × (suc (v.size (cache.delete_key m t).1 index) ≤ cap)
  pop_makes_room m s t p b = (
    record {
      indexed = λ g h. pop_indexed g (Bool-cases (str_eq m (state_key x r g))) h;
      capped = omega (arith, (kept index).1, p.one_less, b.capped);
      not_self = ground (arith, (kept index).0, p.none_new index, b.not_self);
    },
    omega (arith, (kept index).1, p.one_less, b.capped),
  )
    where
      kept :
          (j : String)
          → (v.has (cache.delete_key m t).1 index j ≡ v.has t index j)
            × (v.size (cache.delete_key m t).1 index ≡ v.size t index)
      kept j =
          (delete_keeps cache codec x v texts sets r) m t
            ((member_is_key cache codec x v texts sets r) m s b p.was_in) j

      pop_indexed :
          (g : String)
          → (str_eq m (state_key x r g) ≡ true) ⊎ (str_eq m (state_key x r g) ≡ false)
          → v.text (cache.delete_key m t).1 (state_key x r g) ≢ none
          → v.has (cache.delete_key m t).1 index (state_key x r g) ≡ true
      pop_indexed g (inl same) h = absurd (
          h (
            texts.delete_text m t (state_key x r g)
            ∙ ap (λ b. if b then none else v.text t (state_key x r g)) same))
      pop_indexed g (inr ne) h =
          (kept (state_key x r g)).0
          ∙ p.others_stay (state_key x r g) ne
          ∙ b.indexed g (λ e. h (
              texts.delete_text m t (state_key x r g)
              ∙ ap (λ b. if b then none else v.text t (state_key x r g)) ne
              ∙ p.texts_stay (state_key x r g)
              ∙ e))

  module _ (oldest : r.definition.eviction_policy ≡ oldest_first) where
    -- Asking for room always succeeds, keeps the invariant and leaves room for the key.
    pub evict_makes_room :
        (key : String) (s : S)
        → Good s
        → (t : S) × (evict_if_needed cache codec x r key s ≡ (ok true, t))
          × Good t
          × (suc (v.size t index) ≤ cap)
    unfolding evict_if_needed
    evict_makes_room key s b =
        elim (Bool-cases (ltb (v.size s index) r.definition.max_active_groups)) [
          | inl free ↦ (s, ground (arith, sets.zcard_ok index s), b, omega (arith, ltb→lt _ _ free))
          | inr full ↦ elim (sets.zpopmin_lem index s) [
            | inl (empty, popped) ↦
                (s, ground (arith, sets.zcard_ok index s, popped, oldest), b, omega (arith, empty))
            | inr (m, t, popped, p) ↦
                let (bounded, room) = pop_makes_room m s t p b in
                (
                  (cache.delete_key m t).1,
                  ground (arith, sets.zcard_ok index s, popped, oldest),
                  bounded,
                  room,
                )
          ]
        ]
