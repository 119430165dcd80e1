-- ===== src/Detection/Rules/Correlation/Bounded.antt =====
-- The index of a rule's groups stays within the rule's cap.
use Prim.Native.Nat.{max}
use mini_siem_project.Prelude.{
  ℕ, suc, ◌≤◌, String, ◌≡◌, ◌≢◌, ap, ◌∙◌, ◌⊎◌, inl, inr, true, false, none, arith, if◌then◌else◌,
  Bool-cases,
}
use mini_siem_project.Prelude.Text.{str_eq, str_eq_iff}
use mini_siem_project.Types.External.{External}
use mini_siem_project.Detection.Cache.{Cache}
use mini_siem_project.Detection.Cache.Reliable.{View, TextCommands, SetCommands}
use mini_siem_project.Detection.Rules.Correlation.State.{
  CorrelationRule, state_key, active_index_key,
}
use mini_siem_project.Detection.Rules.Correlation.Keys.{state_key-ne-active_index_key}
use mini_siem_project.Detection.Rules.Correlation.Evaluate.{Codec}

module _ {S : Type 0} (cache : Cache S) (codec : Codec) (x : External) (v : View S)
    (texts : TextCommands cache v) (sets : SetCommands cache v) (r : CorrelationRule) where
  abbrev index : String
  index = active_index_key r

  abbrev cap : ℕ
  cap = max 1 r.definition.max_active_groups

  -- Every stored group of the rule is in the index, which has at most `cap` members.
  pub record Bounded (s : S) : Type 0 where
    pub indexed :
        (g : String) → v.text s (state_key x r g) ≢ none → v.has s index (state_key x r g) ≡ true
    pub capped : v.size s index ≤ cap
    pub not_self : v.has s index index ≡ false

  -- There is room for the key: it is in the index, or the index is not full.
  abbrev pub Room : String → S → Type 0
  Room key s = (v.has s index key ≡ true) ⊎ (suc (v.size s index) ≤ cap)

  pub key_ne_index : (g : String) → str_eq (state_key x r g) index ≡ false
  key_ne_index g = ground (
    arith,
    str_eq_iff (state_key x r g) index,
    str_eq_iff index (state_key x r g),
    state_key-ne-active_index_key x r g,
  )

  pub delete_keeps :
      (m : String) (s : S)
      → str_eq m index ≡ false
      → (j : String)
      → (v.has (cache.delete_key m s).1 index j ≡ v.has s index j)
        × (v.size (cache.delete_key m s).1 index ≡ v.size s index)
  delete_keeps m s ne j = (
    texts.delete_has m s index j ∙ ap (λ b. if b then false else v.has s index j) ne,
    texts.delete_size m s index ∙ ap (λ b. if b then 0 else v.size s index) ne,
  )

  -- The index is no member of itself, so it is not what a member names.
  pub member_is_key :
      (m : String) (s : S) → Bounded s → v.has s index m ≡ true → str_eq m index ≡ false
  member_is_key m s b h = elim (Bool-cases (str_eq m index)) [
    | inl same ↦ absurd (cc (h, ap (v.has s index) ((str_eq_iff m index).0 same), b.not_self))
    | inr ne ↦ ne
  ]
