-- ===== src/Detection/Rules/Correlation/Keys.antt =====
-- The keys of a rule's groups are never the key of its index.
use Prim.Native.Char.{code}
use text.Mathlib.TextLemmas.{append_cancel_left, cons-append}
use mini_siem_project.Prelude.{ℕ, String, ◌≡◌, ◌≢◌, ap, sym, ◌∙◌, Bool, true, false, arith}
use mini_siem_project.Prelude.Text.{◌++ₛ◌, str_eq, str_eq_iff}
use mini_siem_project.Types.External.{External}
use mini_siem_project.Detection.Rules.Correlation.State.{
  CorrelationRule, state_key, active_index_key, namespace,
}

-- The code point after the first one.
abbrev second : String → ℕ
second String.[] = 0
second (String.◌∷◌ c String.[]) = 0
second (String.◌∷◌ c (String.◌∷◌ d s)) = code d

second-state : (h : String) → second (":state:" ++ₛ h) ≡ b's'
second-state h =
    ap second (cons-append ":" "state:" h ∙ ap (λ t. String.◌∷◌ ":" t) (cons-append "s" "tate:" h))

tails_differ : (h : String) → (":state:" ++ₛ h) ≢ ":active"
tails_differ h e = absurd (omega (arith, second-state h, ap second e))

not_true : (b : Bool) → (b ≢ true) → b ≡ false
not_true b h = ground arith

-- No group's key is the key of the index.
pub state_key-ne-active_index_key :
    (x : External) (r : CorrelationRule) (g : String)
    → str_eq (active_index_key r) (state_key x r g) ≡ false
unfolding state_key active_index_key
state_key-ne-active_index_key x r g =
    not_true _
      λ h. tails_differ _ (sym (append_cancel_left (namespace r) _ _ ((str_eq_iff _ _).0 h)))
