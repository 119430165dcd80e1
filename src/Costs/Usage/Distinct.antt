-- ===== src/Costs/Usage/Distinct.antt =====
-- The names of the counters of a tenant on a day differ.
use Prim.Native.Char.{code}
use text.Mathlib.TextLemmas.{append_cancel_left, cons-append}
use mini_siem_project.Prelude.{ℕ, ◌+◌, ◌*◌, String, ◌≡◌, ◌≢◌, ap, ◌∙◌, Bool, true, false, arith}
use mini_siem_project.Prelude.Text.{◌++ₛ◌, str_eq, str_eq_iff}
use mini_siem_project.Costs.Keys.{usage_key, dimension_key}

-- The first two code points, in one number.
abbrev pub digraph : String → ℕ
digraph String.[] = 0
digraph (String.◌∷◌ c String.[]) = code c * 1_000_000
digraph (String.◌∷◌ c (String.◌∷◌ d s)) = code c * 1_000_000 + code d

pub digraph-source : (s : String) → digraph ("source" ++ₛ s) ≡ 115_000_111
digraph-source s =
    ap digraph (cons-append "s" "ource" s ∙ ap (λ t. String.◌∷◌ "s" t) (cons-append "o" "urce" s))

pub digraph-integration : (s : String) → digraph ("integration" ++ₛ s) ≡ 105_000_110
digraph-integration s =
    ap digraph
      (cons-append "i" "ntegration" s ∙ ap (λ t. String.◌∷◌ "i" t) (cons-append "n" "tegration" s))

pub digraph-team : (s : String) → digraph ("team" ++ₛ s) ≡ 116_000_101
digraph-team s =
    ap digraph (cons-append "t" "eam" s ∙ ap (λ t. String.◌∷◌ "t" t) (cons-append "e" "am" s))

to_false : (b : Bool) → (b ≢ true) → b ≡ false
to_false b h = ground arith

-- Two keys of a day and a tenant differ where their ends do.
ends_differ : (p a b : String) → digraph a ≢ digraph b → str_eq (p ++ₛ a) (p ++ₛ b) ≡ false
ends_differ p a b h =
    to_false _ λ e. h (ap digraph (append_cancel_left p a b ((str_eq_iff _ _).0 e)))

pub usage_key-ne :
    (day t a b : String)
    → digraph a ≢ digraph b
    → str_eq (usage_key day t a) (usage_key day t b) ≡ false
unfolding usage_key
usage_key-ne day t a b h = ends_differ _ a b h

pub dimension_key-ne :
    (day t dimension key what b : String)
    → digraph (dimension ++ₛ (":" ++ₛ key ++ₛ ":" ++ₛ what)) ≢ digraph b
    → str_eq (dimension_key day t dimension key what) (usage_key day t b) ≡ false
unfolding usage_key dimension_key
dimension_key-ne day t dimension key what b h = ends_differ _ _ b h
