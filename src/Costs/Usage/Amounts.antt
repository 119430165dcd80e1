-- ===== src/Costs/Usage/Amounts.antt =====
-- What one decision adds to the counters of its tenant.
use mini_siem_project.Prelude.{
  ℕ, ◌+◌, String, ◌≡◌, ◌≢◌, refl, sym, ◌∙◌, Bool, true, false, List, [], ◌∷◌, ◌++◌, arith,
  if◌then◌else◌,
}
use mini_siem_project.Prelude.Text.{◌++ₛ◌, str_eq, str_eq_refl}
use mini_siem_project.Types.External.{External}
use mini_siem_project.Costs.Policy.{CostDecision}
use mini_siem_project.Costs.Keys.{usage_key, dimension_key}
use mini_siem_project.Costs.Usage.{
  Write, add, one, rank, usage_writes, kind_writes, dimension_writes, rank_writes,
}
use mini_siem_project.Costs.Usage.Distinct.{
  digraph, digraph-source, digraph-integration, digraph-team, usage_key-ne, dimension_key-ne,
}

abbrev pub zero_or_one : Bool → ℕ
zero_or_one true = 1
zero_or_one false = 0

-- What a call adds to the counter at a key, and what a list of calls does.
abbrev pub amount_at : String → Write → ℕ
amount_at j (add k n) = if str_eq k j then n else 0
amount_at j (one k) = zero_or_one (str_eq k j)
amount_at j (rank k member n) = 0

abbrev pub total : String → List Write → ℕ
total j [] = 0
total j (w ∷ ws) = amount_at j w + total j ws

total-append : (j : String) (ws vs : List Write) → total j (ws ++ vs) ≡ total j ws + total j vs
total-append j [] vs = omega arith
total-append j (w ∷ ws) vs = omega (arith, total-append j ws vs)

-- A counter of the tenant's own, by its first letters.
record Own (b : String) : Type 0 where
  not_source : 115_000_111 ≢ digraph b
  not_integration : 105_000_110 ≢ digraph b
  not_team : 116_000_101 ≢ digraph b

module _ (day t b : String) (own : Own b) where
  source_ne :
      (key what : String)
      → str_eq (dimension_key day t "source" key what) (usage_key day t b) ≡ false
  source_ne key what =
      dimension_key-ne day t "source" key what b
        (λ e. own.not_source (sym (digraph-source (":" ++ₛ key ++ₛ ":" ++ₛ what)) ∙ e))

  integration_ne :
      (key what : String)
      → str_eq (dimension_key day t "integration" key what) (usage_key day t b) ≡ false
  integration_ne key what =
      dimension_key-ne day t "integration" key what b
        (λ e. own.not_integration (sym (digraph-integration (":" ++ₛ key ++ₛ ":" ++ₛ what)) ∙ e))

  team_ne :
      (key what : String) → str_eq (dimension_key day t "team" key what) (usage_key day t b) ≡ false
  team_ne key what =
      dimension_key-ne day t "team" key what b
        (λ e. own.not_team (sym (digraph-team (":" ++ₛ key ++ₛ ":" ++ₛ what)) ∙ e))

  kind_total :
      (d : CostDecision) (what : String) (on : Bool)
      → total (usage_key day t b) (kind_writes day t d what on)
        ≡ (if on then zero_or_one (str_eq (usage_key day t what) (usage_key day t b)) else 0)
  kind_total d what false = refl
  kind_total d what true =
      rw
        (
          source_ne d.source_key what,
          integration_ne d.integration_key what,
          team_ne d.team_key what,
        )
        (omega arith)

  dimensions_total :
      (x : External) (d : CostDecision) (rest : List Write)
      → total (usage_key day t b) (
          dimension_writes day t "source" d.source_key d.estimated_bytes
          ++ dimension_writes day t "integration" d.integration_key d.estimated_bytes
          ++ dimension_writes day t "team" d.team_key d.estimated_bytes
          ++ rank_writes x day t d
          ++ rest)
        ≡ total (usage_key day t b) rest
  dimensions_total x d rest =
      rw
        (
          source_ne d.source_key "bytes",
          source_ne d.source_key "logs",
          integration_ne d.integration_key "bytes",
          integration_ne d.integration_key "logs",
          team_ne d.team_key "bytes",
          team_ne d.team_key "logs",
        )
        (omega arith)

  -- What one decision adds to a counter of the tenant.
  usage_writes_total :
      (x : External) (d : CostDecision)
      → total (usage_key day t b) (usage_writes x day t d)
        ≡ (if str_eq (usage_key day t "bytes") (usage_key day t b) then d.estimated_bytes else 0)
          + (zero_or_one (str_eq (usage_key day t "logs") (usage_key day t b))
              + ((if d.sampled
                    then zero_or_one (str_eq (usage_key day t "sampled") (usage_key day t b))
                    else 0)
                  + (if d.dropped
                      then zero_or_one (str_eq (usage_key day t "dropped") (usage_key day t b))
                      else 0)))
  unfolding usage_writes
  usage_writes_total x d = omega (
    arith,
    dimensions_total x d
        (kind_writes day t d "sampled" d.sampled ++ kind_writes day t d "dropped" d.dropped),
    total-append (usage_key day t b) (kind_writes day t d "sampled" d.sampled)
        (kind_writes day t d "dropped" d.dropped),
    kind_total d "sampled" d.sampled,
    kind_total d "dropped" d.dropped,
  )

bytes_Own : Own "bytes"
bytes_Own = record {
  not_source = λ h. omega (arith, h);
  not_integration = λ h. omega (arith, h);
  not_team = λ h. omega (arith, h);
}

logs_Own : Own "logs"
logs_Own = record {
  not_source = λ h. omega (arith, h);
  not_integration = λ h. omega (arith, h);
  not_team = λ h. omega (arith, h);
}

sampled_Own : Own "sampled"
sampled_Own = record {
  not_source = λ h. omega (arith, h);
  not_integration = λ h. omega (arith, h);
  not_team = λ h. omega (arith, h);
}

dropped_Own : Own "dropped"
dropped_Own = record {
  not_source = λ h. omega (arith, h);
  not_integration = λ h. omega (arith, h);
  not_team = λ h. omega (arith, h);
}

-- What is counted of a decision.
abbrev pub amount_of : CostDecision → String → ℕ
amount_of d what =
    if str_eq what "bytes"
    then d.estimated_bytes
    else if str_eq what "logs"
    then 1
    else if str_eq what "sampled"
    then (if d.sampled then 1 else 0)
    else if d.dropped
    then 1
    else 0

-- The four counters of a tenant.
pub data Counted : String → Type 0 where
  bytes : Counted "bytes"
  logs : Counted "logs"
  sampled : Counted "sampled"
  dropped : Counted "dropped"

flags : (b : Bool) → (if b then zero_or_one false else 0) ≡ 0
flags true = refl
flags false = refl

pub usage_writes-Counted :
    (day t : String) {b : String}
    → Counted b
    → (x : External) (d : CostDecision)
    → total (usage_key day t b) (usage_writes x day t d) ≡ amount_of d b
usage_writes-Counted day t bytes x d =
    usage_writes_total day t "bytes" bytes_Own x d
    ∙ rw
        (
          str_eq_refl (usage_key day t "bytes"),
          usage_key-ne day t "logs" "bytes" (λ h. omega (arith, h)),
          usage_key-ne day t "sampled" "bytes" (λ h. omega (arith, h)),
          usage_key-ne day t "dropped" "bytes" (λ h. omega (arith, h)),
        )
        (omega (arith, flags d.sampled, flags d.dropped))
usage_writes-Counted day t logs x d =
    usage_writes_total day t "logs" logs_Own x d
    ∙ rw
        (
          str_eq_refl (usage_key day t "logs"),
          usage_key-ne day t "bytes" "logs" (λ h. omega (arith, h)),
          usage_key-ne day t "sampled" "logs" (λ h. omega (arith, h)),
          usage_key-ne day t "dropped" "logs" (λ h. omega (arith, h)),
        )
        (omega (arith, flags d.sampled, flags d.dropped))
usage_writes-Counted day t sampled x d =
    usage_writes_total day t "sampled" sampled_Own x d
    ∙ rw
        (
          str_eq_refl (usage_key day t "sampled"),
          usage_key-ne day t "bytes" "sampled" (λ h. omega (arith, h)),
          usage_key-ne day t "logs" "sampled" (λ h. omega (arith, h)),
          usage_key-ne day t "dropped" "sampled" (λ h. omega (arith, h)),
        )
        (omega (arith, flags d.dropped))
usage_writes-Counted day t dropped x d =
    usage_writes_total day t "dropped" dropped_Own x d
    ∙ rw
        (
          str_eq_refl (usage_key day t "dropped"),
          usage_key-ne day t "bytes" "dropped" (λ h. omega (arith, h)),
          usage_key-ne day t "logs" "dropped" (λ h. omega (arith, h)),
          usage_key-ne day t "sampled" "dropped" (λ h. omega (arith, h)),
        )
        (omega (arith, flags d.sampled))
