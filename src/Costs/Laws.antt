-- ===== src/Costs/Laws.antt =====
-- What the controller may do to a log.
use mini_siem_project.Prelude.{
  ℕ, ◌≡◌, refl, Bool, true, false, ◌&&◌, ◌||◌, not, Option, none, some, is_some, String, ltb, arith,
  if◌then◌else◌,
}
use mini_siem_project.Prelude.Eff.{Result, ok, err, Eff, continue, ◌>>=◌}
use mini_siem_project.Types.Json.{Value}
use mini_siem_project.Types.External.{External}
use mini_siem_project.Detection.Cache.{Cache}
use mini_siem_project.Costs.Policy.{IngestLogRequest, TenantDataCostPolicy, CostDecision}
use mini_siem_project.Costs.Keys.{usage_key, dimension_key}
use mini_siem_project.Costs.Classify.{classify_source, classify_integration, classify_team}
use mini_siem_project.Prelude.Text.{str_eq, ◌++ₛ◌, show_nat}
use mini_siem_project.Costs.Decide.{
  Verdict, kept, after_schema, set_rate, sample, last_reason, decide, clamp_percent, counter,
  evaluate_cost_decision,
}

module _ (p : TenantDataCostPolicy) (severe low over : Bool) (schema : Option String) (bucket : ℕ)
    (pressure : String) where
  -- The log is dropped exactly when a schema rule matches and the policy's flag is set or the log is
  -- of low value: neither its severity nor the budget matters.
  pub dropped-decide :
      (decide p severe low over schema bucket pressure).dropped
      ≡ (is_some schema && (p.drop_low_value_when_over_budget || low))
  unfolding decide
  dropped-decide = ground arith

  -- Of the logs that are not dropped, one is sampled out exactly when sampling is on, the log is of
  -- low value or a budget is used up, and its place among a hundred is past the rate, which is the
  -- high-value one for a severe log and the low-value one for another.
  pub sampled-decide : (decide p severe low over schema bucket pressure).sampled ≡ (
      not (is_some schema && (p.drop_low_value_when_over_budget || low))
      && (p.sampling_enabled
          && ((low || over)
              && ltb
                  (clamp_percent (
                    if severe then p.high_value_sampling_percent else p.low_value_sampling_percent))
                  bucket)))
  unfolding decide
  sampled-decide = ground arith

  -- A log is kept exactly when it is neither dropped nor sampled out, and never both of these.
  pub keep-decide :
      ((decide p severe low over schema bucket pressure).keep
        ≡ not (
            (decide p severe low over schema bucket pressure).sampled
            || (decide p severe low over schema bucket pressure).dropped))
      × ((decide p severe low over schema bucket pressure).sampled
            && (decide p severe low over schema bucket pressure).dropped
          ≡ false)
  unfolding decide
  keep-decide = ground arith

-- What is not kept is not called accepted.
abbrev pub is_named : Bool → String → Bool
is_named keep action = keep || not (str_eq action "accepted")

abbrev IsNamed : Verdict → Type 0
IsNamed v = is_named v.keep v.action ≡ true

IsNamed-if : (b : Bool) (v w : Verdict) → IsNamed v → IsNamed w → IsNamed (if b then v else w)
IsNamed-if true v w h k = h
IsNamed-if false v w h k = k

module _ (p : TenantDataCostPolicy) (severe low over : Bool) (bucket : ℕ) (pressure : String) where
  decide_rest :
      (v : Verdict)
      → IsNamed v
      → IsNamed (
          last_reason (
            if v.keep then sample p low over bucket pressure (set_rate p severe low over v) else v))
  decide_rest v h =
      let rated = set_rate p severe low over v in
      let n : IsNamed rated =
        IsNamed-if severe (record v { rate = clamp_percent p.high_value_sampling_percent })
          (if low || over
            then record v { rate = clamp_percent p.low_value_sampling_percent }
            else v)
          h
          (IsNamed-if (low || over) (record v { rate = clamp_percent p.low_value_sampling_percent })
            v h h) in
      let sampled : IsNamed (sample p low over bucket pressure rated) =
        IsNamed-if (p.sampling_enabled && (ltb rated.rate bucket && (low || over)))
          (record rated {
            action = "sampled";
            keep = false;
            sampled = true;
            reason = "sampled at " ++ₛ show_nat rated.rate ++ₛ "% due to pressure " ++ₛ pressure;
          })
          rated refl n in
      let w = if v.keep then sample p low over bucket pressure rated else v in
      let m : IsNamed w = IsNamed-if v.keep (sample p low over bucket pressure rated) v sampled h in
      IsNamed-if (not w.keep && (not w.sampled && not w.dropped))
        (record w { reason = "dropped by cost controller" }) w m m

  pub decide-is_named :
      (schema : Option String)
      → is_named
          (decide p severe low over schema bucket pressure).keep
          (decide p severe low over schema bucket pressure).action
        ≡ true
  unfolding decide
  decide-is_named none = decide_rest (after_schema p low none (kept p)) refl
  decide-is_named (some why) = decide_rest (after_schema p low (some why) (kept p)) (
      IsNamed-if (p.drop_low_value_when_over_budget || low)
        (record {
          action = "dropped";
          keep = false;
          sampled = false;
          dropped = true;
          rate = 0;
          reason = why;
        })
        (kept p) refl refl)

-- A decision, if there is one, says the same.
abbrev pub Named : Result (TenantDataCostPolicy × CostDecision) → Type 0
Named (ok (p, d)) = is_named d.keep d.action ≡ true
Named (err e) = Unit

module _ {S A : Type 0} where
  continue-Named :
      (r : Result A) (f : A → Eff S (TenantDataCostPolicy × CostDecision)) (s : S)
      → ((a : A) (t : S) → Named (f a t).0)
      → Named (continue r f s).0
  continue-Named (ok a) f s h = h a s
  continue-Named (err e) f s h = tt

  pub bind-Named :
      (m : Eff S A) (f : A → Eff S (TenantDataCostPolicy × CostDecision)) (s : S)
      → ((a : A) (t : S) → Named (f a t).0)
      → Named ((m >>= f) s).0
  bind-Named m f s h = continue-Named (m s).0 f (m s).1 h

pub evaluate_cost_decision-Named :
    {S : Type 0} (cache : Cache S) (x : External) (print : Value → String)
    (load : Eff S TenantDataCostPolicy) (day tenant : String) (log : IngestLogRequest) (s : S)
    → Named (evaluate_cost_decision cache x print load day tenant log s).0
unfolding evaluate_cost_decision
evaluate_cost_decision-Named cache x print load day tenant log s = bind-Named load _ s λ policy t.
    bind-Named (counter cache x print (usage_key day tenant "bytes")) _ t λ a u.
      bind-Named
        (counter cache x print (dimension_key day tenant "source" (classify_source log) "bytes")) _
        u
        λ b v.
          bind-Named
            (counter cache x print
              (dimension_key day tenant "integration" (classify_integration log) "bytes"))
            _ v
            λ c w.
              bind-Named
                (counter cache x print
                  (dimension_key day tenant "team" (classify_team log) "bytes"))
                _ w λ d z. decide-is_named policy _ _ _ _ _ _
