-- ===== src/Detection/Rules/Correlation/Stages.antt =====
-- How many matching events a group still needs.
use Prim.Native.Nat.{max}
use mini_siem_project.Prelude.{
  ℕ, zero, suc, ◌+◌, ◌-◌, ◌^◌, ◌≤◌, ◌<◌, ◌≡◌, refl, inl, inr, true, false, Option, none, some, List,
  [], ◌∷◌, length, get_elem?, All, arith, leb→le, leb_false→lt, leb, Bool-cases, Option-cases,
}
use native.Mathlib.Numerals.{add-one}
use mini_siem_project.Prelude.Int.{ℤ}
use mini_siem_project.Types.Log.{Log, Call}
use mini_siem_project.Types.External.{External}
use mini_siem_project.Detection.Evaluator.{evaluate}
use mini_siem_project.Detection.Rules.Correlation.State.{
  CorrelationStage, CorrelationState, Progress, complete, carry, advance, stage_event, counted,
}

-- The matching events that complete the rule from event `e` of stage `i`: at least one a stage.
unfoldable pub remaining : List CorrelationStage → ℕ → ℕ → ℕ
remaining [] i e = 0
remaining (s ∷ ss) zero e = max 1 (s.min_count - e) + remaining ss 0 0
remaining (s ∷ ss) (suc i) e = remaining ss i e

-- The counter is short of the stage's count, which is a `u32`.
abbrev pub Fits : Option CorrelationStage → CorrelationState → Type 0
Fits none st = Unit
Fits (some s) st = (st.events_in_stage < max 1 s.min_count) × (s.min_count < 2 ^ 32)

remaining-zero : (ss : List CorrelationStage) (i : ℕ) → length ss ≤ i → remaining ss i 0 ≡ 0
unfolding remaining
remaining-zero [] i h = refl
remaining-zero (s ∷ ss) zero h = elim h [ ]
remaining-zero (s ∷ ss) (suc i) h = remaining-zero ss i (omega arith)

remaining-pos : (ss : List CorrelationStage) (i : ℕ) → i < length ss → 0 < remaining ss i 0
unfolding remaining
remaining-pos [] i h = elim h [ ]
remaining-pos (s ∷ ss) zero h = omega arith
remaining-pos (s ∷ ss) (suc i) h = remaining-pos ss i (omega arith)

remaining-next :
    (ss : List CorrelationStage) (i e : ℕ) (s : CorrelationStage)
    → get_elem? ss i ≡ some s
    → remaining ss i e ≡ max 1 (s.min_count - e) + remaining ss (suc i) 0
unfolding remaining
remaining-next [] i e s h = cc
remaining-next (t ∷ ss) zero e s h = ground arith
remaining-next (t ∷ ss) (suc i) e s h = remaining-next ss i e s h

abbrev left_of : List CorrelationStage → CorrelationState → ℕ
left_of ss st = remaining ss st.current_stage_idx st.events_in_stage

remaining_split :
    (ss : List CorrelationStage) (i e : ℕ) (s : CorrelationStage)
    → get_elem? ss i ≡ some s
    → remaining ss i e ≡ max 1 (s.min_count - e) + remaining ss (i + 1) 0
remaining_split ss i e s h = rw add-one (remaining-next ss i e s h)

-- One more event towards the end: the rule is complete and this was the last event that it needed,
-- or the group needs one event fewer.
pub Closer : List CorrelationStage → CorrelationState → Progress → Type 0
Closer ss st complete = left_of ss st ≡ 1
Closer ss st (carry st') =
    (suc (left_of ss st') ≡ left_of ss st)
    × (0 < left_of ss st')
    × Fits (get_elem? ss st'.current_stage_idx) st'

fresh-Fits :
    (ss : List CorrelationStage) (i : ℕ) (st : CorrelationState)
    → st.events_in_stage ≡ 0
    → All (λ u. u.min_count < 2 ^ 32) ss
    → Fits (get_elem? ss i) st
fresh-Fits [] i st e h = tt
fresh-Fits (s ∷ ss) zero st e h = (omega (arith, e), h.0)
fresh-Fits (s ∷ ss) (suc i) st e h = fresh-Fits ss i st e h.1

module _ (ss : List CorrelationStage) (s : CorrelationStage) (t : ℤ) (st : CorrelationState)
    (small : All (λ u. u.min_count < 2 ^ 32) ss) (here : get_elem? ss st.current_stage_idx ≡ some s)
    (fits : Fits (some s) st) where
  counted_lem : counted st ≡ st.events_in_stage + 1
  counted_lem = omega (arith, fits.0, fits.1)

  -- The stage is full: the next one, or the end.
  full_stage :
      leb s.min_count (st.events_in_stage + 1) ≡ true → Closer ss st (stage_event ss s t st)
  unfolding Closer
  full_stage full = elim (Bool-cases (leb (length ss) (st.current_stage_idx + 1))) [
    | inl last ↦
        rw (counted_lem, full, last)
          (omega (
            arith,
            remaining_split ss st.current_stage_idx st.events_in_stage s here,
            remaining-zero ss (st.current_stage_idx + 1) (leb→le _ _ last),
            leb→le _ _ full,
            fits.0,
          ))
    | inr more ↦
        rw (counted_lem, full, more)
          (
            omega (
              arith,
              remaining_split ss st.current_stage_idx st.events_in_stage s here,
              leb→le _ _ full,
              fits.0,
            ),
            remaining-pos ss (st.current_stage_idx + 1) (leb_false→lt _ _ more),
            fresh-Fits ss (st.current_stage_idx + 1) _ refl small,
          )
  ]

  part_stage :
      leb s.min_count (st.events_in_stage + 1) ≡ false → Closer ss st (stage_event ss s t st)
  unfolding Closer
  part_stage part =
      rw (counted_lem, part)
        (
          omega (
            arith,
            remaining_split ss st.current_stage_idx st.events_in_stage s here,
            remaining_split ss st.current_stage_idx (st.events_in_stage + 1) s here,
            leb_false→lt _ _ part,
          ),
          omega (arith, remaining_split ss st.current_stage_idx (st.events_in_stage + 1) s here),
          rw here (omega (arith, leb_false→lt _ _ part), fits.1),
        )

  stage_event-Closer : Closer ss st (stage_event ss s t st)
  stage_event-Closer = elim (Bool-cases (leb s.min_count (st.events_in_stage + 1))) [
    | inl full ↦ full_stage full
    | inr part ↦ part_stage part
  ]

-- Every stage's condition holds of the log.
abbrev pub MatchesAll : External → List CorrelationStage → Call × Log → Type 0
MatchesAll x ss (c, log) = All (λ s. evaluate x c log s.condition ≡ true) ss

MatchesAll-get :
    (x : External) (c : Call) (log : Log) (ss : List CorrelationStage) (i : ℕ)
    (s : CorrelationStage)
    → MatchesAll x ss (c, log)
    → get_elem? ss i ≡ some s
    → evaluate x c log s.condition ≡ true
MatchesAll-get x c log [] i s h e = cc
MatchesAll-get x c log (t ∷ ss) zero s h e = ground (arith, h.0)
MatchesAll-get x c log (t ∷ ss) (suc i) s h e = MatchesAll-get x c log ss i s h.1 e

get_elem?-none : (ss : List CorrelationStage) (i : ℕ) → get_elem? ss i ≡ none → length ss ≤ i
get_elem?-none [] i e = omega arith
get_elem?-none (s ∷ ss) zero e = cc
get_elem?-none (s ∷ ss) (suc i) e = omega (arith, get_elem?-none ss i e)

remaining-beyond : (ss : List CorrelationStage) (i e : ℕ) → length ss ≤ i → remaining ss i e ≡ 0
unfolding remaining
remaining-beyond [] i e h = refl
remaining-beyond (s ∷ ss) zero e h = elim h [ ]
remaining-beyond (s ∷ ss) (suc i) e h = remaining-beyond ss i e (omega arith)

-- A log that every stage's condition holds of brings a group one event closer to the end: it completes
-- the rule exactly where the group needed this one event only, counting one event at least for each
-- stage, and else leaves a group that needs one event fewer and at least one, with fewer events in its
-- stage than that asks for. This is for counts of 32 bits and a group that still needs some events, and
-- is about the step through the stages, inside the window and with the group's state at hand.
pub advance-Closer :
    (x : External) (c : Call) (log : Log) (ss : List CorrelationStage) (t : ℤ)
    (st : CorrelationState)
    → All (λ u. u.min_count < 2 ^ 32) ss
    → Fits (get_elem? ss st.current_stage_idx) st
    → 0 < left_of ss st
    → MatchesAll x ss (c, log)
    → Closer ss st (advance x c log ss t st)
unfolding advance
advance-Closer x c log ss t st small fits more matches =
    elim (Option-cases (get_elem? ss st.current_stage_idx)) [
      | inl beyond ↦ absurd (
          omega (
            arith,
            more,
            remaining-beyond ss st.current_stage_idx st.events_in_stage
                (get_elem?-none ss _ beyond),
          ))
      | inr (s, here) ↦
          rw (here, MatchesAll-get x c log ss st.current_stage_idx s matches here)
            (stage_event-Closer ss s t st small here (rw here at fits))
    ]
