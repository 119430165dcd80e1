-- ===== src/Detection/Rules/Laws.antt =====
-- When the single-event rules fire.
use mini_siem_project.Prelude.{
  ℕ, suc, ◌+◌, String, ◌≡◌, refl, Bool, true, false, not, ◌&&◌, ◌||◌, Option, none, some, List, [],
  ◌∷◌, ◌++◌, map, is_some, is_empty, leb, arith, if◌then◌else◌,
}
use mini_siem_project.Prelude.Text.{str_eq}
use mini_siem_project.Prelude.Int.{i64_as_u64}
use mini_siem_project.Prelude.Eff.{Result, ok, err}
use mini_siem_project.Types.Log.{Log, Call, is_failed_login}
use mini_siem_project.Types.External.{External}
use mini_siem_project.Detection.Cache.{Cache}
use mini_siem_project.Detection.Rules.BruteForce
use mini_siem_project.Detection.Rules.BruteForce.{BruteForceRule}
use mini_siem_project.Detection.Rules.Malware
use mini_siem_project.Detection.Rules.Malware.{
  MalwareDetectionRule, check_ip, find_simple_iocs, message_reasons, reputation_reasons,
}

-- The counters behind the cache: INCR adds one to the counter at a key, which no other key shares,
-- over a time in which no counter expires.
pub record Counters {S : Type 0} (cache : Cache S) (count : S → String → ℕ) : Type 0 where
  pub incr_ok :
      (k : String) (e : ℕ) (s : S) → (cache.increment_counter k e s).0 ≡ ok (suc (count s k))
  pub incr_count :
      (k : String) (e : ℕ) (s : S) (j : String)
      → count (cache.increment_counter k e s).1 j
        ≡ (if str_eq k j then suc (count s j) else count s j)

-- The failed logins from an address in a run of evaluations, whichever rules make them.
unfoldable pub failures : String → List (BruteForceRule × Call × Log) → ℕ
failures ip [] = 0
failures ip ((r, c, log) ∷ rest) =
    (if is_failed_login log && str_eq log.source_ip ip then 1 else 0) + failures ip rest

module _ {S : Type 0} (cache : Cache S) (count : S → String → ℕ) (laws : Counters cache count) where
  pub run_rules : List (BruteForceRule × Call × Log) → S → S
  run_rules [] s = s
  run_rules ((r, c, log) ∷ rest) s = run_rules rest (BruteForce.evaluate cache r c log s).1

  evaluate-count :
      (r : BruteForceRule) (c : Call) (log : Log) (s : S) (ip : String)
      → count (BruteForce.evaluate cache r c log s).1 ip
        ≡ (if is_failed_login log && str_eq log.source_ip ip then 1 else 0) + count s ip
  unfolding BruteForce.evaluate
  evaluate-count r c log s ip = ground (
    arith,
    laws.incr_ok log.source_ip (i64_as_u64 r.window_seconds) s,
    laws.incr_count log.source_ip (i64_as_u64 r.window_seconds) s ip,
  )

  run_rules-count :
      (events : List (BruteForceRule × Call × Log)) (s : S) (ip : String)
      → count (run_rules events s) ip ≡ failures ip events + count s ip
  unfolding run_rules failures
  run_rules-count [] s ip = omega arith
  run_rules-count ((r, c, log) ∷ rest) s ip = omega (
    arith,
    run_rules-count rest (BruteForce.evaluate cache r c log s).1 ip,
    evaluate-count r c log s ip,
  )

  -- On counters that keep their laws and from a count of zero for the address, after any evaluations
  -- of brute force rules, by whatever rules of whatever tenants, a failed login raises an alert
  -- exactly when the failed logins from its address, counted over all of those evaluations and this
  -- one, reach the threshold of the rule; the alert has that count.
  pub brute_force_fires :
      (events : List (BruteForceRule × Call × Log)) (s : S) (r : BruteForceRule) (c : Call)
      (log : Log)
      → count s log.source_ip ≡ 0
      → is_failed_login log ≡ true
      → (BruteForce.evaluate cache r c log (run_rules events s)).0
        ≡ ok (
            if leb r.threshold (suc (failures log.source_ip events))
            then some (BruteForce.brute_force_alert r c log (suc (failures log.source_ip events)))
            else none)
  unfolding BruteForce.evaluate
  brute_force_fires events s r c log zeroed failed =
      rw
        (
          failed,
          laws.incr_ok log.source_ip (i64_as_u64 r.window_seconds) (run_rules events s),
          total,
        )
        refl
    where
      total : count (run_rules events s) log.source_ip ≡ failures log.source_ip events
      total = omega (arith, run_rules-count events s log.source_ip, zeroed)

abbrev pub answer {ℓ} : {A : Type ℓ} → Result (Option A) → Option A
answer (ok a) = a
answer (err e) = none

-- A reputation score that counts against an address.
abbrev pub is_high_risk : Option ℕ → Bool
is_high_risk none = false
is_high_risk (some score) = leb 80 score

is_empty-append : {A : Type 0} (xs ys : List A) → is_empty (xs ++ ys) ≡ (is_empty xs && is_empty ys)
is_empty-append [] ys = refl
is_empty-append (x ∷ xs) ys = refl

is_empty-map : {A B : Type 0} (f : A → B) (xs : List A) → is_empty (map f xs) ≡ is_empty xs
is_empty-map f [] = refl
is_empty-map f (x ∷ xs) = refl

is_some-if : {A : Type 0} (b : Bool) (a : A) → is_some (if b then none else some a) ≡ not b
is_some-if true a = refl
is_some-if false a = refl

single : {A : Type 0} (b : Bool) (a : A) → is_empty (if b then a ∷ [] else []) ≡ not b
single true a = refl
single false a = refl

reputation-is_empty :
    (score : Option ℕ) → is_empty (reputation_reasons score) ≡ not (is_high_risk score)
reputation-is_empty none = refl
reputation-is_empty (some n) = single (leb 80 n) _

four_flags : (a b c d : Bool) → not ((not a && (b && not c)) && not d) ≡ (a || (not b || (c || d)))
four_flags true b c d = refl
four_flags false true true d = refl
four_flags false true false true = refl
four_flags false true false false = refl
four_flags false false c d = refl

-- Where the cache answers with a reputation, the malware rule raises an alert exactly when the
-- address is a known bad one, or the message has an indicator or a suspicious command, or the
-- reputation is 80 or more; and it leaves the cache as that one question left it.
pub malware_fires :
    {S : Type 0} (cache : Cache S) (x : External) (r : MalwareDetectionRule) (c : Call) (log : Log)
    (score : Option ℕ) (s t : S)
    → cache.get_ip_reputation log.source_ip s ≡ (ok score, t)
    → ((Malware.evaluate cache x r c log s).1 ≡ t)
      × (is_some (answer (Malware.evaluate cache x r c log s).0) ≡ (
          check_ip log.source_ip
          || (not (is_empty (find_simple_iocs x log.message))
              || (x.is_complex_match log.message || is_high_risk score))))
unfolding Malware.evaluate message_reasons
malware_fires cache x r c log score s t e = rw e (
  refl,
  simp (is_some-if, is_empty-append, is_empty-map, single, reputation-is_empty)
      (four_flags (check_ip log.source_ip) (is_empty (find_simple_iocs x log.message))
        (x.is_complex_match log.message) (is_high_risk score)),
)
