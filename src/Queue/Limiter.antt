-- ===== src/Queue/Limiter.antt =====
-- The limits per address in the memory of the log consumer: a bucket of tokens for each address,
-- closed for a while once the shared limiter has refused the address.
use Prim.Native.Nat.{max}
use mini_siem_project.Prelude.{ℕ, Bool, true, false, String, List, [], ◌∷◌, if◌then◌else◌, retain}
use mini_siem_project.Prelude.Text.{str_eq}
use mini_siem_project.Prelude.Int.{
  ℤ, pos, ltb_ℤ, leb_ℤ, max_ℤ, saturating_sub, saturating_mul, wrapping_add, wrapping_sub,
  u64_as_i64,
}

-- The operations of `f64` that the buckets use.
pub record Floats (F : Type 0) : Type 0 where
  pub of_ℕ : ℕ → F
  pub of_ℤ : ℤ → F
  pub add : F → F → F
  pub sub : F → F → F
  pub mul : F → F → F
  pub div : F → F → F
  pub min : F → F → F
  pub ge : F → F → Bool

pub record LocalRateLimitState (F : Type 0) : Type 0 where
  pub capacity : F
  pub tokens : F
  pub refill_per_ms : F
  pub last_refill_ms : ℤ
  pub blocked_until_ms : ℤ
  pub last_seen_ms : ℤ

-- The buckets by address.
abbrev pub Limits : Type 0 → Type 0
Limits F = List (String × LocalRateLimitState F)

module _ {F : Type 0} (floats : Floats F) where
  unfoldable pub new_state : ℕ → ℕ → ℤ → LocalRateLimitState F
  new_state limit window_ms now_ms =
      let capacity = floats.of_ℕ (max limit 1) in
      record {
        capacity = capacity;
        tokens = capacity;
        refill_per_ms = floats.div capacity (floats.of_ℕ (max window_ms 1));
        last_refill_ms = now_ms;
        blocked_until_ms = pos 0;
        last_seen_ms = now_ms;
      }

  unfoldable pub touch : ℤ → LocalRateLimitState F → LocalRateLimitState F
  touch now_ms state = record state { last_seen_ms = now_ms }

  unfoldable pub refill : ℤ → LocalRateLimitState F → LocalRateLimitState F
  refill now_ms state =
      if leb_ℤ now_ms state.last_refill_ms
      then state
      else let elapsed_ms = floats.of_ℤ (wrapping_sub now_ms state.last_refill_ms) in
        record state {
          tokens =
              floats.min (floats.add state.tokens (floats.mul elapsed_ms state.refill_per_ms))
                state.capacity;
          last_refill_ms = now_ms;
        }

  unfoldable pub take_token : LocalRateLimitState F → Bool × LocalRateLimitState F
  take_token state =
      if floats.ge state.tokens (floats.of_ℕ 1)
      then (true, record state { tokens = floats.sub state.tokens (floats.of_ℕ 1) })
      else (false, state)

  unfoldable pub allow : ℤ → LocalRateLimitState F → Bool × LocalRateLimitState F
  unfolding touch refill take_token
  allow now_ms state =
      if ltb_ℤ now_ms state.blocked_until_ms
      then (false, touch now_ms state)
      else take_token (refill now_ms (touch now_ms state))

  unfoldable pub block_for : ℤ → ℕ → LocalRateLimitState F → LocalRateLimitState F
  unfolding touch
  block_for now_ms window_ms state = touch now_ms (record state {
    blocked_until_ms = wrapping_add now_ms (u64_as_i64 window_ms);
    tokens = floats.of_ℕ 0;
  })

  -- The bucket of an address, a new one where it has none.
  unfoldable pub entry_or_new : ℕ → ℕ → ℤ → String → Limits F → LocalRateLimitState F
  unfolding new_state
  entry_or_new limit window_ms now_ms ip [] = new_state limit window_ms now_ms
  entry_or_new limit window_ms now_ms ip ((ip', state) ∷ rest) =
      let found = entry_or_new limit window_ms now_ms ip rest in
      if str_eq ip ip' then state else found

  unfoldable pub insert : String → LocalRateLimitState F → Limits F → Limits F
  insert ip state [] = (ip, state) ∷ []
  insert ip state ((ip', state') ∷ rest) =
      let rest' = insert ip state rest in
      if str_eq ip ip' then (ip', state) ∷ rest else (ip', state') ∷ rest'

  -- How long a bucket is kept unused.
  unfoldable pub expiry : ℕ → ℤ
  expiry window_ms = max_ℤ (saturating_mul (u64_as_i64 window_ms) 4) (pos 60000)

  unfoldable pub cleanup : ℕ → ℤ → Limits F → Limits F
  unfolding expiry
  cleanup window_ms now_ms limits =
      retain (λ (ip, state). leb_ℤ (saturating_sub now_ms state.last_seen_ms) (expiry window_ms))
        limits
