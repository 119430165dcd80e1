-- ===== src/Db/RateLimits.antt =====
-- The two rate limits of the cache server (backend/src/db/redis.rs), as the scripts that run in it:
-- a sorted set of the moments of the requests that were let in, and a counter that expires. Moments
-- are milliseconds.
pub mod Sliding
pub mod Fixed
use mini_siem_project.Prelude.{
  ℕ, ◌+◌, ◌*◌, ◌==◌, leb, ltb, any, retain, length, Bool, true, false, String, Option, none, some,
  List, [], ◌∷◌, if◌then◌else◌,
}
use mini_siem_project.Prelude.Text.{◌++ₛ◌}
use mini_siem_project.Prelude.Eff.{Eff}

-- The moment still counts in a window that ends now.
abbrev pub is_alive : ℕ → ℕ → ℕ → Bool
is_alive window now t = ltb now (t + window)

-- ZADD with the moment as member and score: a member that is there is not added again.
abbrev pub zadd : ℕ → List ℕ → List ℕ
zadd now times = if any (λ t. t == now) times then times else now ∷ times

-- The script of the sliding window on the set of one key.
unfoldable pub allow_sliding_window : ℕ → ℕ → ℕ → List ℕ → Bool × List ℕ
allow_sliding_window window_ms limit now times =
    let kept = retain (is_alive window_ms now) times in
    if ltb (length kept) limit then (true, zadd now kept) else (false, kept)

-- A counter and the moment in which it expires.
pub record Counter : Type 0 where
  pub value : ℕ
  pub expires_at : ℕ

abbrev pub current : ℕ → Option Counter → ℕ
current now none = 0
current now (some c) = if ltb now c.expires_at then c.value else 0

abbrev pub live : ℕ → Option Counter → Option Counter
live now none = none
live now (some c) = if ltb now c.expires_at then some c else none

-- The script of the fixed window on the counter of one key; each request that is let in sets the
-- time to expire anew.
unfoldable pub allow_fixed_window : ℕ → ℕ → ℕ → ℕ → Option Counter → Bool × Option Counter
allow_fixed_window window_seconds limit cost now counter =
    if leb (current now counter + cost) limit
    then (
      true,
      some
          (record { value = current now counter + cost; expires_at = now + window_seconds * 1000 }),
    )
    else (false, live now counter)

-- SETEX and EXISTS for suppressed alerts, and SETEX and GET for the reputation of an address.
pub record Marks (S : Type 0) : Type 0 where
  pub set_ex : String → String → ℕ → Eff S (Unit {0})
  pub exists_key : String → Eff S Bool
  pub set_score : String → ℕ → ℕ → Eff S (Unit {0})
  pub get_score : String → Eff S (Option ℕ)

abbrev suppression_key : String → String → String
suppression_key rule_id ip = "suppress:" ++ₛ rule_id ++ₛ ":" ++ₛ ip

module _ {S : Type 0} (marks : Marks S) where
  unfoldable pub set_suppression : String → String → ℕ → Eff S (Unit {0})
  set_suppression rule_id ip ttl_seconds = marks.set_ex (suppression_key rule_id ip) "1" ttl_seconds

  unfoldable pub is_suppressed : String → String → Eff S Bool
  is_suppressed rule_id ip = marks.exists_key (suppression_key rule_id ip)

  unfoldable pub set_ip_reputation : String → ℕ → ℕ → Eff S (Unit {0})
  set_ip_reputation ip score ttl_seconds = marks.set_score ("reputation:" ++ₛ ip) score ttl_seconds

  unfoldable pub get_ip_reputation : String → Eff S (Option ℕ)
  get_ip_reputation ip = marks.get_score ("reputation:" ++ₛ ip)
