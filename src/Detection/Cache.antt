-- ===== src/Detection/Cache.antt =====
-- The cache behind the rules: the methods of the trait `Cache` that they call
-- (backend/src/db/cache.rs). `S` is the state of the service behind it.
pub mod Reliable
use mini_siem_project.Prelude.{ℕ, String, Option}
use mini_siem_project.Prelude.Int.{ℤ}
use mini_siem_project.Prelude.Eff.{Eff}

pub record Cache (S : Type 0) : Type 0 where
  pub increment_counter : String → ℕ → Eff S ℕ
  pub get_counter : String → Eff S (Option ℕ)
  pub get_ip_reputation : String → Eff S (Option ℕ)
  pub get_string : String → Eff S (Option String)
  pub set_string : String → String → Option ℕ → Eff S (Unit {0})
  pub delete_key : String → Eff S (Unit {0})
  pub expire_key : String → ℕ → Eff S (Unit {0})
  pub zadd : String → String → ℤ → Eff S (Unit {0})
  pub zcard : String → Eff S ℕ
  pub zpopmin : String → Eff S (Option String)
  pub zrem : String → String → Eff S (Unit {0})
