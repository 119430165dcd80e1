-- ===== src/Api/Tenant.antt =====
-- The quota of a tenant for a resource: so many a minute.
use mini_siem_project.Prelude.{ℕ, ◌%◌, ◌^◌, Bool, true, false, String, [], ◌∷◌}
use mini_siem_project.Prelude.Text.{◌++ₛ◌}
use mini_siem_project.Prelude.Eff.{Result, ok, err, Eff}
use mini_siem_project.Api.Handler.{Handler, done, with_fields, outcome_of, ◌>>=◌}

-- The script of the cache server that counts requests in windows: its key, the window in seconds,
-- the limit and the cost of this request.
abbrev pub FixedWindow : Type 0 → Type 0
FixedWindow S = String → ℕ → ℕ → ℕ → Eff S Bool

module _ {S R : Type 0} where
  unfoldable pub quota_answer : String → Result Bool → Handler S R (Unit {0})
  quota_answer resource (ok true) = done tt
  quota_answer resource (ok false) =
      with_fields 429 (("error", "tenant quota exceeded") ∷ ("resource", resource) ∷ [])
  quota_answer resource (err e) = with_fields 500 (("error", "quota check failed: " ++ₛ e) ∷ [])

  unfoldable pub enforce_tenant_fixed_window :
      FixedWindow S → String → String → ℕ → ℕ → Handler S R (Unit {0})
  unfolding quota_answer
  enforce_tenant_fixed_window allow_fixed_window tenant_id resource limit cost = do
    r ← outcome_of (
        allow_fixed_window ("siem:tenant:" ++ₛ tenant_id ++ₛ ":quota:" ++ₛ resource) 60
          (limit % 2 ^ 32) (cost % 2 ^ 32))
    quota_answer resource r
