-- ===== src/Costs/Keys.antt =====
-- The names of the counters of a tenant on a day (backend/src/costs.rs). `day` is what `today_bucket`
-- answers with.
use mini_siem_project.Prelude.{String}
use mini_siem_project.Prelude.Text.{◌++ₛ◌}

abbrev key_prefix : String → String → String
key_prefix day t = "siem:tenant:" ++ₛ t ++ₛ ":cost:" ++ₛ day ++ₛ ":"

-- What is counted: `bytes`, `logs`, `sampled` or `dropped`.
unfoldable pub usage_key : String → String → String → String
usage_key day t what = key_prefix day t ++ₛ what

-- The same for one source, integration or team.
unfoldable pub dimension_key : String → String → String → String → String → String
dimension_key day t dimension key what =
    key_prefix day t ++ₛ dimension ++ₛ ":" ++ₛ key ++ₛ ":" ++ₛ what

unfoldable pub rank_key : String → String → String → String
rank_key day t dimension = key_prefix day t ++ₛ dimension ++ₛ ":rank"

unfoldable pub policy_cache_key : String → String
policy_cache_key t = "siem:tenant:" ++ₛ t ++ₛ ":cost:policy"
