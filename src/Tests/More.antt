-- ===== src/Tests/More.antt =====
-- Runs of the rate limits of the cache on concrete inputs.
use mini_siem_project.Prelude.{◌+◌, ◌≤◌, [], ◌∷◌, none, true, ◌≡◌, refl, retain, length, arith}
use mini_siem_project.Db.RateLimits.{is_alive, allow_fixed_window}
use mini_siem_project.Db.RateLimits.Sliding.{ask_all, nothing_seen, ask_all-limit}
use mini_siem_project.Db.RateLimits.Fixed.{all_let_in, total, all_let_in-total}

-- Five attempts to sign in, and a sixth within the same minute.
ask_all-limit_example :
    length (
      retain
        (is_alive 60000 7000)
        (ask_all 60000 5 (1000 ∷ 2000 ∷ 3000 ∷ 4000 ∷ 5000 ∷ 6000 ∷ []) nothing_seen).let_in)
    ≤ 5
ask_all-limit_example =
    ask_all-limit 60000 5 0 (1000 ∷ 2000 ∷ 3000 ∷ 4000 ∷ 5000 ∷ 6000 ∷ []) 7000
      (omega arith, (omega arith, (omega arith, (omega arith, (omega arith, (omega arith, tt))))))
      (omega arith)

-- Three requests, each 59 seconds after the one before it, and a limit of three a minute.
three_let_in : all_let_in 60 3 ((0, 1) ∷ (59000, 1) ∷ (118000, 1) ∷ []) none ≡ true
unfolding all_let_in allow_fixed_window
three_let_in = refl

all_let_in-total_example : 1 + total ((59000, 1) ∷ (118000, 1) ∷ []) ≤ 3
all_let_in-total_example =
    all_let_in-total 60 3 0 1 ((59000, 1) ∷ (118000, 1) ∷ []) (omega arith, (omega arith, tt))
      three_let_in
