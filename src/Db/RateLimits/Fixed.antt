-- ===== src/Db/RateLimits/Fixed.antt =====
-- What the counter of the fixed window lets in.
use mini_siem_project.Prelude.{
  ℕ, ◌+◌, ◌*◌, ◌≤◌, ◌<◌, Bool, true, ◌&&◌, Option, none, some, List, [], ◌∷◌, ◌≡◌, arith,
}
use mini_siem_project.Db.RateLimits.{Counter, allow_fixed_window}

-- A request: its moment and its cost.
abbrev pub Requests : Type 0
Requests = List (ℕ × ℕ)

abbrev pub total : Requests → ℕ
total [] = 0
total ((now, cost) ∷ rs) = cost + total rs

module _ (window limit : ℕ) where
  -- The counter after requests one after the other, and whether all of them were let in.
  unfoldable pub all_let_in : Requests → Option Counter → Bool
  all_let_in [] counter = true
  all_let_in ((now, cost) ∷ rs) counter =
      let (allowed, counter') = allow_fixed_window window limit cost now counter in
      let rest = all_let_in rs counter' in allowed && rest

  -- Each request is less than a window after the one before it.
  abbrev pub Close : ℕ → Requests → Type 0
  Close last [] = Unit
  Close last ((now, cost) ∷ rs) = (now < last + window * 1000) × Close now rs

  all_let_in-from :
      (rs : Requests) (last value : ℕ)
      → Close last rs
      → value ≤ limit
      → all_let_in rs (some (record { value = value; expires_at = last + window * 1000 })) ≡ true
      → value + total rs ≤ limit
  unfolding all_let_in allow_fixed_window
  all_let_in-from [] last value c v h = omega (arith, v)
  all_let_in-from ((now, cost) ∷ rs) last value (c, cs) v h =
      let fits : value + cost ≤ limit = ground (arith, c, h) in
      let rest = all_let_in-from rs now (value + cost) cs fits (ground (arith, c, h, fits)) in
      omega (arith, rest)

  -- Requests that are each less than a window after the one before them are only all let in if they
  -- cost no more than the limit together, however long they take: the window begins anew with each
  -- of them.
  pub all_let_in-total :
      (now cost : ℕ) (rs : Requests)
      → Close now rs
      → all_let_in ((now, cost) ∷ rs) none ≡ true
      → cost + total rs ≤ limit
  unfolding all_let_in allow_fixed_window
  all_let_in-total now cost rs c h =
      let fits : cost ≤ limit = ground (arith, h) in
      all_let_in-from rs now cost c fits (ground (arith, h, fits))
