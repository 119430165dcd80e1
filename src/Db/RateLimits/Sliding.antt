-- ===== src/Db/RateLimits/Sliding.antt =====
-- How many requests the sliding window lets in.
use mini_siem_project.Prelude.{
  ℕ, ◌≤◌, ◌<◌, ◌==◌, leb, ltb, any, all, retain, length, Bool, true, false, List, [], ◌∷◌, ◌≡◌, ap,
  refl, Bool-cases, inl, inr, if◌then◌else◌, arith,
}
use mini_siem_project.Db.RateLimits.{is_alive, allow_sliding_window}

-- The set of moments in the cache, and the moments of all requests that were let in.
pub record Seen : Type 0 where
  pub times : List ℕ
  pub let_in : List ℕ

abbrev pub nothing_seen : Seen
nothing_seen = record { times = []; let_in = [] }

module _ (window limit : ℕ) where
  abbrev pub ask : ℕ → Seen → Seen
  ask now s =
      let (allowed, times) = allow_sliding_window window limit now s.times in
      record { times = times; let_in = if allowed then now ∷ s.let_in else s.let_in }

  -- Requests one after the other, the first one first.
  unfoldable pub ask_all : List ℕ → Seen → Seen
  ask_all [] s = s
  ask_all (now ∷ nows) s = ask_all nows (ask now s)

  -- Each moment is after the one before it, and the first after a given one.
  abbrev pub Increasing : ℕ → List ℕ → Type 0
  Increasing last [] = Unit
  Increasing last (now ∷ nows) = (last < now) × Increasing now nows

  abbrev pub last_of : ℕ → List ℕ → ℕ
  last_of last [] = last
  last_of last (now ∷ nows) = last_of now nows

  length-retain : (p : ℕ → Bool) (xs : List ℕ) → length (retain p xs) ≤ length xs
  length-retain p [] = omega arith
  length-retain p (x ∷ xs) = ground (arith, length-retain p xs)

  -- What is alive later is alive now.
  retain-retain :
      (n now : ℕ) (xs : List ℕ)
      → now ≤ n
      → retain (is_alive window n) (retain (is_alive window now) xs) ≡ retain (is_alive window n) xs
  retain-retain n now [] h = refl
  retain-retain n now (x ∷ xs) h = ground (arith, h, retain-retain n now xs h)

  -- No moment of the list is after the last one.
  abbrev is_old : ℕ → List ℕ → Bool
  is_old last xs = all (λ t. leb t last) xs

  is_old-retain :
      (p : ℕ → Bool) (last now : ℕ) (xs : List ℕ)
      → last ≤ now
      → is_old last xs ≡ true
      → is_old now (retain p xs) ≡ true
  is_old-retain p last now [] l h = refl
  is_old-retain p last now (x ∷ xs) l h =
      ground (arith, l, h, is_old-retain p last now xs l (ground (arith, h)))

  is_new :
      (p : ℕ → Bool) (last now : ℕ) (xs : List ℕ)
      → last < now
      → is_old last xs ≡ true
      → any (λ t. t == now) (retain p xs) ≡ false
  is_new p last now [] l h = refl
  is_new p last now (x ∷ xs) l h = ground (arith, l, h, is_new p last now xs l (ground (arith, h)))

  -- The set and the requests let in agree on what is alive from now on, and the set is within the
  -- limit.
  Faithful : ℕ → Seen → Type 0
  Faithful now s =
      ((n : ℕ) → now ≤ n → retain (is_alive window n) s.times ≡ retain (is_alive window n) s.let_in)
      × (is_old now s.times ≡ true)
      × (length s.times ≤ limit)

  let_in_once :
      (last now : ℕ) (s : Seen)
      → last < now
      → Faithful last s
      → ltb (length (retain (is_alive window now) s.times)) limit ≡ true
      → Faithful now (ask now s)
  unfolding allow_sliding_window Faithful
  let_in_once last now s l (agree, old, small) e =
      let kept = retain (is_alive window now) s.times in
      let fresh = is_new (is_alive window now) last now s.times l old in
      (
        λ n h.
            ground (arith, e, fresh, retain-retain n now s.times h, agree n (omega (arith, l, h))),
        ground (
          arith,
          e,
          fresh,
          is_old-retain (is_alive window now) last now s.times (omega (arith, l)) old,
        ),
        ground (arith, e, fresh),
      )

  refused_once :
      (last now : ℕ) (s : Seen)
      → last < now
      → Faithful last s
      → ltb (length (retain (is_alive window now) s.times)) limit ≡ false
      → Faithful now (ask now s)
  unfolding allow_sliding_window Faithful
  refused_once last now s l (agree, old, small) e = (
    λ n h. ground (arith, e, retain-retain n now s.times h, agree n (omega (arith, l, h))),
    ground (arith, e, is_old-retain (is_alive window now) last now s.times (omega (arith, l)) old),
    ground (arith, e, small, length-retain (is_alive window now) s.times),
  )

  ask-Faithful : (last now : ℕ) (s : Seen) → last < now → Faithful last s → Faithful now (ask now s)
  ask-Faithful last now s l f =
      elim (Bool-cases (ltb (length (retain (is_alive window now) s.times)) limit)) [
        | inl e ↦ let_in_once last now s l f e
        | inr e ↦ refused_once last now s l f e
      ]

  ask_all-Faithful :
      (last : ℕ) (nows : List ℕ) (s : Seen)
      → Increasing last nows
      → Faithful last s
      → Faithful (last_of last nows) (ask_all nows s)
  unfolding ask_all
  ask_all-Faithful last [] s i f = f
  ask_all-Faithful last (now ∷ nows) s (l, i) f =
      ask_all-Faithful now nows (ask now s) i (ask-Faithful last now s l f)

  -- Of requests in different milliseconds, the sliding window lets in no more than the limit in any
  -- window that ends with the last request or later.
  pub ask_all-limit :
      (first : ℕ) (nows : List ℕ) (n : ℕ)
      → Increasing first nows
      → last_of first nows ≤ n
      → length (retain (is_alive window n) (ask_all nows nothing_seen).let_in) ≤ limit
  unfolding Faithful
  ask_all-limit first nows n i h =
      let (agree, old, small) =
        ask_all-Faithful first nows nothing_seen i (λ m k. refl, refl, omega arith) in
      let s = ask_all nows nothing_seen in
      omega
        (arith, small, length-retain (is_alive window n) s.times, ap (λ xs. length xs) (agree n h))
