-- ===== src/Auth/Jwks/Laws.antt =====
-- Where a key comes from, and how old it can be.
use mini_siem_project.Prelude.{ℕ, ◌+◌, ◌≤◌, String, Option, none, some, List, [], ◌∷◌, ◌≡◌}
use mini_siem_project.Prelude.Eff.{Result, ok}
use mini_siem_project.Auth.Jwks.{
  CachedJwks, KeySettings, Fetch, find_key, fetch_jwks, get_decoding_key_for_kid, refresh,
}

pub data In (f : Fetch) : List Fetch → Type 0 where
  here : {fs : List Fetch} → In f (f ∷ fs)
  there : {g : Fetch} {fs : List Fetch} → In f fs → In f (g ∷ fs)

module _ {K : Type 0} (from_rsa : String → String → Result K) (settings : KeySettings K) where
  -- The caches that lookups and rounds of the refreshing task can lead to, with all fetches that
  -- were at hand, the last one first.
  pub data Reach : List Fetch → Option (CachedJwks K) → Type 0 where
    start : Reach [] none
    looked_up :
        {fs : List Fetch} {cache : Option (CachedJwks K)} (kid : Option String) (now : ℕ)
        (fetch : Fetch) (failed_at : ℕ)
        → Reach fs cache
        → Reach
            (fetch ∷ fs)
            (get_decoding_key_for_kid from_rsa settings kid now fetch failed_at cache).1
    refreshed :
        {fs : List Fetch} {cache : Option (CachedJwks K)} (fetch : Fetch)
        → Reach fs cache
        → Reach (fetch ∷ fs) (refresh from_rsa settings fetch cache)

  -- The cache is what one of the fetches gave.
  data Known (fs : List Fetch) : Option (CachedJwks K) → Type 0 where
    nothing : Known fs none
    known :
        (f : Fetch) (c : CachedJwks K)
        → In f fs
        → fetch_jwks from_rsa settings f ≡ ok c
        → Known fs (some c)

  -- One of the fetches gave the key for the identifier, and it is not too old for use at `now`.
  pub data Vouched (fs : List Fetch) (kid : String) (key : K) (now : ℕ) : Type 0 where
    vouched :
        (f : Fetch) (c : CachedJwks K)
        → In f fs
        → fetch_jwks from_rsa settings f ≡ ok c
        → find_key kid c.keys ≡ some key
        → now ≤ f.at + (settings.cache_ttl + settings.stale_ttl)
        → Vouched fs kid key now
