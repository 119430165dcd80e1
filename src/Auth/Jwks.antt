-- ===== src/Auth/Jwks.antt =====
-- The keys of the identity provider: fetched, kept for a while and found by their identifier.
-- Times are those of a clock that never goes back, in seconds.
pub mod Laws
use mini_siem_project.Prelude.{
  ℕ, ◌+◌, ltb, Bool, true, false, ◌||◌, String, Option, none, some, List, [], ◌∷◌, if◌then◌else◌,
}
use mini_siem_project.Prelude.Text.{◌++ₛ◌, str_eq}
use mini_siem_project.Prelude.Eff.{Result, ok, err}

pub record Jwk : Type 0 where
  pub kid : Option String
  pub kty : String
  pub n : Option String
  pub e : Option String

-- The keys by their identifier; `K` is the type of a decoding key.
abbrev pub Keys : Type 0 → Type 0
Keys K = List (String × K)

pub record CachedJwks (K : Type 0) : Type 0 where
  pub expires_at : ℕ
  pub stale_until : ℕ
  pub keys : Keys K

-- JWT_JWKS_TTL_SECS, JWT_JWKS_STALE_TTL_SECS and JWT_JWKS_URL, and the key that is used where there
-- is no such URL.
pub record KeySettings (K : Type 0) : Type 0 where
  pub cache_ttl : ℕ
  pub stale_ttl : ℕ
  pub jwks_url : Option String
  pub local_key : Result K

-- The provider's answer and the time at which it has been read.
pub record Fetch : Type 0 where
  pub answer : Result (List Jwk)
  pub at : ℕ

module _ {K : Type 0} where
  unfoldable pub find_key : String → Keys K → Option K
  find_key kid [] = none
  find_key kid ((k, key) ∷ rest) =
      let found = find_key kid rest in if str_eq kid k then some key else found

  unfoldable pub insert_key : String → K → Keys K → Keys K
  insert_key kid key [] = (kid, key) ∷ []
  insert_key kid key ((k, old) ∷ rest) =
      let rest' = insert_key kid key rest in
      if str_eq kid k then (k, key) ∷ rest else (k, old) ∷ rest'

  unfoldable pub cached : KeySettings K → ℕ → Keys K → CachedJwks K
  cached settings at keys = record {
    expires_at = at + settings.cache_ttl;
    stale_until = (at + settings.cache_ttl) + settings.stale_ttl;
    keys = keys;
  }

  -- A key of the cache that may still be used.
  unfoldable pub from_cache : String → ℕ → Option (CachedJwks K) → Option K
  unfolding find_key
  from_cache kid now none = none
  from_cache kid now (some c) =
      if ltb now c.expires_at || ltb now c.stale_until then find_key kid c.keys else none

  -- After a failed fetch, a key of the cache that is not too old.
  unfoldable pub stale_key : String → ℕ → String → Option (CachedJwks K) → Result K
  unfolding find_key
  stale_key kid now e none = err e
  stale_key kid now e (some c) =
      if ltb now c.stale_until
      then (elim (find_key kid c.keys) [ none ↦ err e | some key ↦ ok key ])
      else err e

module _ {K : Type 0} (from_rsa_components : String → String → Result K) where
  abbrev built : String → Keys K → Result K → Result (Keys K)
  built kid keys (ok key) = ok (insert_key kid key keys)
  built kid keys (err e) = err "Failed to build decoding key from JWKS"

  -- One key of the answer: skipped if it is of another type or has no identifier.
  unfoldable pub add_jwk : Jwk → Keys K → Result (Keys K)
  unfolding insert_key
  add_jwk jwk keys =
      if str_eq jwk.kty "RSA"
      then (elim jwk.kid [
        | none ↦ ok keys
        | some kid ↦ elim jwk.n [
          | none ↦ err "JWKS key missing modulus"
          | some n ↦ elim jwk.e [
            | none ↦ err "JWKS key missing exponent"
            | some e ↦ built kid keys (from_rsa_components n e)
          ]
        ]
      ])
      else ok keys

  unfoldable pub collect_keys : List Jwk → Keys K → Result (Keys K)
  unfolding add_jwk
  collect_keys [] keys = ok keys
  collect_keys (jwk ∷ jwks) keys = elim (add_jwk jwk keys) [
    | ok keys' ↦ collect_keys jwks keys'
    | err e ↦ err e
  ]

  unfoldable pub fetch_jwks : KeySettings K → Fetch → Result (CachedJwks K)
  unfolding collect_keys cached
  fetch_jwks settings fetch = elim fetch.answer [
    | err e ↦ err e
    | ok jwks ↦ elim (collect_keys jwks []) [
      | err e ↦ err e
      | ok keys ↦ ok (cached settings fetch.at keys)
    ]
  ]

  -- A lookup at `now`, whose fetch, if it needs one, ends as given; `failed_at` is the time at which
  -- a failed fetch is noticed.
  unfoldable pub fetch_and_find :
      KeySettings K → String → Fetch → ℕ → Option (CachedJwks K) → Result K × Option (CachedJwks K)
  unfolding fetch_jwks find_key stale_key
  fetch_and_find settings kid fetch failed_at cache = elim (fetch_jwks settings fetch) [
    | err e ↦ (stale_key kid failed_at e cache, cache)
    | ok fetched ↦ elim (find_key kid fetched.keys) [
      | none ↦ (err ("No JWKS key found for kid " ++ₛ kid), cache)
      | some key ↦ (ok key, some fetched)
    ]
  ]

  -- The key for a token that names `kid`, where the keys are at a URL.
  unfoldable pub remote_key :
      KeySettings K
      → Option String
      → ℕ
      → Fetch
      → ℕ
      → Option (CachedJwks K)
      → Result K × Option (CachedJwks K)
  unfolding from_cache fetch_and_find
  remote_key settings none now fetch failed_at cache = (err "JWT header missing kid", cache)
  remote_key settings (some kid) now fetch failed_at cache = elim (from_cache kid now cache) [
    | some key ↦ (ok key, cache)
    | none ↦ fetch_and_find settings kid fetch failed_at cache
  ]

  unfoldable pub get_decoding_key_for_kid :
      KeySettings K
      → Option String
      → ℕ
      → Fetch
      → ℕ
      → Option (CachedJwks K)
      → Result K × Option (CachedJwks K)
  unfolding remote_key
  get_decoding_key_for_kid settings kid now fetch failed_at cache = elim settings.jwks_url [
    | none ↦ (settings.local_key, cache)
    | some url ↦ remote_key settings kid now fetch failed_at cache
  ]

  -- One round of the task that refreshes the keys.
  unfoldable pub refresh : KeySettings K → Fetch → Option (CachedJwks K) → Option (CachedJwks K)
  unfolding fetch_jwks
  refresh settings fetch cache = elim (fetch_jwks settings fetch) [
    | ok fetched ↦ some fetched
    | err e ↦ cache
  ]
