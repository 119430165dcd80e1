-- ===== src/Db/RefreshTokens.antt =====
-- Refresh tokens in the cache (backend/src/db/redis.rs): a key for the hash of each token, with the
-- tenant and the user, and a set of hashes for each user.
use mini_siem_project.Prelude.{ℕ, String, Option, none, some, List, [], ◌∷◌}
use mini_siem_project.Prelude.Int.{ℤ, u64_as_i64}
use mini_siem_project.Prelude.Text.{◌++ₛ◌, split_on}
use mini_siem_project.Prelude.Eff.{Result, Eff, pure, ◌>>=◌, ◌>>◌}

-- SETEX, GET, DEL, EXPIRE, SADD, SREM and SMEMBERS, and the hash of a token.
pub record TokenServer (S : Type 0) : Type 0 where
  pub set_ex : String → String → ℕ → Eff S (Unit {0})
  pub get_key : String → Eff S (Option String)
  pub del : String → Eff S (Unit {0})
  pub expire : String → ℤ → Eff S (Unit {0})
  pub sadd : String → String → Eff S (Unit {0})
  pub srem : String → String → Eff S (Unit {0})
  pub smembers : String → Eff S (List String)
  pub hash_refresh_token : String → Result String

abbrev pub token_key : String → String
token_key token_hash = "refresh_token:" ++ₛ token_hash

abbrev pub user_tokens_key : String → String
user_tokens_key user_id = "user_tokens:" ++ₛ user_id

abbrev last_of : String → List String → String
last_of d [] = d
last_of d (x ∷ xs) = last_of x xs

-- What stands after the last colon, or the whole text where there is none.
abbrev pub after_colon : String → String
after_colon s = last_of s (split_on 58 s)

abbrev of_result : {S A : Type 0} → Result A → Eff S A
of_result r s = (r, s)

module _ {S : Type 0} (server : TokenServer S) where
  open server use {set_ex, get_key, del, expire, sadd, srem, smembers, hash_refresh_token}

  unfoldable pub store_refresh_token : String → String → String → ℕ → Eff S (Unit {0})
  store_refresh_token user_id tenant_id token ttl_seconds = do
    token_hash ← of_result (hash_refresh_token token)
    set_ex (token_key token_hash) (tenant_id ++ₛ ":" ++ₛ user_id) ttl_seconds
    sadd (user_tokens_key user_id) token_hash
    expire (user_tokens_key user_id) (u64_as_i64 ttl_seconds)

  unfoldable pub get_user_id_by_refresh_token : String → Eff S (Option String)
  get_user_id_by_refresh_token token = do
    token_hash ← of_result (hash_refresh_token token)
    get_key (token_key token_hash)

  abbrev pub forget : String → Option String → Eff S (Unit {0})
  forget token_hash none = pure tt
  forget token_hash (some user_id) = do
    del (token_key token_hash)
    srem (user_tokens_key (after_colon user_id)) token_hash

  unfoldable pub revoke_refresh_token : String → Eff S (Unit {0})
  unfolding get_user_id_by_refresh_token
  revoke_refresh_token token = do
    token_hash ← of_result (hash_refresh_token token)
    owner ← get_user_id_by_refresh_token token
    forget token_hash owner

  abbrev delete_all : List String → Eff S (Unit {0})
  delete_all [] = pure tt
  delete_all (token_hash ∷ token_hashes) = del (token_key token_hash) >> delete_all token_hashes

  unfoldable pub revoke_all_user_tokens : String → Eff S (Unit {0})
  revoke_all_user_tokens user_id = do
    token_hashes ← smembers (user_tokens_key user_id)
    delete_all token_hashes
    del (user_tokens_key user_id)
