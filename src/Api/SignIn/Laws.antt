-- ===== src/Api/SignIn/Laws.antt =====
-- A refresh token is good for one new pair, with a cache and a database that answer.
use mini_siem_project.Prelude.{
  ℕ, true, false, String, Option, none, some, [], ◌≡◌, if◌then◌else◌, arith,
}
use mini_siem_project.Prelude.Text.{str_eq, str_eq_refl}
use mini_siem_project.Prelude.Eff.{Result, ok, err}
use mini_siem_project.Types.Log.{Call}
use mini_siem_project.Auth.Claims.{Claims, Names}
use mini_siem_project.Auth.Users.{User}
use mini_siem_project.Db.RefreshTokens.{
  TokenServer, token_key, store_refresh_token, get_user_id_by_refresh_token, revoke_refresh_token,
}
use mini_siem_project.Api.Handler.{Flow, reply, go}
use mini_siem_project.Api.SignIn.{AccountServer, RefreshRequest, TokenPair, issue_tokens, refresh}

-- The keys of the cache; the sets of hashes play no part here.
abbrev pub Keys : Type 0
Keys = String → Option String

abbrev pub key_server : (String → Result String) → TokenServer Keys
key_server hash = record {
  set_ex = λ key value ttl keys. (ok tt, λ k. if str_eq k key then some value else keys k);
  get_key = λ key keys. (ok (keys key), keys);
  del = λ key keys. (ok tt, λ k. if str_eq k key then none else keys k);
  expire = λ key ttl keys. (ok tt, keys);
  sadd = λ key member keys. (ok tt, keys);
  srem = λ key member keys. (ok tt, keys);
  smembers = λ key keys. (ok [], keys);
  hash_refresh_token = hash;
}

-- What the other services are, as functions.
pub record Accounts : Type 0 where
  pub users : String → ℕ → Option User
  pub hash_refresh_token : String → Result String
  pub encode_jwt : Claims → Result String
  pub names : Names
  pub show_id : ℕ → String
  pub parse_id : String → Option ℕ

abbrev pub accounts : Accounts → AccountServer Keys
accounts a = record {
  get_user_by_email = λ tenant_id email keys. (err "not asked", keys);
  get_user_by_id = λ tenant_id id keys. (ok (a.users tenant_id id), keys);
  create_user = λ tenant_id email password_hash role keys. (err "not asked", keys);
  tokens = key_server a.hash_refresh_token;
  set_string = λ key value ttl keys. (ok tt, keys);
  allow_sliding_window = λ key window limit keys. (ok true, keys);
  allow_fixed_window = λ key window limit cost keys. (ok true, keys);
  ws_connections_per_minute = 60;
  hash_password = λ password. err "not asked";
  verify_password = λ password hash. err "not asked";
  encode_jwt = a.encode_jwt;
  names = a.names;
  byte_length = λ s. 0;
  show_id = a.show_id;
  parse_id = a.parse_id;
}

abbrev pub status_of : Flow TokenPair (Unit {0}) → ℕ
status_of (reply r) = r.status
status_of (go u) = 0

module _ (a : Accounts) where
  -- A token whose hash has no key is refused, and nothing changes.
  refresh-absent :
      (c : Call) (new_token h : String) (req : RefreshRequest) (keys : Keys)
      → a.hash_refresh_token req.refresh_token ≡ ok h
      → keys (token_key h) ≡ none
      → status_of (refresh (accounts a) c new_token req keys).0 ≡ 401
  unfolding refresh get_user_id_by_refresh_token
  refresh-absent c new_token h req keys e n = ground (arith, e, n)

  refresh-gone :
      (c : Call) (new_token h h' : String) (req : RefreshRequest) (keys : Keys)
      → a.hash_refresh_token req.refresh_token ≡ ok h
      → a.hash_refresh_token new_token ≡ ok h'
      → str_eq (token_key h) (token_key h') ≡ false
      → status_of (refresh (accounts a) c new_token req keys).0 ≡ 200
      → (refresh (accounts a) c new_token req keys).1 (token_key h) ≡ none
  unfolding refresh get_user_id_by_refresh_token revoke_refresh_token issue_tokens
      store_refresh_token
  refresh-gone c new_token h h' req keys e e' d s =
      ground (arith, e, e', d, s, str_eq_refl (token_key h))

  -- After a refresh that is answered with status 200, its refresh token is refused: a second refresh
  -- with it, for whichever tenant, is answered with status 401, where the hash of the new token is
  -- another than that of the old one.
  pub refresh-once :
      (c c' : Call) (new_token newer_token h h' tenant_id : String) (req : RefreshRequest)
      (keys : Keys)
      → a.hash_refresh_token req.refresh_token ≡ ok h
      → a.hash_refresh_token new_token ≡ ok h'
      → str_eq (token_key h) (token_key h') ≡ false
      → status_of (refresh (accounts a) c new_token req keys).0 ≡ 200
      → status_of
          (refresh
            (accounts a)
            c'
            newer_token
            (record req { tenant_id = tenant_id })
            (refresh (accounts a) c new_token req keys).1).0
        ≡ 401
  refresh-once c c' new_token newer_token h h' tenant_id req keys e e' d s =
      refresh-absent c' newer_token h (record req { tenant_id = tenant_id })
        (refresh (accounts a) c new_token req keys).1 e
        (refresh-gone c new_token h h' req keys e e' d s)
