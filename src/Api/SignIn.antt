-- ===== src/Api/SignIn.antt =====
-- The handlers of accounts and sessions (backend/src/api/handlers/auth.rs).
pub mod Laws
use mini_siem_project.Prelude.{
  ℕ, ltb, Bool, true, false, ◌||◌, unwrap_or, length, String, Option, none, some, List, [], ◌∷◌,
  if◌then◌else◌,
}
use mini_siem_project.Prelude.Int.{ℤ}
use mini_siem_project.Prelude.Text.{◌++ₛ◌, contains, is_empty_str}
use mini_siem_project.Prelude.Eff.{Result, ok, err, Eff}
use mini_siem_project.Types.Log.{Call}
use mini_siem_project.Auth.Claims.{Claims, Names, create_claims, create_ws_claims}
use mini_siem_project.Auth.Users.{User, UserResponse, user_response}
use mini_siem_project.Db.RefreshTokens.{
  TokenServer, store_refresh_token, get_user_id_by_refresh_token, revoke_refresh_token, after_colon,
}
use mini_siem_project.Api.Handler.{
  Handler, empty_body, done, respond, with_status, with_fields, outcome_of, perform, present, ◌>>=◌,
  ◌>>◌,
}
use mini_siem_project.Api.Tenant.{FixedWindow, enforce_tenant_fixed_window}

pub record RegisterRequest : Type 0 where
  pub tenant_id : String
  pub email : String
  pub password : String

pub record LoginRequest : Type 0 where
  pub tenant_id : String
  pub email : String
  pub password : String

pub record RefreshRequest : Type 0 where
  pub tenant_id : String
  pub refresh_token : String

pub record TokenPair : Type 0 where
  pub access_token : String
  pub refresh_token : String

pub record WsTokenResponse : Type 0 where
  pub ws_token : String
  pub expires_in_seconds : ℕ

-- The table of users, the cache with its sliding and fixed windows, the hash of passwords, the
-- signature of tokens, the length of a text in bytes and the texts of identifiers.
pub record AccountServer (S : Type 0) : Type 0 where
  pub get_user_by_email : String → String → Eff S (Option User)
  pub get_user_by_id : String → ℕ → Eff S (Option User)
  pub create_user : String → String → String → String → Eff S User
  pub tokens : TokenServer S
  pub set_string : String → String → ℕ → Eff S (Unit {0})
  pub allow_sliding_window : String → ℕ → ℕ → Eff S Bool
  pub allow_fixed_window : FixedWindow S
  pub ws_connections_per_minute : ℕ
  pub hash_password : String → Result String
  pub verify_password : String → String → Result Bool
  pub encode_jwt : Claims → Result String
  pub names : Names
  pub byte_length : String → ℕ
  pub show_id : ℕ → String
  pub parse_id : String → Option ℕ

unfoldable pub tenant_or_default : String → String
tenant_or_default tenant_id = if is_empty_str tenant_id then "default" else tenant_id

abbrev pub week : ℕ
week = 604800

abbrev pub error_of : String → List (String × String)
error_of t = ("error", t) ∷ []

abbrev pub internal : List (String × String)
internal = error_of "Internal server error"

abbrev pub is_verified : Result Bool → Bool
is_verified (ok b) = b
is_verified (err e) = false

module _ {S : Type 0} (server : AccountServer S) where
  open server use {tokens, encode_jwt, names, show_id}

  module _ {R : Type 0} where
    -- A call whose error ends the request with status 500.
    abbrev pub called : {A : Type 0} → Eff S A → Handler S R A
    called m = do r ← outcome_of m; (elim r [ ok a ↦ done a | err e ↦ with_fields 500 internal ])

    abbrev pub of_result : {A : Type 0} → Result A → Handler S R A
    of_result (ok a) = done a
    of_result (err e) = with_fields 500 internal

    abbrev within : String → Bool → Handler S R (Unit {0})
    within what true = done tt
    within what false = with_fields 429 (error_of what)

    unfoldable pub limited : String → ℕ → String → Handler S R (Unit {0})
    limited key limit what = do
      allowed ← called (server.allow_sliding_window key 60000 limit)
      within what allowed

    abbrev pub or_401 : {A : Type 0} → String → Option A → Handler S R A
    or_401 what none = with_fields 401 (error_of what)
    or_401 what (some a) = done a

    -- A new pair of tokens for a user, the refresh token stored for a week.
    unfoldable pub issue_tokens : Call → String → User → Handler S R TokenPair
    unfolding create_claims store_refresh_token
    issue_tokens c refresh_token user = do
      access_token ← of_result (
          encode_jwt (
            create_claims names c.now (show_id user.id) user.tenant_id user.email (user.role ∷ [])
              15))
      called (store_refresh_token tokens (show_id user.id) user.tenant_id refresh_token week)
      done (record { access_token = access_token; refresh_token = refresh_token })

  abbrev absent_user : {R : Type 0} → Option User → Handler S R (Unit {0})
  absent_user none = done tt
  absent_user (some user) = with_fields 409 (error_of "User already exists")

  abbrev created : Result User → Handler S UserResponse (Unit {0})
  created (ok user) = with_status 201 (user_response user)
  created (err e) =
      if contains e "constraint" || contains e "unique"
      then with_fields 409 (error_of "User already exists")
      else with_fields 500 internal

  unfoldable pub register : RegisterRequest → Handler S UserResponse (Unit {0})
  unfolding tenant_or_default limited user_response
  register req = do
    let tenant_id = tenant_or_default req.tenant_id
    (if is_empty_str req.email || ltb (server.byte_length req.password) 8
        then with_fields 400 (error_of "Invalid email or password")
        else done tt)
    limited ("rate_limit:register:" ++ₛ tenant_id ++ₛ ":" ++ₛ req.email) 3
        "Too many registration attempts"
    row ← called (server.get_user_by_email tenant_id req.email)
    absent_user row
    password_hash ← of_result (server.hash_password req.password)
    r ← outcome_of (server.create_user tenant_id req.email password_hash "user")
    created r

  unfoldable pub login : Call → String → LoginRequest → Handler S TokenPair (Unit {0})
  unfolding tenant_or_default limited issue_tokens
  login c refresh_token req = do
    let tenant_id = tenant_or_default req.tenant_id
    limited ("rate_limit:login:" ++ₛ tenant_id ++ₛ ":" ++ₛ req.email) 5 "Too many login attempts"
    row ← called (server.get_user_by_email tenant_id req.email)
    user ← or_401 "Invalid credentials" row
    (if is_verified (server.verify_password req.password user.password_hash)
        then done tt
        else with_fields 401 (error_of "Invalid credentials"))
    pair ← issue_tokens c refresh_token user
    with_status 200 pair

  abbrev parsed_id : {R : Type 0} → Option ℕ → Handler S R ℕ
  parsed_id none = with_fields 500 internal
  parsed_id (some id) = done id

  -- The old token is revoked, whatever comes of it, before the new pair is made.
  unfoldable pub refresh : Call → String → RefreshRequest → Handler S TokenPair (Unit {0})
  unfolding tenant_or_default get_user_id_by_refresh_token revoke_refresh_token issue_tokens
  refresh c refresh_token req = do
    let tenant_id = tenant_or_default req.tenant_id
    row ← called (get_user_id_by_refresh_token tokens req.refresh_token)
    owner ← or_401 "Invalid or expired refresh token" row
    user_id ← parsed_id (server.parse_id (after_colon owner))
    found ← called (server.get_user_by_id tenant_id user_id)
    user ← present (record { status = 401; body = empty_body }) found
    perform (revoke_refresh_token tokens req.refresh_token)
    pair ← issue_tokens c refresh_token user
    with_status 200 pair

  unfoldable pub logout : RefreshRequest → Handler S (Unit {0}) (Unit {0})
  unfolding revoke_refresh_token
  logout body = do
    called (revoke_refresh_token tokens body.refresh_token)
    respond (record { status = 200; body = empty_body })

  -- A token of a minute for a live connection, kept under its identifier for as long.
  unfoldable pub ws_token : Call → Option Claims → Handler S WsTokenResponse (Unit {0})
  unfolding create_ws_claims enforce_tenant_fixed_window
  ws_token c auth = do
    claims ← present (record { status = 401; body = empty_body }) auth
    let ws_claims =
        create_ws_claims names c.now (show_id c.fresh_id) claims.sub claims.tenant_id claims.email
          claims.roles 60
    enforce_tenant_fixed_window server.allow_fixed_window claims.tenant_id "ws_connections"
        server.ws_connections_per_minute 1
    token ← of_result (encode_jwt ws_claims)
    called (
        server.set_string ("ws_token:" ++ₛ claims.tenant_id ++ₛ ":" ++ₛ unwrap_or "" ws_claims.jti)
          claims.sub 60)
    with_status 200 (record { ws_token = token; expires_in_seconds = 60 })

  unfoldable pub me : Option Claims → Handler S UserResponse (Unit {0})
  unfolding user_response
  me auth = do
    claims ← present (record { status = 401; body = empty_body }) auth
    user_id ← present (record { status = 401; body = empty_body }) (server.parse_id claims.sub)
    row ← called (server.get_user_by_id claims.tenant_id user_id)
    user ← present (record { status = 404; body = empty_body }) row
    with_status 200 (user_response user)
