-- ===== src/Auth/Claims.antt =====
-- The claims in a token: those of a sign-in and of a live connection, and what a token must have to
-- be read.
use mini_siem_project.Prelude.{
  ℕ, ◌*◌, Bool, true, String, Option, none, some, List, [], ◌∷◌, if◌then◌else◌,
}
use mini_siem_project.Prelude.Int.{ℤ, ◌+ℤ◌, pos, i64_as_u64, div_floor}
use mini_siem_project.Prelude.Text.{◌++ₛ◌, str_eq}
use mini_siem_project.Prelude.Eff.{Result, ok, err}

pub record Claims : Type 0 where
  pub sub : String
  pub tenant_id : String
  pub email : String
  pub roles : List String
  pub iss : String
  pub aud : String
  pub token_use : Option String
  pub jti : Option String
  pub exp : ℕ
  pub iat : ℕ

-- JWT_ISSUER and JWT_AUDIENCE, where they are set.
pub record Names : Type 0 where
  pub issuer : Option String
  pub audience : Option String

unfoldable pub get_expected_issuer : Names → String
get_expected_issuer names = elim names.issuer [ none ↦ "mini-siem" | some v ↦ v ]

unfoldable pub get_expected_audience : Names → String
get_expected_audience names = elim names.audience [ none ↦ "mini-siem-api" | some v ↦ v ]

-- A time in milliseconds as a time in seconds, rounded down.
abbrev timestamp : ℤ → ℕ
timestamp t = i64_as_u64 (div_floor t 1000)

-- `minutes` is not negative; the program gives positive constants and settings.
unfoldable pub create_claims : Names → ℤ → String → String → String → List String → ℕ → Claims
unfolding get_expected_issuer get_expected_audience
create_claims names now user_id tenant_id email roles minutes = record {
  sub = user_id;
  tenant_id = tenant_id;
  email = email;
  roles = roles;
  iss = get_expected_issuer names;
  aud = get_expected_audience names;
  token_use = none;
  jti = none;
  exp = timestamp (now +ℤ pos (minutes * 60000));
  iat = timestamp now;
}

unfoldable pub create_ws_claims :
    Names → ℤ → String → String → String → String → List String → ℕ → Claims
unfolding get_expected_issuer get_expected_audience
create_ws_claims names now fresh_id user_id tenant_id email roles seconds = record {
  sub = user_id;
  tenant_id = tenant_id;
  email = email;
  roles = roles;
  iss = get_expected_issuer names;
  aud = get_expected_audience names;
  token_use = some "ws";
  jti = some fresh_id;
  exp = timestamp (now +ℤ pos (seconds * 1000));
  iat = timestamp now;
}

pub record TokenHeader : Type 0 where
  pub alg : String
  pub kid : Option String

pub record Validation : Type 0 where
  pub algorithm : String
  pub issuers : List String
  pub audiences : List String
  pub validate_exp : Bool
  pub validate_nbf : Bool
  pub required_spec_claims : List String

-- The token library: it reads a token's header, and its claims with a key under a validation.
pub record TokenLibrary (K : Type 0) : Type 0 where
  pub decode_header : String → Result TokenHeader
  pub decode : String → K → Validation → Result Claims

unfoldable pub validation : Names → Validation
unfolding get_expected_issuer get_expected_audience
validation names = record {
  algorithm = "RS256";
  issuers = get_expected_issuer names ∷ [];
  audiences = get_expected_audience names ∷ [];
  validate_exp = true;
  validate_nbf = true;
  required_spec_claims = "exp" ∷ "iat" ∷ "iss" ∷ "aud" ∷ "sub" ∷ [];
}

module _ {K : Type 0} (library : TokenLibrary K) where
  -- A token's claims, with the key that the lookup gives for its header's identifier.
  unfoldable pub decode_jwt : Names → (Option String → Result K) → String → Result Claims
  unfolding validation
  decode_jwt names key_for token = elim (library.decode_header token) [
    | err e ↦ err "Failed to parse JWT header"
    | ok header ↦
        if str_eq header.alg "RS256"
        then (elim (key_for header.kid) [
          | err e ↦ err e
          | ok key ↦ elim (library.decode token key (validation names)) [
            | err e ↦ err "Failed to decode JWT"
            | ok claims ↦ ok claims
          ]
        ])
        else err ("Unsupported JWT algorithm: " ++ₛ header.alg)
  ]
