-- ===== src/Auth/Middleware.antt =====
-- The token in a request, and the request's way past the check.
use mini_siem_project.Prelude.{String, Option, none, some, List, [], ◌∷◌}
use mini_siem_project.Prelude.Text.{strip_prefix, split_on, trim}
use mini_siem_project.Prelude.Eff.{Result, ok, err}
use mini_siem_project.Auth.Claims.{Claims}

-- The value of a header, where the request has it and it is readable text.
abbrev pub Headers : Type 0
Headers = String → Option String

-- The first of the two that is there.
abbrev or_else : Option String → Option String → Option String
or_else (some t) other = some t
or_else none other = other

unfoldable pub bearer_token : Headers → Option String
bearer_token headers = elim (headers "Authorization") [
  | none ↦ none
  | some v ↦ strip_prefix v "Bearer "
]

-- The token among the protocols that a live connection offers.
unfoldable pub protocol_token : List String → Option String
protocol_token [] = none
protocol_token (proto ∷ protos) =
    or_else (strip_prefix (trim proto) "ws-token.") (protocol_token protos)

unfoldable pub protocols_token : Headers → Option String
unfolding protocol_token
protocols_token headers = elim (headers "Sec-WebSocket-Protocol") [
  | none ↦ none
  | some v ↦ protocol_token (split_on b',' v)
]

unfoldable pub extract_token : Headers → Option String
unfolding bearer_token protocols_token
extract_token headers =
    or_else (bearer_token headers) (or_else (headers "X-WS-Token") (protocols_token headers))

-- The claims that a request goes on with, or the error of status 401.
unfoldable pub authenticate : (String → Result Claims) → Headers → Result Claims
unfolding extract_token
authenticate decode headers = elim (extract_token headers) [
  | none ↦ err "Missing or invalid token"
  | some token ↦ elim (decode token) [ ok claims ↦ ok claims | err e ↦ err "Invalid token" ]
]
