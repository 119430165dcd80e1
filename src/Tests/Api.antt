-- ===== src/Tests/Api.antt =====
-- Keys and batches at concrete inputs.
use mini_siem_project.Prelude.{All, ◌≡◌, true, String, none, some, [], ◌∷◌, refl}
use mini_siem_project.Prelude.Eff.{Result, ok, err}
use mini_siem_project.Auth.Jwks.{Jwk, KeySettings, Fetch}
use mini_siem_project.Auth.Claims.{Claims}
use mini_siem_project.Costs.Policy.{IngestLogRequest}
use mini_siem_project.Costs.Usage.{PolicyCodec}
use mini_siem_project.Queue.Forward.{sent}
use mini_siem_project.Api.Ingest.{Intake, IntakeState, ingest_batch}
use mini_siem_project.Api.Ingest.Laws.{BatchCase, ingest_batch-case}
use mini_siem_project.Api.Live.{alert_event, ping, sent_alert, pong, live_session}
use mini_siem_project.Api.Live.Laws.{About, live_session-About}
use mini_siem_project.Tests.Usage.{store}
use mini_siem_project.Tests.Memory.{Memory, empty_memory}
use mini_siem_project.Tests.Samples.{plain, call, alert_of}

abbrev from_rsa : String → String → Result String
from_rsa n e = ok n

abbrev key_settings : KeySettings String
key_settings = record {
  cache_ttl = 300;
  stale_ttl = 600;
  jwks_url = some "https://id.example/jwks";
  local_key = err "JWT_PUBLIC_KEY not set";
}

abbrev jwk : Jwk
jwk = record { kid = some "k1"; kty = "RSA"; n = some "modulus"; e = some "AQAB" }

abbrev first_fetch : Fetch
first_fetch = record { answer = ok (jwk ∷ []); at = 100 }

abbrev failed_fetch : Fetch
failed_fetch = record { answer = err "timed out"; at = 950 }

abbrev codec : PolicyCodec
codec = record { encode = λ p. p.tenant_id; decode = λ s. none }

-- Every log is taken, and the quota allows every request.
abbrev intake : Intake Memory
intake = record {
  store = store;
  codec = codec;
  x = plain;
  print = λ v. "";
  day = "2026-01-02";
  allow_fixed_window = λ k w l c s. (ok true, s);
  ingest_events_per_minute = 100;
  ingest_send = λ log s. (sent, s);
  show_id = λ n. "id";
  heartbeat = "5000000";
}

abbrev admin : Claims
admin = record {
  sub = "u1";
  tenant_id = "acme";
  email = "a@acme.example";
  roles = "admin" ∷ [];
  iss = "mini-siem";
  aud = "mini-siem-api";
  token_use = none;
  jti = none;
  exp = 5003600;
  iat = 5000000;
}

abbrev request : IngestLogRequest
request = record {
  event_type = "login_failed";
  source_ip = "10.0.0.7";
  target_user = none;
  service = some "sshd";
  message = "Failed password for root";
  severity = none;
  timestamp = none;
  metadata = none;
}

abbrev fresh : IntakeState Memory
fresh = record { services = empty_memory; queued = [] }

ingest_batch-case_example :
    BatchCase intake "acme" 2 []
      (ingest_batch intake ((call, request) ∷ (call, request) ∷ []) (some admin) fresh).1.queued
      (ingest_batch intake ((call, request) ∷ (call, request) ∷ []) (some admin) fresh).0
ingest_batch-case_example =
    ingest_batch-case intake ((call, request) ∷ (call, request) ∷ []) admin fresh

-- Of two alerts in the shared channel, a session of one tenant gets its own.
live_session-About_example : All (About "acme") (
    live_session "acme" (
      alert_event (alert_of "acme" "Two") true true
      ∷ alert_event (alert_of "other" "Two") true true
      ∷ ping true
      ∷ []))
live_session-About_example = live_session-About "acme" (
    alert_event (alert_of "acme" "Two") true true
    ∷ alert_event (alert_of "other" "Two") true true
    ∷ ping true
    ∷ [])

shown_alerts :
    live_session "acme" (
      alert_event (alert_of "acme" "Two") true true
      ∷ alert_event (alert_of "other" "Two") true true
      ∷ ping true
      ∷ [])
    ≡ sent_alert (alert_of "acme" "Two") ∷ pong ∷ []
unfolding live_session
shown_alerts = refl
