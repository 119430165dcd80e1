-- ===== src/Tests/Web.antt =====
-- Runs of the handlers of audit, packs and sessions on concrete inputs.
use mini_siem_project.Prelude.{◌≡◌, inl, inr, true, false, none, some, [], ◌∷◌, refl, if◌then◌else◌}
use mini_siem_project.Prelude.Int.{pos}
use mini_siem_project.Prelude.Text.{str_eq}
use mini_siem_project.Prelude.Eff.{ok}
use mini_siem_project.Types.Json.{null, string}
use mini_siem_project.Auth.Claims.{Claims}
use mini_siem_project.Auth.Users.{User}
use mini_siem_project.Api.Audit.{AuditLog, record_audit}
use mini_siem_project.Api.Audit.Chain.{
  Keeping, Table, Linked, Recorded, keeping, record_audit-Linked,
}
use mini_siem_project.Detection.Engine.Index.{DetectionRule, reload_rules, empty_index}
use mini_siem_project.Packs.{pack_summary}
use mini_siem_project.Packs.Curated.{
  cloud_iam_abuse, endpoint_ransomware_precursors, insider_risk, curated_packs, any_tests, test,
}
use mini_siem_project.Packs.Loaded.{readers, IsFrom, rules_of, reload_rules-curated_packs}
use mini_siem_project.Api.Handler.{go}
use mini_siem_project.Api.Packs.{ensure_pack_rules}
use mini_siem_project.Api.Packs.Laws.{Rows, rows_of, table, ensure_pack_rules-installed}
use mini_siem_project.Api.SignIn.{RefreshRequest, refresh}
use mini_siem_project.Api.SignIn.Laws.{Keys, Accounts, accounts, status_of, refresh-once}
use mini_siem_project.Tests.Samples.{plain, call}

abbrev admin : Claims
admin = record {
  sub = "u1";
  tenant_id = "acme";
  email = "a@acme";
  roles = "admin" ∷ [];
  iss = "mini-siem";
  aud = "mini-siem-api";
  token_use = none;
  jti = none;
  exp = 9;
  iat = 1;
}

abbrev ledger : Keeping
ledger = record {
  hash = λ before payload. ok "hash";
  sign = λ h. ok "signature";
  fails = λ n. false;
}

abbrev empty_table : Table
empty_table = record { rows = []; operations = 0 }

abbrev first_event : Table
first_event =
    (record_audit (keeping ledger) "rule" call admin "rule.create" (some "r1") none null
      empty_table).1

record_audit-Linked_example :
    Linked ledger first_event.rows
    × Recorded ledger "rule" call admin "rule.create"
        (some "r1")
        none
        null
        empty_table
        first_event.rows
record_audit-Linked_example =
    record_audit-Linked ledger "rule" call admin "rule.create" (some "r1") none null empty_table tt
      tt

-- A row that was installed from the last rule of the last pack.
abbrev staging : DetectionRule
staging = record {
  id = "r9";
  tenant_id = "acme";
  name = "Insider - Archive Tool Staging";
  description = none;
  rule_type = "generic";
  severity = "MEDIUM";
  threshold = none;
  window_seconds = none;
  condition = some (
      any_tests (
        test "message" "contains" (string "7z")
        ∷ test "message" "contains" (string "rar")
        ∷ test "message" "contains" (string "zip -r")
        ∷ test "message" "contains" (string "archive")
        ∷ []));
  is_enabled = true;
  created_at = pos 0;
  updated_at = pos 0;
}

staging-IsFrom : IsFrom (rules_of curated_packs) staging
unfolding curated_packs cloud_iam_abuse endpoint_ransomware_precursors insider_risk
staging-IsFrom = inr (inr (inr (inr (inr (inr (inr (inr (inl (refl, refl)))))))))

reload_rules-curated_packs_example :
    reload_rules plain (readers (λ v. none)) (staging ∷ []) ≡ empty_index
reload_rules-curated_packs_example =
    reload_rules-curated_packs plain (λ v. none) (staging ∷ []) (staging-IsFrom, tt)

abbrev no_audit : AuditLog Rows
no_audit = record {
  latest_audit_hash = λ tenant_id rows. (ok none, rows);
  insert_audit_event = λ e rows. (ok tt, rows);
  hash_audit_payload = λ before payload. ok "hash";
  sign_audit_hash = λ h. ok "signature";
}

abbrev installed_rows : Rows
installed_rows =
    (ensure_pack_rules
      (table (λ n. "id") (λ n. pos 0) no_audit (λ key w limit cost rows. (ok true, rows)))
      {R = Unit {0}} "acme" insider_risk (staging ∷ [])).1

ensure_pack_rules-installed_example :
    ((ensure_pack_rules
        (table (λ n. "id") (λ n. pos 0) no_audit (λ key w limit cost rows. (ok true, rows)))
        {R = Unit {0}}
        "acme"
        insider_risk
        (staging ∷ [])).0
      ≡ go (rows_of "acme" installed_rows))
    × ((pack_summary insider_risk (rows_of "acme" installed_rows)).installed ≡ true)
    × ((ensure_pack_rules
          (table (λ n. "id") (λ n. pos 0) no_audit (λ key w limit cost rows. (ok true, rows)))
          {R = Unit {0}}
          "acme"
          insider_risk
          installed_rows).1
        ≡ installed_rows)
ensure_pack_rules-installed_example =
    ensure_pack_rules-installed (λ n. "id") (λ n. pos 0) no_audit
      (λ key w limit cost rows. (ok true, rows)) "acme" insider_risk (staging ∷ [])

abbrev user : User
user = record {
  id = 1;
  tenant_id = "acme";
  email = "a@acme";
  password_hash = "x";
  role = "user";
  created_at = pos 0;
  updated_at = pos 0;
}

abbrev plain_accounts : Accounts
plain_accounts = record {
  users = λ tenant_id id. some user;
  hash_refresh_token = λ token. ok token;
  encode_jwt = λ claims. ok "token";
  names = record { issuer = none; audience = none };
  show_id = λ n. "1";
  parse_id = λ s. some 1;
}

abbrev kept_token : Keys
kept_token key = if str_eq key "refresh_token:old" then some "acme:1" else none

abbrev request : RefreshRequest
request = record { tenant_id = "acme"; refresh_token = "old" }

accepted : status_of (refresh (accounts plain_accounts) call "new" request kept_token).0 ≡ 200
unfolding refresh
accepted = refl

refresh-once_example :
    status_of
      (refresh
        (accounts plain_accounts)
        call
        "newer"
        request
        (refresh (accounts plain_accounts) call "new" request kept_token).1).0
    ≡ 401
refresh-once_example =
    refresh-once plain_accounts call call "new" "newer" "old" "new" "acme" request kept_token refl
      refl refl accepted
