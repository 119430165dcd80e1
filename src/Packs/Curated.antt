-- ===== src/Packs/Curated.antt =====
-- The packs of rules that the program brings along (backend/src/api/handlers/packs.rs).
use mini_siem_project.Prelude.{Bool, true, false, String, Option, none, some, List, [], ◌∷◌, map}
use mini_siem_project.Prelude.Int.{ℤ, pos}
use mini_siem_project.Types.Json.{Value, bool, string, array, object, field, end, int, items}
use mini_siem_project.Packs.{PackRuleTemplate, PackPlaybookStep, PackTemplate}

abbrev texts : List String → Value
texts ts = array (items (map string ts))

-- One test of a log.
abbrev pub test : String → String → Value → Value
test name op value =
    object (field "field" (string name) (field "op" (string op) (field "value" value end)))

abbrev pub any_tests : List Value → Value
any_tests tests = object (field "any" (array (items tests)) end)

abbrev pub all_tests : List Value → Value
all_tests tests = object (field "all" (array (items tests)) end)

abbrev enriched : List String → List String → Value
enriched focus sources = object (
    field "enrichment_sources" (texts sources)
      (field "focus" (texts focus) (field "validated" (bool true) end)))

abbrev step : String → String → String → Bool → String → PackPlaybookStep
step title action_type owner_role automated description = record {
  title = title;
  action_type = action_type;
  owner_role = owner_role;
  automated = automated;
  description = description;
}

abbrev generic : String → String → String → Option ℤ → Option ℤ → Value → PackRuleTemplate
generic name description severity threshold window_seconds condition = record {
  name = name;
  description = description;
  rule_type = "generic";
  severity = severity;
  threshold = threshold;
  window_seconds = window_seconds;
  condition = condition;
  validated = true;
}

unfoldable pub cloud_iam_abuse : PackTemplate
cloud_iam_abuse = record {
  slug = "cloud-iam-abuse";
  vertical = "Cloud IAM Abuse";
  name = "Cloud IAM Abuse Pack";
  description =
      "Detect privilege escalation, risky logins, and access-key abuse across cloud identity systems.";
  enrichment =
      enriched ("cloud provider" ∷ "identity" ∷ "session context" ∷ "source IP reputation" ∷ [])
        ("cloud trail / audit logs" ∷ "asset inventory" ∷ "geoip" ∷ "mfa posture" ∷ []);
  playbook =
      step "Freeze the session" "containment" "analyst" false
        "Revoke active sessions and temporary credentials."
      ∷ step "Review identity changes" "investigate" "cloud-admin" false
          "Audit role changes, policy attachments, and MFA posture."
      ∷ step "Preserve evidence" "collect" "analyst" true
          "Capture audit trail and timeline notes for postmortem use."
      ∷ [];
  rules =
      generic "Cloud IAM - Privilege Escalation"
        "Detect role, policy, or group changes that can elevate cloud access." "HIGH" none none
        (any_tests (
          test "message" "contains" (string "AttachUserPolicy")
          ∷ test "message" "contains" (string "PutUserPolicy")
          ∷ test "message" "contains" (string "CreatePolicyVersion")
          ∷ test "message" "contains" (string "AddUserToGroup")
          ∷ test "event_type" "==" (string "iam_privilege_change")
          ∷ []))
      ∷ generic "Cloud IAM - Suspicious Console Login"
          "Detect successful cloud console logins without MFA or from unusual context." "MEDIUM"
          none none
          (all_tests (
            test "event_type" "==" (string "login_success")
            ∷ test "message" "contains" (string "ConsoleLogin")
            ∷ test "mfa_used" "==" (bool false)
            ∷ []))
      ∷ generic "Cloud IAM - New Access Key Issued"
          "Detect creation of new access keys that can extend attacker dwell time." "HIGH" none none
          (any_tests (
            test "message" "contains" (string "CreateAccessKey")
            ∷ test "message" "contains" (string "UpdateAccessKey")
            ∷ test "event_type" "==" (string "iam_access_key_created")
            ∷ []))
      ∷ [];
}

unfoldable pub endpoint_ransomware_precursors : PackTemplate
endpoint_ransomware_precursors = record {
  slug = "endpoint-ransomware-precursors";
  vertical = "Endpoint Ransomware Precursors";
  name = "Endpoint Ransomware Precursors Pack";
  description =
      "Catch the process, script, and file-system activity that usually appears before encryption.";
  enrichment =
      enriched ("hostname" ∷ "user" ∷ "process tree" ∷ "endpoint isolation" ∷ "backup health" ∷ [])
        ("EDR telemetry" ∷ "process ancestry" ∷ "file activity" ∷ "command line" ∷ []);
  playbook =
      step "Isolate the endpoint" "containment" "soc" false
        "Use EDR or network controls to stop spread."
      ∷ step "Kill malicious processes" "response" "soc" false
          "Terminate the script or process chain driving encryption."
      ∷ step "Collect volatile evidence" "collect" "forensics" true
          "Capture command line, memory, and process tree details."
      ∷ [];
  rules =
      generic "Endpoint - Suspicious PowerShell Encoded Command"
        "Detect PowerShell execution using encoded or obfuscated commands." "HIGH" none none
        (any_tests (
          test "message" "contains" (string "powershell")
          ∷ test "message" "contains" (string "-enc")
          ∷ test "message" "contains" (string "-encodedcommand")
          ∷ []))
      ∷ generic "Endpoint - Shadow Copy Deletion"
          "Detect commands used to delete backups or shadow copies before encryption." "CRITICAL"
          none none
          (any_tests (
            test "message" "contains" (string "vssadmin delete shadows")
            ∷ test "message" "contains" (string "wmic shadowcopy delete")
            ∷ test "message" "contains" (string "bcdedit /set")
            ∷ []))
      ∷ generic "Endpoint - Mass File Rename Or Encryption Extension"
          "Detect bursty file rename activity or common ransomware file extensions." "CRITICAL"
          (some (pos 25)) (some (pos 300))
          (any_tests (
            test "message" "contains" (string ".locked")
            ∷ test "message" "contains" (string ".encrypted")
            ∷ test "message" "contains" (string "file renamed")
            ∷ test "event_type" "==" (string "file_rename_burst")
            ∷ []))
      ∷ [];
}

unfoldable pub insider_risk : PackTemplate
insider_risk = record {
  slug = "insider-risk";
  vertical = "Insider Risk";
  name = "Insider Risk Pack";
  description =
      "Spot suspicious access bursts, archive staging, and off-hours collection activity.";
  enrichment =
      enriched
        ("user role" ∷ "device trust" ∷ "asset criticality" ∷ "data classification" ∷ "HR status"
          ∷ [])
        ("identity provider" ∷ "DLP" ∷ "asset inventory" ∷ "calendar / shift data" ∷ []);
  playbook =
      step "Validate business context" "investigate" "manager" false
        "Check whether the access pattern aligns with a project or approved task."
      ∷ step "Preserve evidence" "collect" "analyst" true
          "Capture downloads, file paths, and access timelines for review."
      ∷ step "Escalate if needed" "escalate" "soc" false
          "Route the case to HR, security leadership, or legal as needed."
      ∷ [];
  rules =
      generic "Insider - Large Data Exfiltration"
        "Detect unusually large transfers or downloads from sensitive sources." "HIGH"
        (some (pos 500)) (some (pos 900))
        (any_tests (
          test "event_type" "==" (string "large_download")
          ∷ test "message" "contains" (string "rclone")
          ∷ test "message" "contains" (string "mega.nz")
          ∷ test "bytes_out" ">=" (int (pos 500000000))
          ∷ []))
      ∷ generic "Insider - Off Hours Privileged Access"
          "Detect privileged access outside normal working windows or shift hours." "MEDIUM" none
          none
          (all_tests (
            test "event_type" "==" (string "privileged_access")
            ∷ test "off_hours" "==" (bool true)
            ∷ []))
      ∷ generic "Insider - Archive Tool Staging"
          "Detect use of archive tools commonly used to stage exfiltration packages." "MEDIUM" none
          none
          (any_tests (
            test "message" "contains" (string "7z")
            ∷ test "message" "contains" (string "rar")
            ∷ test "message" "contains" (string "zip -r")
            ∷ test "message" "contains" (string "archive")
            ∷ []))
      ∷ [];
}

unfoldable pub curated_packs : List PackTemplate
unfolding cloud_iam_abuse endpoint_ransomware_precursors insider_risk
curated_packs = cloud_iam_abuse ∷ endpoint_ransomware_precursors ∷ insider_risk ∷ []
