-- ===== src/Detection/Rules/Malware.antt =====
-- Known indicators of malware (backend/src/detection/rules/malware.rs).
use mini_siem_project.Prelude.{
  ℕ, String, Bool, Option, none, some, List, [], ◌∷◌, ◌++◌, map, any, get_elem?, unwrap_or,
  is_empty, leb, if◌then◌else◌, ◌==◌,
}
use mini_siem_project.Prelude.Text.{◌++ₛ◌, str_eq, show_nat, join, codes, to_ascii_lowercase}
use mini_siem_project.Prelude.Eff.{Eff, pure, ◌>>=◌}
use mini_siem_project.Types.Log.{Log, Call}
use mini_siem_project.Types.Tag.{LogTag, auth, network, malware}
use mini_siem_project.Types.Alert.{Alert, high, new_alert}
use mini_siem_project.Types.External.{External}
use mini_siem_project.Detection.Cache.{Cache}

abbrev malicious_domains : List String
malicious_domains = "malware.com" ∷ "evil.org" ∷ "c2-server.net" ∷ "ransomware.biz" ∷ []

abbrev malicious_ips : List String
malicious_ips = "185.23.44.2" ∷ "45.33.22.11" ∷ []

abbrev malicious_simple_iocs : List String
malicious_simple_iocs =
    "malware.com" ∷ "evil.org" ∷ "c2-server.net" ∷ "ransomware.biz" ∷ "powershell" ∷ "-enc"
    ∷ "certutil" ∷ "-urlcache" ∷ "wget" ∷ "curl" ∷ "cmd /c" ∷ []

pub record MalwareDetectionRule : Type 0 where
  pub tenant_id : String
  pub id : String
  pub name : String

abbrev pub log_types : MalwareDetectionRule → List LogTag
log_types r = malware ∷ network ∷ auth ∷ []

abbrev pub check_ip : String → Bool
check_ip ip = any (λ bad. str_eq bad ip) malicious_ips

-- The items of a hash set into which the numbers are put one by one.
abbrev insert_index : ℕ → List ℕ → List ℕ
insert_index n seen = if any (λ m. m == n) seen then seen else seen ++ n ∷ []

abbrev index_set : List ℕ → List ℕ → List ℕ
index_set seen [] = seen
index_set seen (n ∷ ns) = index_set (insert_index n seen) ns

-- The matcher's numbers are indices of the list, so no look-up leaves it.
unfoldable pub find_simple_iocs : External → String → List String
find_simple_iocs x message =
    map (λ i. unwrap_or "" (get_elem? malicious_simple_iocs i))
      (x.set_order (index_set [] (x.find_iocs (map to_ascii_lowercase (codes message)))))

abbrev pub ioc_reason : String → String
ioc_reason ioc =
    if any (λ d. str_eq d ioc) malicious_domains
    then "Communication with malicious domain: " ++ₛ ioc
    else "Suspicious IOC fragment detected: " ++ₛ ioc

abbrev pub reputation_reasons : Option ℕ → List String
reputation_reasons none = []
reputation_reasons (some score) =
    if leb 80 score
    then ("High-risk IP (reputation score: " ++ₛ show_nat score ++ₛ ")") ∷ []
    else []

-- The reasons that the log itself gives, in the order in which they are reported.
unfoldable pub message_reasons : External → Log → List String
message_reasons x log =
    (if check_ip log.source_ip then ("Known malicious IP: " ++ₛ log.source_ip) ∷ [] else [])
    ++ (map ioc_reason (find_simple_iocs x log.message)
        ++ (if x.is_complex_match log.message
            then "Suspicious command pattern detected" ∷ []
            else []))

abbrev pub malware_alert : MalwareDetectionRule → Call → Log → List String → Alert
malware_alert r c log reasons =
    new_alert c log.tenant_id r.id r.name high
      ("Potential malware activity: " ++ₛ join ", " reasons) log.source_ip (log ∷ [])

unfoldable pub evaluate :
    {S : Type 0} → Cache S → External → MalwareDetectionRule → Call → Log → Eff S (Option Alert)
evaluate cache x r c log = do
  score ← cache.get_ip_reputation log.source_ip
  let reasons = message_reasons x log ++ reputation_reasons score
  pure (if is_empty reasons then none else some (malware_alert r c log reasons))
