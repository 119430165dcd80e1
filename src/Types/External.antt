-- ===== src/Types/External.antt =====
-- What the program calls and does not implement: the Unicode tables, the float operations, the
-- compiled regular expressions, the string matcher, the hash and the order in which a hash set
-- yields its items. They are parameters of the model.
use Prim.Native.Nat.{Ordering}
use mini_siem_project.Prelude.{ℕ, String, Bool, Option, List}

-- The named groups `user`, `ip` and `port` of the two ssh expressions.
pub record Captures : Type 0 where
  pub user : Option String
  pub ip : Option String
  pub port : Option String

pub record External : Type 0 where
  pub to_uppercase : String → String
  pub to_lowercase : String → String
  -- floats by their bits: an unsigned and a negative integer as a float, `==`, `partial_cmp`
  pub f64_of_u64 : ℕ → ℕ
  pub f64_of_neg : ℕ → ℕ
  pub f64_eq : ℕ → ℕ → Bool
  pub f64_cmp : ℕ → ℕ → Option Ordering
  -- division, `f64::max` and `>=` of floats, and the text of one with two decimals
  pub f64_div : ℕ → ℕ → ℕ
  pub f64_max : ℕ → ℕ → ℕ
  pub f64_ge : ℕ → ℕ → Bool
  pub show_f64_2 : ℕ → String
  -- SSH_ACCEPTED_RE and SSH_FAILED_RE
  pub ssh_accepted : String → Option Captures
  pub ssh_failed : String → Option Captures
  -- `str::parse::<u16>`
  pub parse_u16 : String → Option ℕ
  -- MALICIOUS_SIMPLE_IOC_MATCHER.find_iter on the code points of a text: the numbers of the
  -- patterns found, in order
  pub find_iocs : List ℕ → List ℕ
  -- MALICIOUS_COMPLEX_PATTERNS.is_match
  pub is_complex_match : String → Bool
  -- the order in which a `HashSet` of these items yields them
  pub set_order : List ℕ → List ℕ
  -- `DefaultHasher::new()` fed with one text
  pub hash64 : String → ℕ
  -- `str::cmp`
  pub str_cmp : String → String → Ordering
