-- ===== src/Detection/Cache/Reliable.antt =====
-- What the documentation of Redis promises of the commands behind the cache, for a server that
-- answers every command and over a time in which no key expires: a view of its texts and sorted
-- sets, and what each command does to the view.
use mini_siem_project.Prelude.{
  ℕ, suc, String, Bool, true, false, ◌≤◌, ◌≡◌, ◌⊎◌, ◌||◌, Option, none, some, if◌then◌else◌,
}
use mini_siem_project.Prelude.Int.{ℤ}
use mini_siem_project.Prelude.Text.{str_eq}
use mini_siem_project.Prelude.Eff.{ok}
use mini_siem_project.Detection.Cache.{Cache}

-- `text s k` is the text at a key, `has s k m` tells whether `m` is a member of the sorted set at a
-- key and `size s k` is the number of its members.
pub record View (S : Type 0) : Type 0 where
  pub text : S → String → Option String
  pub has : S → String → String → Bool
  pub size : S → String → ℕ

-- A step that leaves every sorted set alone.
pub record SameSets {S : Type 0} (v : View S) (s t : S) : Type 0 where
  pub same_has : (k m : String) → v.has t k m ≡ v.has s k m
  pub same_size : (k : String) → v.size t k ≡ v.size s k

-- GET, SET, DEL and EXPIRE
pub record TextCommands {S : Type 0} (c : Cache S) (v : View S) : Type 0 where
  pub get_ok : (k : String) (s : S) → c.get_string k s ≡ (ok (v.text s k), s)
  pub set_ok : (k t : String) (e : Option ℕ) (s : S) → (c.set_string k t e s).0 ≡ ok tt
  pub set_text :
      (k t : String) (e : Option ℕ) (s : S) (j : String)
      → v.text (c.set_string k t e s).1 j ≡ (if str_eq k j then some t else v.text s j)
  pub set_sets : (k t : String) (e : Option ℕ) (s : S) → SameSets v s (c.set_string k t e s).1
  pub expire_ok : (k : String) (e : ℕ) (s : S) → (c.expire_key k e s).0 ≡ ok tt
  pub expire_text :
      (k : String) (e : ℕ) (s : S) (j : String) → v.text (c.expire_key k e s).1 j ≡ v.text s j
  pub expire_sets : (k : String) (e : ℕ) (s : S) → SameSets v s (c.expire_key k e s).1
  -- DEL takes a key's value away, of whatever type
  pub delete_text :
      (k : String) (s : S) (j : String)
      → v.text (c.delete_key k s).1 j ≡ (if str_eq k j then none else v.text s j)
  pub delete_has :
      (k : String) (s : S) (j m : String)
      → v.has (c.delete_key k s).1 j m ≡ (if str_eq k j then false else v.has s j m)
  pub delete_size :
      (k : String) (s : S) (j : String)
      → v.size (c.delete_key k s).1 j ≡ (if str_eq k j then 0 else v.size s j)

-- What ZPOPMIN does to the set at `k`: nothing if it is empty, else it takes out one member.
pub record Popped {S : Type 0} (v : View S) (k m : String) (s t : S) : Type 0 where
  pub was_in : v.has s k m ≡ true
  pub others_stay : (x : String) → str_eq m x ≡ false → v.has t k x ≡ v.has s k x
  pub none_new : (x : String) → v.has t k x ≡ true → v.has s k x ≡ true
  pub one_less : suc (v.size t k) ≡ v.size s k
  pub texts_stay : (j : String) → v.text t j ≡ v.text s j

-- ZADD, ZCARD, ZPOPMIN and ZREM
pub record SetCommands {S : Type 0} (c : Cache S) (v : View S) : Type 0 where
  pub zcard_ok : (k : String) (s : S) → c.zcard k s ≡ (ok (v.size s k), s)
  pub zadd_ok : (k m : String) (p : ℤ) (s : S) → (c.zadd k m p s).0 ≡ ok tt
  pub zadd_has :
      (k m : String) (p : ℤ) (s : S) (x : String)
      → v.has (c.zadd k m p s).1 k x ≡ (str_eq m x || v.has s k x)
  pub zadd_size :
      (k m : String) (p : ℤ) (s : S)
      → v.size (c.zadd k m p s).1 k ≡ (if v.has s k m then v.size s k else suc (v.size s k))
  pub zadd_text :
      (k m : String) (p : ℤ) (s : S) (j : String) → v.text (c.zadd k m p s).1 j ≡ v.text s j
  pub zpopmin_lem :
      (k : String) (s : S)
      → (v.size s k ≡ 0) × (c.zpopmin k s ≡ (ok none, s))
        ⊎ ((m : String) × (t : S) × (c.zpopmin k s ≡ (ok (some m), t)) × Popped v k m s t)
  pub zrem_has :
      (k m : String) (s : S) (x : String)
      → v.has (c.zrem k m s).1 k x ≡ (if str_eq m x then false else v.has s k x)
  pub zrem_size : (k m : String) (s : S) → v.size (c.zrem k m s).1 k ≤ v.size s k
  pub zrem_text : (k m : String) (s : S) (j : String) → v.text (c.zrem k m s).1 j ≡ v.text s j
