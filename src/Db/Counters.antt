-- ===== src/Db/Counters.antt =====
-- The counters of the cache with their first level in memory (backend/src/db/redis.rs). The server is
-- a parameter, its replies read as the types that the code asks for. A task that is spawned to
-- refresh a key stands in the list `spawned`, and runs as a step of its own.
pub mod Laws
use mini_siem_project.Prelude.{
  ℕ, ◌+◌, ◌%◌, ◌^◌, String, Bool, Option, none, some, List, [], ◌∷◌, ◌++◌, ◌==◌, ltb, if◌then◌else◌,
}
use Prim.Native.Nat.{min}
use mini_siem_project.Prelude.Int.{ℤ, pos, negsuc, ltb_ℤ, ◌-ℤ◌, u64_as_i64, i64_as_u64}
use mini_siem_project.Prelude.Text.{str_eq}
use mini_siem_project.Prelude.Eff.{Result, ok, err, Eff, pure, ◌>>=◌, ◌>>◌}
use mini_siem_project.Types.Log.{Call, seconds}

pub record L1Entry : Type 0 where
  pub value : ℕ
  pub ts : ℤ
  pub hits : ℕ

-- INCR, DECR, GET, SET and EXPIRE, by the type in which the reply is read.
pub record Server (S : Type 0) : Type 0 where
  pub incr_u32 : String → ℕ → Eff S ℕ
  pub incr_i64 : String → ℤ → Eff S ℤ
  pub decr_i64 : String → ℕ → Eff S ℤ
  pub get_u32 : String → Eff S (Option ℕ)
  pub get_u64 : String → Eff S (Option ℕ)
  pub set_u64 : String → ℕ → Eff S (Unit {0})
  pub expire : String → ℤ → Eff S (Unit {0})

pub record CounterState (S : Type 0) : Type 0 where
  pub services : S
  pub l1 : String → Option L1Entry
  pub spawned : List String

-- `x as u32` of an `i64` that is not negative, and 0 for one that is.
abbrev pub clamp_u32 : ℤ → ℕ
clamp_u32 (pos n) = n % 2 ^ 32
clamp_u32 (negsuc n) = 0

abbrev default_refresh_if_older : ℤ
default_refresh_if_older = pos 30

abbrev pub hits_of : Option L1Entry → ℕ
hits_of none = 1
hits_of (some e) = e.hits

abbrev keep_young : ℤ → ℤ → Option L1Entry → Option L1Entry
keep_young now max_age none = none
keep_young now max_age (some e) = if ltb_ℤ max_age (now -ℤ e.ts) then none else some e

module _ {S : Type 0} (server : Server S) where
  abbrev lift : {A : Type 0} → Eff S A → Eff (CounterState S) A
  lift m st = let (r, s) = m st.services in (r, record st { services = s })

  -- `self.l1.insert(key, entry)`
  abbrev insert_entry : String → L1Entry → CounterState S → CounterState S
  insert_entry key e st = record st { l1 = λ k. if str_eq key k then some e else st.l1 k }

  abbrev pub remember : Call → String → ℕ → ℕ → Eff (CounterState S) (Unit {0})
  remember c key value hits st =
      (ok tt, insert_entry key (record { value = value; ts = seconds c.now; hits = hits }) st)

  unfoldable pub increment_counter : Call → String → ℕ → Eff (CounterState S) ℕ
  increment_counter c key expiry_seconds = do
    count ← lift (server.incr_u32 key 1)
    if count == 1 then lift (server.expire key (u64_as_i64 expiry_seconds)) else pure tt
    remember c key count 1
    pure count

  -- An entry that is there answers, and one older than 30 seconds is refreshed in the background.
  abbrev from_l1 : Call → String → L1Entry → CounterState S → Result (Option ℕ) × CounterState S
  from_l1 c key e st =
      let bumped : CounterState S =
        insert_entry key (record e { hits = min (e.hits + 1) 18446744073709551615 }) st in
      (
        ok (some (e.value % 2 ^ 32)),
        if ltb_ℤ default_refresh_if_older (seconds c.now -ℤ e.ts)
            then record bumped { spawned = bumped.spawned ++ key ∷ [] }
            else bumped,
      )

  abbrev remember_some : Call → String → Option ℕ → Eff (CounterState S) (Option ℕ)
  remember_some c key none = pure none
  remember_some c key (some n) = do remember c key n 1; pure (some n)

  abbrev from_server : Call → String → Eff (CounterState S) (Option ℕ)
  from_server c key = do count ← lift (server.get_u32 key); remember_some c key count

  unfoldable pub get_counter : Call → String → Eff (CounterState S) (Option ℕ)
  get_counter c key st = elim (st.l1 key) [
    | some e ↦ from_l1 c key e st
    | none ↦ from_server c key st
  ]

  abbrev expire_if : String → Option ℕ → Eff (CounterState S) (Unit {0})
  expire_if key none = pure tt
  expire_if key (some t) = lift (server.expire key (u64_as_i64 t))

  unfoldable pub set_counter : Call → String → ℕ → Option ℕ → Eff (CounterState S) (Unit {0})
  set_counter c key value expiry_seconds = do
    lift (server.set_u64 key value)
    expire_if key expiry_seconds
    remember c key value 1

  unfoldable pub decrement_counter : Call → String → Eff (CounterState S) ℕ
  decrement_counter c key = do
    val ← lift (server.decr_i64 key 1)
    remember c key (clamp_u32 val) 1
    pure (clamp_u32 val)

  unfoldable pub incr_by : Call → String → ℕ → ℕ → Eff (CounterState S) ℕ
  incr_by c key delta expiry_seconds = do
    new ← lift (server.incr_i64 key (u64_as_i64 delta))
    lift (server.expire key (u64_as_i64 expiry_seconds))
    remember c key (i64_as_u64 new) 1
    pure (clamp_u32 new)

  abbrev keep_fetched : Call → String → Option ℕ → Eff (CounterState S) (Unit {0})
  keep_fetched c key none = pure tt
  keep_fetched c key (some n) = λ st. remember c key n (hits_of (st.l1 key)) st

  -- What a refresh does once it holds the lock of its key.
  unfoldable pub refresh_key : Call → String → Eff (CounterState S) (Unit {0})
  refresh_key c key = do val ← lift (server.get_u64 key); keep_fetched c key val

  -- The first part of a round of maintenance: old entries go.
  unfoldable pub evict_cold : Call → ℤ → CounterState S → CounterState S
  evict_cold c max_age st = record st { l1 = λ k. keep_young (seconds c.now) max_age (st.l1 k) }
