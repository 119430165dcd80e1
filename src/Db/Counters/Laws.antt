-- ===== src/Db/Counters/Laws.antt =====
-- Counters of 64 bits read through the first level.
use mini_siem_project.Prelude.{ℕ, ◌%◌, ◌^◌, String, ◌≡◌, refl, some, arith}
use mini_siem_project.Prelude.Int.{pos, u64_as_i64, i64_as_u64}
use mini_siem_project.Prelude.Text.{str_eq_refl}
use mini_siem_project.Prelude.Eff.{ok}
use mini_siem_project.Types.Log.{Call, seconds}
use mini_siem_project.Db.Counters.{
  L1Entry, Server, CounterState, get_counter, incr_by, refresh_key, remember, hits_of,
}

module _ {S : Type 0} (server : Server S) where
  get_counter-l1 :
      (c : Call) (key : String) (e : L1Entry) (st : CounterState S)
      → st.l1 key ≡ some e
      → ((get_counter server c key st).0 ≡ ok (some (e.value % 2 ^ 32)))
        × ((get_counter server c key st).1.services ≡ st.services)
  unfolding get_counter
  get_counter-l1 c key e st h = rw (h, get_counter) (refl, ground arith)

  -- What was put into the first level is what is read.
  get_counter-remember :
      (c d : Call) (key : String) (value hits : ℕ) (st : CounterState S)
      → ((get_counter server d key (remember server c key value hits st).1).0
          ≡ ok (some (value % 2 ^ 32)))
        × ((get_counter server d key (remember server c key value hits st).1).1.services
            ≡ st.services)
  get_counter-remember c d key value hits st =
      get_counter-l1 d key (record { value = value; ts = seconds c.now; hits = hits })
        (remember server c key value hits st).1 (rw (str_eq_refl key) refl)

  -- After an increment by an amount that brings the server's counter to `n`, a read of the counter
  -- answers with `n` modulo 2 ^ 32 and does not ask the server: a counter of 4 GiB or more reads as
  -- a small one.
  pub get_counter-incr_by :
      (c d : Call) (key : String) (delta expiry n : ℕ) (st : CounterState S) (s t : S)
      → server.incr_i64 key (u64_as_i64 delta) st.services ≡ (ok (pos n), s)
      → server.expire key (u64_as_i64 expiry) s ≡ (ok tt, t)
      → ((get_counter server d key (incr_by server c key delta expiry st).1).0
          ≡ ok (some (n % 2 ^ 32)))
        × ((get_counter server d key (incr_by server c key delta expiry st).1).1.services ≡ t)
  unfolding incr_by i64_as_u64
  get_counter-incr_by c d key delta expiry n st s t added lasting =
      rw (added, lasting) (get_counter-remember c d key n 1 (record st { services = t }))

  -- After a refresh that finds `n` on the server, a read answers with `n` modulo 2 ^ 32 and does not
  -- ask the server again, however old the entry was.
  pub get_counter-refresh_key :
      (c d : Call) (key : String) (n : ℕ) (st : CounterState S) (s : S)
      → server.get_u64 key st.services ≡ (ok (some n), s)
      → ((get_counter server d key (refresh_key server c key st).1).0 ≡ ok (some (n % 2 ^ 32)))
        × ((get_counter server d key (refresh_key server c key st).1).1.services ≡ s)
  unfolding refresh_key
  get_counter-refresh_key c d key n st s found =
      rw found (get_counter-remember c d key n (hits_of (st.l1 key)) (record st { services = s }))
