-- ===== src/Tests/Counters.antt =====
-- Counters read through the first level at concrete inputs.
use mini_siem_project.Prelude.{ℕ, ◌+◌, ◌≡◌, refl, none, some, []}
use mini_siem_project.Prelude.Int.{ℤ, pos, negsuc, u64_as_i64}
use mini_siem_project.Prelude.Eff.{ok}
use mini_siem_project.Db.Counters.{Server, CounterState, get_counter, incr_by}
use mini_siem_project.Db.Counters.Laws.{get_counter-incr_by}
use mini_siem_project.Tests.Samples.{call}

abbrev plus : ℕ → ℤ → ℕ
plus n (pos d) = n + d
plus n (negsuc d) = n

-- A server with one counter.
abbrev one_counter : Server ℕ
one_counter = record {
  incr_u32 = λ k d n. (ok (n + d), n + d);
  incr_i64 = λ k d n. (ok (pos (plus n d)), plus n d);
  decr_i64 = λ k d n. (ok (pos n), n);
  get_u32 = λ k n. (ok (some n), n);
  get_u64 = λ k n. (ok (some n), n);
  set_u64 = λ k m n. (ok tt, m);
  expire = λ k t n. (ok tt, n);
}

-- Four gibibytes, less one byte, were counted.
abbrev counted : CounterState ℕ
counted = record { services = 4_294_967_295; l1 = λ k. none; spawned = [] }

-- Two more bytes, and the counter reads as 1.
get_counter-incr_by_example :
    ((get_counter one_counter call "k" (incr_by one_counter call "k" 2 86_400 counted).1).0
      ≡ ok (some 1))
    × ((get_counter one_counter call "k"
          (incr_by one_counter call "k" 2 86_400 counted).1).1.services
        ≡ 4_294_967_297)
unfolding u64_as_i64
get_counter-incr_by_example =
    get_counter-incr_by one_counter call call "k" 2 86_400 4_294_967_297 counted 4_294_967_297
      4_294_967_297 refl refl
