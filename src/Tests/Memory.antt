-- ===== src/Tests/Memory.antt =====
-- A cache in memory, which keeps what the laws of the cache ask.
use mini_siem_project.Prelude.{
  ℕ, suc, ◌≤◌, String, ◌≡◌, refl, sym, ◌∙◌, ap, Bool, true, false, ◌||◌, Option, none, some, List,
  [], ◌∷◌, length, ◌⊎◌, inl, inr, Bool-cases, arith, if◌then◌else◌,
}
use mathlib.Core.Path.{subst}
use mini_siem_project.Prelude.Text.{str_eq, str_eq_iff, str_eq_refl}
use mini_siem_project.Prelude.Eff.{Result, ok}
use mini_siem_project.Detection.Cache.{Cache}
use mini_siem_project.Detection.Cache.Reliable.{View, TextCommands, SetCommands, Popped}
use mini_siem_project.Detection.Rules.Laws.{Counters}

pub record Memory : Type 0 where
  pub texts : String → Option String
  pub sets : String → List String
  pub counts : String → ℕ

abbrev pub empty_memory : Memory
empty_memory = record { texts = λ k. none; sets = λ k. []; counts = λ k. 0 }

abbrev is_in : String → List String → Bool
is_in m [] = false
is_in m (n ∷ ns) = str_eq n m || is_in m ns

abbrev without : String → List String → List String
without m [] = []
without m (n ∷ ns) = if str_eq m n then without m ns else n ∷ without m ns

abbrev with_set : String → List String → Memory → Memory
with_set k l s = record s { sets = λ j. if str_eq k j then l else s.sets j }

abbrev pop_first : String → List String → Memory → Result (Option String) × Memory
pop_first k [] s = (ok none, s)
pop_first k (m ∷ ms) s = (ok (some m), with_set k ms s)

abbrev pub memory : Cache Memory
memory = record {
  increment_counter = λ k e s. (
    ok (suc (s.counts k)),
    record s { counts = λ j. if str_eq k j then suc (s.counts j) else s.counts j },
  );
  get_counter = λ k s. (ok (some (s.counts k)), s);
  get_ip_reputation = λ k s. (ok (some 85), s);
  get_string = λ k s. (ok (s.texts k), s);
  set_string =
      λ k t e s. (ok tt, record s { texts = λ j. if str_eq k j then some t else s.texts j });
  delete_key = λ k s. (
    ok tt,
    record s {
      texts = λ j. if str_eq k j then none else s.texts j;
      sets = λ j. if str_eq k j then [] else s.sets j;
    },
  );
  expire_key = λ k e s. (ok tt, s);
  zadd = λ k m p s. (ok tt, with_set k (if is_in m (s.sets k) then s.sets k else m ∷ s.sets k) s);
  zcard = λ k s. (ok (length (s.sets k)), s);
  zpopmin = λ k s. pop_first k (s.sets k) s;
  zrem = λ k m s. (ok tt, with_set k (without m (s.sets k)) s);
}

abbrev pub memory_view : View Memory
memory_view = record {
  text = λ s k. s.texts k;
  has = λ s k m. is_in m (s.sets k);
  size = λ s k. length (s.sets k);
}

has_if :
    (b : Bool) (l : List String) (m : String)
    → is_in m (if b then [] else l) ≡ (if b then false else is_in m l)
has_if true l m = refl
has_if false l m = refl

size_if : (b : Bool) (l : List String) → length (if b then [] else l) ≡ (if b then 0 else length l)
size_if true l = refl
size_if false l = refl

pub memory_texts : TextCommands memory memory_view
memory_texts = record {
  get_ok = λ k s. refl;
  set_ok = λ k t e s. refl;
  set_text = λ k t e s j. refl;
  set_sets = λ k t e s. record { same_has = λ j m. refl; same_size = λ j. refl };
  expire_ok = λ k e s. refl;
  expire_text = λ k e s j. refl;
  expire_sets = λ k e s. record { same_has = λ j m. refl; same_size = λ j. refl };
  delete_text = λ k s j. refl;
  delete_has = λ k s j m. has_if (str_eq k j) (s.sets j) m;
  delete_size = λ k s j. size_if (str_eq k j) (s.sets j);
}

add_has :
    (m x : String) (l : List String)
    → is_in x (if is_in m l then l else m ∷ l) ≡ (str_eq m x || is_in x l)
add_has m x l = elim (Bool-cases (is_in m l)) [
  | inl e ↦ rw e (elim (Bool-cases (str_eq m x)) [
    | inl f ↦ rw f (ap (λ y. is_in y l) (sym ((str_eq_iff m x).0 f)) ∙ e)
    | inr f ↦ rw f refl
  ])
  | inr e ↦ rw e refl
]

add_size :
    (b : Bool) (m : String) (l : List String)
    → length (if b then l else m ∷ l) ≡ (if b then length l else suc (length l))
add_size true m l = refl
add_size false m l = refl

without_has :
    (m x : String) (l : List String)
    → is_in x (without m l) ≡ (if str_eq m x then false else is_in x l)
without_has m x [] = ground arith
without_has m x (n ∷ ns) =
    ground (arith, without_has m x ns, str_eq_iff m n, str_eq_iff n x, str_eq_iff m x)

without_size : (m : String) (l : List String) → length (without m l) ≤ length l
without_size m [] = omega arith
without_size m (n ∷ ns) = ground (arith, without_size m ns)

popped :
    (k : String) (s : Memory) (l : List String)
    → s.sets k ≡ l
    → (length (s.sets k) ≡ 0) × (pop_first k l s ≡ (ok none, s))
      ⊎ ((m : String) × (t : Memory) × (pop_first k l s ≡ (ok (some m), t))
          × Popped memory_view k m s t)
popped k s [] e = inl (rw e refl, refl)
popped k s (m ∷ ms) e = inr (
  m,
  with_set k ms s,
  refl,
  record {
    was_in = rw (e, str_eq_refl m) refl;
    others_stay = λ x ne. rw (str_eq_refl k, e, ne) refl;
    none_new = λ x h.
        rw e (stays x (subst (λ b. is_in x (if b then ms else s.sets k) ≡ true) (str_eq_refl k) h));
    one_less = rw (str_eq_refl k, e) refl;
    texts_stay = λ j. refl;
  },
)
  where
    stays : (x : String) → is_in x ms ≡ true → (str_eq m x || is_in x ms) ≡ true
    stays x h = ground arith

pub memory_sets : SetCommands memory memory_view
memory_sets = record {
  zcard_ok = λ k s. refl;
  zadd_ok = λ k m p s. refl;
  zadd_has = λ k m p s x. rw (str_eq_refl k) (add_has m x (s.sets k));
  zadd_size = λ k m p s. rw (str_eq_refl k) (add_size (is_in m (s.sets k)) m (s.sets k));
  zadd_text = λ k m p s j. refl;
  zpopmin_lem = λ k s. popped k s (s.sets k) refl;
  zrem_has = λ k m s x. rw (str_eq_refl k) (without_has m x (s.sets k));
  zrem_size = λ k m s. rw (str_eq_refl k) (without_size m (s.sets k));
  zrem_text = λ k m s j. refl;
}

pub memory_counters : Counters memory (λ s k. s.counts k)
memory_counters = record { incr_ok = λ k e s. refl; incr_count = λ k e s j. refl }
