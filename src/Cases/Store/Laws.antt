-- ===== src/Cases/Store/Laws.antt =====
-- Runs of updates of one case.
use mini_siem_project.Prelude.{
  ℕ, ◌≡◌, refl, sym, ap, ◌∙◌, Bool, true, false, not, ◌&&◌, ◌||◌, ◌==◌, is_some, unwrap_or, String,
  Option, none, some, List, [], ◌∷◌, ◌++◌, Bool-cases, inl, inr, if◌then◌else◌, arith,
}
use mathlib.Core.Path.{subst}
use mini_siem_project.Prelude.Int.{ℤ}
use mini_siem_project.Prelude.Text.{str_eq}
use mini_siem_project.Prelude.Eff.{ok, err}
use mini_siem_project.Cases.Data.{
  CaseStatus, new, investigating, awaiting_customer, mitigated, resolved, false_positive, escalated,
  closed, CaseRecord, case_status_from_str, show_case_status,
}
use mini_siem_project.Cases.Store.{
  CaseTables, CaseUpdate, CaseEvent, Changes, next_columns, next_status, update_case, note_changes,
  is_final, is_escalated, stamp,
}

-- A database with one case, whose timeline grows with each event, and its clock.
pub record OneCase : Type 0 where
  pub clock : ℤ
  pub row : CaseRecord
  pub timeline : List CaseEvent

-- The columns that an update sets, and the time of the update by the database's clock.
abbrev pub with_columns : CaseUpdate → ℤ → CaseRecord → CaseRecord
with_columns u now c = record c {
  status = u.status;
  owner_user_id = u.owner_user_id;
  owner_email = u.owner_email;
  outcome = u.outcome;
  postmortem_summary = u.postmortem_summary;
  escalated_at = u.escalated_at;
  resolved_at = u.resolved_at;
  updated_at = now;
}

-- `WHERE tenant_id = … AND id = …`
abbrev pub is_asked : String → ℕ → CaseRecord → Bool
is_asked tenant_id id c = str_eq c.tenant_id tenant_id && (c.id == id)

-- The tables of that database; queries that an update does not make find nothing.
abbrev pub one_case : CaseTables OneCase
one_case = record {
  get_case_by_id = λ t i s. (ok (if is_asked t i s.row then some s.row else none), s);
  get_case_by_alert_id = λ t a s. (ok none, s);
  write_case = λ u t i s.
      if is_asked t i s.row
      then (ok (with_columns u s.clock s.row), record s { row = with_columns u s.clock s.row })
      else (err "no rows returned", s);
  insert_case = λ c s. (ok c, s);
  insert_link = λ c a t s. (ok tt, s);
  record_case_event = λ e s. (ok tt, record s { timeline = s.timeline ++ (e ∷ []) });
  count_playbooks = λ t s. (ok 0, s);
  insert_playbook = λ p s. (ok tt, s);
  select_playbooks = λ t s. (ok [], s);
  get_case_playbook = λ t i s. (ok none, s);
  list_case_alert_ids = λ t i s. (ok [], s);
  list_case_timeline = λ t i s. (ok [], s);
}

-- The stored statuses of a case that is done with, and of one that is escalated.
abbrev pub says_closed : String → Bool
says_closed t =
    str_eq t "RESOLVED" || (str_eq t "FALSEPOSITIVE" || (str_eq t "CLOSED" || str_eq t "MITIGATED"))

abbrev pub says_escalated : String → Bool
says_escalated t = str_eq t "ESCALATED"

-- A case that is closed or escalated says since when.
unfoldable pub timed : CaseRecord → Bool
timed c =
    (not (says_closed c.status) || is_some c.resolved_at)
    && (not (says_escalated c.status) || is_some c.escalated_at)

-- The status that an update leads to: the one asked for, else the stored one, and "NEW" where that
-- cannot be read.
abbrev pub expected_status : (String → String) → Option CaseStatus → CaseRecord → String
expected_status up (some s) c = show_case_status s
expected_status up none c = elim (case_status_from_str up c.status) [
  | some s ↦ show_case_status s
  | none ↦ "NEW"
]

-- The time that is there, else, where there is to be one, that of now.
abbrev pub since : Bool → ℤ → Option ℤ → Option ℤ
since b now (some t) = some t
since b now none = if b then some now else none

show_case_status-next_status :
    (up : String → String) (status : Option CaseStatus) (c : CaseRecord)
    → show_case_status (next_status up status c) ≡ expected_status up status c
unfolding next_status
show_case_status-next_status up (some s) c = refl
show_case_status-next_status up none c =
    elim (case_status_from_str up c.status)
      as (λ o.
        show_case_status (unwrap_or new o)
        ≡ (elim o as (λ _. String) [ some s ↦ show_case_status s | none ↦ "NEW" ])) [
          | none ↦ refl
          | some s ↦ refl
        ]

is_final-says_closed : (s : CaseStatus) → is_final s ≡ says_closed (show_case_status s)
unfolding is_final
is_final-says_closed new = refl
is_final-says_closed investigating = refl
is_final-says_closed awaiting_customer = refl
is_final-says_closed mitigated = refl
is_final-says_closed resolved = refl
is_final-says_closed false_positive = refl
is_final-says_closed escalated = refl
is_final-says_closed closed = refl

is_escalated-says_escalated :
    (s : CaseStatus) → is_escalated s ≡ says_escalated (show_case_status s)
unfolding is_escalated
is_escalated-says_escalated new = refl
is_escalated-says_escalated investigating = refl
is_escalated-says_escalated awaiting_customer = refl
is_escalated-says_escalated mitigated = refl
is_escalated-says_escalated resolved = refl
is_escalated-says_escalated false_positive = refl
is_escalated-says_escalated escalated = refl
is_escalated-says_escalated closed = refl

stamp-since : (b : Bool) (now : ℤ) (o : Option ℤ) → stamp b now o ≡ since b now o
unfolding stamp
stamp-since b now (some t) = refl
stamp-since true now none = refl
stamp-since false now none = refl

-- What an update writes, in terms of the status that it leads to.
abbrev pub expected_columns : (String → String) → ℤ → Changes → CaseRecord → CaseUpdate
expected_columns up now changes c =
    let next = expected_status up changes.status c in
    record {
      status = next;
      owner_user_id = unwrap_or c.owner_user_id changes.owner_user_id;
      owner_email = unwrap_or c.owner_email changes.owner_email;
      outcome = unwrap_or c.outcome changes.outcome;
      postmortem_summary = unwrap_or c.postmortem_summary changes.postmortem_summary;
      escalated_at = since (says_escalated next) now c.escalated_at;
      resolved_at = since (says_closed next) now c.resolved_at;
    }

next_columns-expected_columns :
    (up : String → String) (now : ℤ) (changes : Changes) (c : CaseRecord)
    → next_columns up now changes c ≡ expected_columns up now changes c
unfolding next_columns
next_columns-expected_columns up now changes c =
    let next = next_status up changes.status c in
    rw
      (
        is_final-says_closed next,
        is_escalated-says_escalated next,
        stamp-since (says_escalated (show_case_status next)) now c.escalated_at,
        stamp-since (says_closed (show_case_status next)) now c.resolved_at,
        show_case_status-next_status up changes.status c,
      )
      refl

-- A time that is there stays as it is.
abbrev pub Stays : Option ℤ → Option ℤ → Type 0
Stays none y = Unit
Stays (some t) y = y ≡ some t

Stays-trans : (x y z : Option ℤ) → Stays x y → Stays y z → Stays x z
Stays-trans none y z a b = tt
Stays-trans (some t) y z a b = subst (λ w. Stays w z) a b

since-Stays : (b : Bool) (now : ℤ) (x : Option ℤ) → Stays x (since b now x)
since-Stays b now none = tt
since-Stays b now (some t) = refl

Stays-refl : (x : Option ℤ) → Stays x x
Stays-refl none = tt
Stays-refl (some t) = refl

expected_columns-timed :
    (up : String → String) (now clock : ℤ) (changes : Changes) (c : CaseRecord)
    → timed (with_columns (expected_columns up now changes c) clock c) ≡ true
unfolding timed
expected_columns-timed up now clock changes c = ground arith

module _ (up : String → String) (tenant : String) (id : ℕ) where
  -- Updates at some moments, which the database's clock shows as well.
  unfoldable pub update_all : List (ℤ × Changes) → OneCase → OneCase
  update_all [] s = s
  update_all ((now, changes) ∷ rest) s =
      update_all rest (update_case one_case up now tenant id changes (record s { clock = now })).1

  note_changes-row :
      (u : CaseUpdate) (old row : CaseRecord) (s : OneCase)
      → (note_changes one_case tenant id u old row s).1.row ≡ s.row
  unfolding note_changes
  note_changes-row u old row s = ground arith

  pub update_case-row :
      (now : ℤ) (changes : Changes) (s : OneCase)
      → (update_case one_case up now tenant id changes s).1.row ≡ (
          if is_asked tenant id s.row
          then with_columns (expected_columns up now changes s.row) s.clock s.row
          else s.row)
  unfolding update_case
  update_case-row now changes s = elim (Bool-cases (is_asked tenant id s.row)) [
    | inr other ↦ ground (arith, other)
    | inl asked ↦
        let u = next_columns up now changes s.row in
        let e =
          note_changes-row u s.row (with_columns u s.clock s.row)
            (record s { row = with_columns u s.clock s.row }) in
        let c =
          ap (λ v. with_columns v s.clock s.row)
            (next_columns-expected_columns up now changes s.row) in
        ground (arith, asked, e, c)
  ]

  -- What a run of updates keeps, between the case before it and after it.
  pub record Kept (old new : CaseRecord) : Type 0 where
    pub is_timed : timed new ≡ true
    pub resolved_stays : Stays old.resolved_at new.resolved_at
    pub escalated_stays : Stays old.escalated_at new.escalated_at
    pub same_tenant : new.tenant_id ≡ old.tenant_id
    pub same_id : new.id ≡ old.id
    -- Another case than the one asked for is left alone.
    pub others_stay : is_asked tenant id old ≡ false → new ≡ old

  columns-Kept :
      (now clock : ℤ) (changes : Changes) (c : CaseRecord)
      → is_asked tenant id c ≡ true
      → Kept c (with_columns (expected_columns up now changes c) clock c)
  columns-Kept now clock changes c h = record {
    is_timed = expected_columns-timed up now clock changes c;
    resolved_stays = since-Stays _ now c.resolved_at;
    escalated_stays = since-Stays _ now c.escalated_at;
    same_tenant = refl;
    same_id = refl;
    others_stay = λ n. cc (h, n);
  }

  Kept-trans : (a b c : CaseRecord) → Kept a b → Kept b c → Kept a c
  Kept-trans a b c k l = record {
    is_timed = l.is_timed;
    resolved_stays =
        Stays-trans a.resolved_at b.resolved_at c.resolved_at k.resolved_stays l.resolved_stays;
    escalated_stays =
        Stays-trans a.escalated_at b.escalated_at c.escalated_at k.escalated_stays
          l.escalated_stays;
    same_tenant = l.same_tenant ∙ k.same_tenant;
    same_id = l.same_id ∙ k.same_id;
    others_stay = λ n. let e = k.others_stay n in l.others_stay (rw⁻¹ (sym e) n) ∙ e;
  }

  Kept-refl : (a : CaseRecord) → timed a ≡ true → Kept a a
  Kept-refl a h = record {
    is_timed = h;
    resolved_stays = Stays-refl a.resolved_at;
    escalated_stays = Stays-refl a.escalated_at;
    same_tenant = refl;
    same_id = refl;
    others_stay = λ n. refl;
  }

  update_case-Kept :
      (now : ℤ) (changes : Changes) (s : OneCase)
      → timed s.row ≡ true
      → Kept s.row (update_case one_case up now tenant id changes s).1.row
  update_case-Kept now changes s t =
      subst (Kept s.row) (sym (update_case-row now changes s))
        (elim (Bool-cases (is_asked tenant id s.row)) [
          | inl asked ↦ rw asked (columns-Kept now s.clock changes s.row asked)
          | inr other ↦ rw other (Kept-refl s.row t)
        ])

  -- A run of updates by a tenant and an identifier, from a case that says since when it is closed or
  -- escalated if its stored status is one of those, leads to such a case. It never moves a time of
  -- closing or of escalation that is there, nor the case to another tenant or identifier, and leaves
  -- the case of another tenant or identifier as it is.
  pub update_all-Kept :
      (run : List (ℤ × Changes)) (s : OneCase)
      → timed s.row ≡ true
      → Kept s.row (update_all run s).row
  unfolding update_all
  update_all-Kept [] s t = Kept-refl s.row t
  update_all-Kept ((now, changes) ∷ rest) s t =
      let k = update_case-Kept now changes (record s { clock = now }) t in
      Kept-trans s.row _ _ k (update_all-Kept rest _ k.is_timed)
