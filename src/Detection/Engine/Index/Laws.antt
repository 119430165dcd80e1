-- ===== src/Detection/Engine/Index/Laws.antt =====
-- What the index holds after a reload, and which rules a log meets.
use Prim.Native.Nat.{max}
use mathlib.Core.List.{append-nil, append_assoc}
use mini_siem_project.Prelude.{
  ℕ, zero, suc, ◌≡◌, refl, ap, sym, ◌∙◌, Bool, true, Option, none, some, List, [], ◌∷◌, ◌++◌, any,
  retain, length, inl, inr, Bool-cases, arith,
}
use mini_siem_project.Prelude.Text.{str_eq}
use mini_siem_project.Types.Log.{Log}
use mini_siem_project.Types.Tag.{LogTag, auth, network, malware, tag_eq}
use mini_siem_project.Types.External.{External}
use mini_siem_project.Detection.CompiledRule.{CompiledRule, log_types, tenant_id}
use mini_siem_project.Detection.Engine.Index.{
  DetectionRule, Parsers, RuleIndex, compile, load_rows, reload_rules, push_all, add_row,
  empty_index, candidates, infer_tags, collect, fall_back,
}

-- The rules that the rows give, in their order.
abbrev add_compiled : Option CompiledRule → List CompiledRule → List CompiledRule
add_compiled none rs = rs
add_compiled (some r) rs = r ∷ rs

unfoldable pub compiled : External → Parsers → List DetectionRule → List CompiledRule
compiled x p [] = []
compiled x p (d ∷ ds) = add_compiled (compile x p d) (compiled x p ds)

-- A rule declares a tag.
abbrev pub declares : LogTag → CompiledRule → Bool
declares t r = any (tag_eq t) (log_types r)

push_all_lem :
    (r : CompiledRule) (index : RuleIndex) (t : LogTag)
    → push_all r (log_types r) index t ≡ index t ++ retain (declares t) (r ∷ [])
push_all_lem (CompiledRule.brute_force r) index auth = refl
push_all_lem (CompiledRule.brute_force r) index network = sym (append-nil _)
push_all_lem (CompiledRule.brute_force r) index malware = sym (append-nil _)
push_all_lem (CompiledRule.port_scan r) index auth = sym (append-nil _)
push_all_lem (CompiledRule.port_scan r) index network = refl
push_all_lem (CompiledRule.port_scan r) index malware = sym (append-nil _)
push_all_lem (CompiledRule.malware r) index auth = refl
push_all_lem (CompiledRule.malware r) index network = refl
push_all_lem (CompiledRule.malware r) index malware = refl
push_all_lem (CompiledRule.generic r) index auth = refl
push_all_lem (CompiledRule.generic r) index network = refl
push_all_lem (CompiledRule.generic r) index malware = refl
push_all_lem (CompiledRule.correlation r) index auth = refl
push_all_lem (CompiledRule.correlation r) index network = refl
push_all_lem (CompiledRule.correlation r) index malware = refl

retain-cons :
    (test : CompiledRule → Bool) (r : CompiledRule) (rs : List CompiledRule)
    → retain test (r ∷ rs) ≡ retain test (r ∷ []) ++ retain test rs
retain-cons test r rs = elim (Bool-cases (test r)) [
  | inl e ↦ rw (e, retain)
  | inr e ↦ rw (e, retain)
]

load_rows_lem :
    (x : External) (p : Parsers) (rows : List DetectionRule) (index : RuleIndex) (t : LogTag)
    → load_rows x p rows index t ≡ index t ++ retain (declares t) (compiled x p rows)
unfolding load_rows compiled
load_rows_lem x p [] index t = sym (append-nil _)
load_rows_lem x p (d ∷ ds) index t =
    load_rows_lem x p ds (add_row x p (compile x p d) index) t ∙ add_one (compile x p d)
  where
    add_one :
        (o : Option CompiledRule)
        → add_row x p o index t ++ retain (declares t) (compiled x p ds)
          ≡ index t ++ retain (declares t) (add_compiled o (compiled x p ds))
    add_one none = refl
    add_one (some r) =
        ap (λ l. l ++ retain (declares t) (compiled x p ds)) (push_all_lem r index t)
        ∙ append_assoc (index t) _ _
        ∙ ap (λ l. index t ++ l) (sym (retain-cons (declares t) r (compiled x p ds)))

-- After a reload the index has, under each tag, exactly the rules that the rows give and that
-- declare the tag: each once, in the order of the rows.
pub reload_rules_lem :
    (x : External) (p : Parsers) (rows : List DetectionRule) (t : LogTag)
    → reload_rules x p rows t ≡ retain (declares t) (compiled x p rows)
unfolding reload_rules
reload_rules_lem x p rows t = load_rows_lem x p rows empty_index t

abbrev pub replicate : ℕ → CompiledRule → List CompiledRule
replicate zero r = []
replicate (suc n) r = r ∷ replicate n r

collect-broad :
    (index : RuleIndex) (r : CompiledRule) (tags : List LogTag)
    → ((t : LogTag) → index t ≡ r ∷ [])
    → collect index tags ≡ replicate (length tags) r
collect-broad index r [] h = refl
collect-broad index r (t ∷ ts) h =
    cc (collect-broad index r ts h, ap (λ l. l ++ collect index ts) (h t))

fall_back-broad :
    (index : RuleIndex) (r : CompiledRule) (n : ℕ)
    → index malware ≡ r ∷ []
    → fall_back index (replicate n r) ≡ replicate (max 1 n) r
fall_back-broad index r zero h = h
fall_back-broad index r (suc n) h =
    let e : suc n ≡ max 1 (suc n) = omega arith in ap (λ k. replicate k r) e

retain-replicate :
    (test : CompiledRule → Bool) (r : CompiledRule) (n : ℕ)
    → test r ≡ true
    → retain test (replicate n r) ≡ replicate n r
retain-replicate test r zero h = refl
retain-replicate test r (suc n) h = rw (h, retain) (ap (λ l. r ∷ l) (retain-replicate test r n h))

-- A rule that declares every tag, alone in the database, is met by a log of its tenant once for
-- each tag of the log, and once if the log has none: on a log with two tags it stands among the
-- candidates twice.
pub candidates_repeat :
    (x : External) (p : Parsers) (d : DetectionRule) (r : CompiledRule) (log : Log)
    → compile x p d ≡ some r
    → ((t : LogTag) → declares t r ≡ true)
    → str_eq (tenant_id r) log.tenant_id ≡ true
    → candidates (reload_rules x p (d ∷ [])) log ≡ replicate (max 1 (length (infer_tags log))) r
unfolding candidates compiled
candidates_repeat x p d r log made broad own =
    ap (λ l. retain own_rule (fall_back index l))
      (collect-broad index r (infer_tags log) everywhere)
    ∙ ap (retain own_rule) (fall_back-broad index r (length (infer_tags log)) (everywhere malware))
    ∙ retain-replicate own_rule r (max 1 (length (infer_tags log))) own
  where
    index : RuleIndex
    index = reload_rules x p (d ∷ [])

    own_rule : CompiledRule → Bool
    own_rule q = str_eq (tenant_id q) log.tenant_id

    everywhere : (t : LogTag) → index t ≡ r ∷ []
    everywhere t = reload_rules_lem x p (d ∷ []) t ∙ rw (made, compiled) (rw (broad t, retain))
