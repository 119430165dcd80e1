-- ===== src/Alerting/Batcher/Draining.antt =====
-- What becomes of the grouped alerts in a flush.
use mini_siem_project.Prelude.{
  ◌≡◌, refl, sym, ◌∙◌, false, All, Option, none, some, List, [], ◌∷◌, arith,
}
use mini_siem_project.Types.Alert.{Alert}
use mini_siem_project.Alerting.Batcher.Merge.{AlertDedupKey, key_eq, merge_alert}
use mini_siem_project.Alerting.Batcher.Flush.{AlertMap, take_out, split_existing}
use mini_siem_project.Alerting.Batcher.Grouping.{find, key_eq_iff}

-- The alerts to update and to create, next to the grouped alerts: one with the key of an open alert
-- is merged into it, to be updated, and any other is created.
pub data Routed (open_alerts : AlertMap) : AlertMap → List Alert → List Alert → Type 0 where
  nothing : Routed open_alerts [] [] []
  updated :
      {m : AlertMap} {us cs : List Alert} (k : AlertDedupKey) (a e : Alert)
      → find k open_alerts ≡ some e
      → Routed open_alerts m us cs
      → Routed open_alerts ((k, a) ∷ m) (merge_alert e a ∷ us) cs
  created :
      {m : AlertMap} {us cs : List Alert} (k : AlertDedupKey) (a : Alert)
      → find k open_alerts ≡ none
      → Routed open_alerts m us cs
      → Routed open_alerts ((k, a) ∷ m) us (a ∷ cs)

-- No two entries have the same key.
abbrev pub Distinct : AlertMap → Type 0
Distinct [] = Unit
Distinct ((k, a) ∷ m) = All (λ e. key_eq k e.0 ≡ false) m × Distinct m

find-take_out : (k : AlertDedupKey) (m : AlertMap) → (take_out k m).0 ≡ find k m
unfolding find
find-take_out k [] = refl
find-take_out k ((j, b) ∷ m) = ground (arith, find-take_out k m)

find-others :
    (k i : AlertDedupKey) (m : AlertMap) → key_eq k i ≡ false → find i (take_out k m).1 ≡ find i m
unfolding find
find-others k i [] h = refl
find-others k i ((j, b) ∷ m) h =
    ground (arith, h, key_eq_iff j k, key_eq_iff j i, key_eq_iff k i, find-others k i m h)

-- The two maps have the same open alerts for the keys of the third.
abbrev Agree : AlertMap → AlertMap → AlertMap → Type 0
Agree left open_alerts m = All (λ e. find e.0 left ≡ find e.0 open_alerts) m

Agree-refl : (x m : AlertMap) → Agree x x m
Agree-refl x [] = tt
Agree-refl x (e ∷ m) = (refl, Agree-refl x m)

Agree-take_out :
    (k : AlertDedupKey) (left open_alerts m : AlertMap)
    → All (λ e. key_eq k e.0 ≡ false) m
    → Agree left open_alerts m
    → Agree (take_out k left).1 open_alerts m
Agree-take_out k left open_alerts [] h g = tt
Agree-take_out k left open_alerts (e ∷ m) (h, hs) (g, gs) =
    (find-others k e.0 left h ∙ g, Agree-take_out k left open_alerts m hs gs)

route :
    (open_alerts m : AlertMap) (k : AlertDedupKey) (a : Alert) (found : Option Alert)
    (parts : List Alert × List Alert)
    → find k open_alerts ≡ found
    → Routed open_alerts m parts.0 parts.1
    → let new : List Alert × List Alert = elim found [
      | some e ↦ (merge_alert e a ∷ parts.0, parts.1)
      | none ↦ (parts.0, a ∷ parts.1)
    ] in
      Routed open_alerts ((k, a) ∷ m) new.0 new.1
route open_alerts m k a none parts h r = created k a h r
route open_alerts m k a (some e) parts h r = updated k a e h r

routed_from :
    (open_alerts left m : AlertMap)
    → Distinct m
    → Agree left open_alerts m
    → Routed open_alerts m (split_existing left m).0 (split_existing left m).1
unfolding split_existing
routed_from open_alerts left [] d g = nothing
routed_from open_alerts left ((k, a) ∷ m) (h, d) (g, gs) =
    route open_alerts m k a (take_out k left).0 (split_existing (take_out k left).1 m)
      (sym g ∙ sym (find-take_out k left))
      (routed_from open_alerts (take_out k left).1 m d (Agree-take_out k left open_alerts m h gs))

-- Of grouped alerts with different keys, each whose key is that of an open alert is merged into that
-- alert, which is to be updated, and each other one is to be created, in their order and nothing else.
pub split_existing-Routed :
    (existing m : AlertMap)
    → Distinct m
    → Routed existing m (split_existing existing m).0 (split_existing existing m).1
split_existing-Routed existing m d = routed_from existing existing m d (Agree-refl existing m)
