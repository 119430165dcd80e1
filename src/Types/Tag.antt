-- ===== src/Types/Tag.antt =====
-- The tags by which rules are indexed (backend/src/types/tag.rs).
use mini_siem_project.Prelude.{
  String, Bool, true, false, Option, none, some, if◌then◌else◌, ◌≡◌, refl,
}
use mini_siem_project.Prelude.Text.{str_eq}

pub data LogTag : Type 0 where
  auth network malware : LogTag

abbrev pub show_tag : LogTag → String
show_tag auth = "auth"
show_tag network = "network"
show_tag malware = "malware"

pub tag_from_str : String → Option LogTag
tag_from_str s =
    if str_eq s "auth"
    then some auth
    else if str_eq s "network"
    then some network
    else if str_eq s "malware"
    then some malware
    else none

abbrev pub tag_eq : LogTag → LogTag → Bool
tag_eq auth auth = true
tag_eq network network = true
tag_eq malware malware = true
tag_eq _ _ = false

-- A tag is read back from its name.
pub tag_from_str-show_tag : (t : LogTag) → tag_from_str (show_tag t) ≡ some t
unfolding tag_from_str
tag_from_str-show_tag auth = refl
tag_from_str-show_tag network = refl
tag_from_str-show_tag malware = refl
