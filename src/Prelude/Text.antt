-- ===== src/Prelude/Text.antt =====
-- Texts: the parts of Rust's `str` that the program uses. A text is a native string; `contains`
-- and `starts_with` are those of the library, which follow Rust's.
use Prim.Native.String.{String}
use Prim.Native.String
use Prim.Native.Char.{code}
use text.Mathlib.Text.{◌==◌ as str_eq', starts_with as starts_with', find?}
use text.Mathlib.TextEquality.{eq_iff}
use text.Mathlib.TextPositions.{eq_refl}
use mini_siem_project.Prelude.Lists.{is_some}
use mini_siem_project.Prelude.Tests.{ltb, leb, ◌==◌, if◌then◌else◌}
use Prim.Native.Nat.{ℕ, zero, suc, ◌+◌, ◌/◌, ◌%◌}
use mathlib.Core.Path.{◌≡◌}
use mathlib.Core.Logic.{◌↔◌}
use mathlib.Core.Bool.{Bool, true, ◌||◌, ◌&&◌}
use mathlib.Core.List.{List, [], ◌∷◌}
use mathlib.Core.Option.{Option, none, some}

infixr 65 ◌++ₛ◌
abbrev pub ◌++ₛ◌ : String → String → String
s ++ₛ t = String.◌++◌ s t

abbrev pub str_eq : String → String → Bool
str_eq s t = str_eq' s t

pub str_eq_iff : (s t : String) → (str_eq s t ≡ true) ↔ (s ≡ t)
str_eq_iff s t = eq_iff s t

pub str_eq_refl : (s : String) → str_eq s s ≡ true
str_eq_refl s = eq_refl s

abbrev pub contains : String → String → Bool
contains s t = is_some (find? s t)

abbrev pub starts_with : String → String → Bool
starts_with s t = starts_with' s t

-- A text ends with `t` if `t` is one of its tails.
abbrev pub ends_with : String → String → Bool
ends_with String.[] t = str_eq t ""
ends_with (String.◌∷◌ c s) t = str_eq (String.◌∷◌ c s) t || ends_with s t

abbrev pub is_empty_str : String → Bool
is_empty_str s = str_eq s ""

-- `parts.join(sep)`
abbrev pub join : String → List String → String
join sep [] = ""
join sep (x ∷ []) = x
join sep (x ∷ y ∷ r) = x ++ₛ (sep ++ₛ join sep (y ∷ r))

abbrev pub codes : String → List ℕ
codes String.[] = []
codes (String.◌∷◌ c s) = code c ∷ codes s

-- `char::to_ascii_lowercase` on a code point.
unfoldable pub to_ascii_lowercase : ℕ → ℕ
to_ascii_lowercase c = if leb b'A' c && leb c b'Z' then c + 32 else c

-- `char::is_whitespace`: the code points with the property White_Space.
unfoldable pub is_whitespace : ℕ → Bool
is_whitespace c =
    (leb 9 c && leb c 13)
    || (c == 32
        || (c == 0x85
            || (c == 0xa0
                || (c == 0x1680
                    || ((leb 0x2000 c && leb c 0x200a)
                        || (c == 0x2028
                            || (c == 0x2029 || (c == 0x202f || (c == 0x205f || c == 0x3000)))))))))

digit_text : ℕ → List String → String
digit_text n [] = ""
digit_text zero (d ∷ ds) = d
digit_text (suc n) (d ∷ ds) = digit_text n ds

abbrev digits16 : List String
digits16 =
    "0" ∷ "1" ∷ "2" ∷ "3" ∷ "4" ∷ "5" ∷ "6" ∷ "7" ∷ "8" ∷ "9" ∷ "a" ∷ "b" ∷ "c" ∷ "d" ∷ "e" ∷ "f"
    ∷ []

-- The `k` last digits of `n` in base `b`.
digits_of : ℕ → ℕ → ℕ → String
unfolding digit_text
digits_of b zero n = ""
digits_of b (suc k) n = digits_of b k (n / b) ++ₛ digit_text (n % b) digits16

-- `format!("{:016x}", n)` of a `u64`.
unfoldable pub hex16 : ℕ → String
unfolding digits_of
hex16 n = digits_of 16 16 n

-- The decimal text of a number, `format!("{}", n)`: as many digits as it has, one at least. Twenty
-- rounds are enough for a `u64`.
decimal : ℕ → ℕ → String
unfolding digit_text
decimal zero n = ""
decimal (suc k) n =
    let rest = decimal k (n / 10) in
    if ltb n 10 then digit_text n digits16 else rest ++ₛ digit_text (n % 10) digits16

unfoldable pub show_nat : ℕ → String
unfolding decimal
show_nat n = decimal 20 n

-- `str::strip_prefix`
abbrev pub strip_prefix : String → String → Option String
strip_prefix s String.[] = some s
strip_prefix String.[] (String.◌∷◌ c p) = none
strip_prefix (String.◌∷◌ d s) (String.◌∷◌ c p) =
    let rest = strip_prefix s p in if code d == code c then rest else none

abbrev trim_start : String → String
trim_start String.[] = ""
trim_start (String.◌∷◌ c s) =
    let rest = trim_start s in if is_whitespace (code c) then rest else String.◌∷◌ c s

abbrev trim_end : String → String
trim_end String.[] = ""
trim_end (String.◌∷◌ c s) =
    let rest = trim_end s in
    if is_empty_str rest && is_whitespace (code c) then "" else String.◌∷◌ c rest

-- `str::trim`
abbrev pub trim : String → String
trim s = trim_end (trim_start s)

abbrev pushed : String → List String → List String
pushed c [] = c ∷ []
pushed c (x ∷ xs) = (c ++ₛ x) ∷ xs

-- `s.split(c)` at a character given by its code point.
abbrev pub split_on : ℕ → String → List String
split_on sep String.[] = "" ∷ []
split_on sep (String.◌∷◌ c s) =
    let rest = split_on sep s in
    if code c == sep then "" ∷ rest else pushed (String.◌∷◌ c String.[]) rest
