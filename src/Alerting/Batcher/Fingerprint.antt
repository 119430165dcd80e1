-- ===== src/Alerting/Batcher/Fingerprint.antt =====
-- A description without its digits, case and spacing, as code points.
use mini_siem_project.Prelude.{
  ℕ, ◌≡◌, refl, ap, sym, ◌∙◌, Bool, true, false, ◌&&◌, ◌||◌, ◌==◌, ◌+◌, List, [], ◌∷◌, leb,
  if◌then◌else◌, arith,
}
use mathlib.Core.List.{reverse}
use mini_siem_project.Prelude.Text.{to_ascii_lowercase, is_whitespace}

abbrev pub is_digit : ℕ → Bool
is_digit c = leb b'0' c && leb c b'9'

-- The loop over the characters, with its two flags; its output is what is still to be pushed.
unfoldable pub squeeze : Bool → Bool → List ℕ → List ℕ
squeeze spaced digits [] = []
squeeze spaced digits (c ∷ cs) = elim (is_digit c) [
  | true ↦ elim digits [ true ↦ squeeze false true cs | false ↦ b'#' ∷ squeeze false true cs ]
  | false ↦ elim (is_whitespace (to_ascii_lowercase c)) [
    | true ↦ elim spaced [ true ↦ squeeze true false cs | false ↦ 32 ∷ squeeze true false cs ]
    | false ↦ to_ascii_lowercase c ∷ squeeze false false cs
  ]
]

abbrev trim_start : List ℕ → List ℕ
trim_start [] = []
trim_start (c ∷ cs) = let rest = trim_start cs in if is_whitespace c then rest else c ∷ cs

-- `str::trim`
abbrev trim : List ℕ → List ℕ
trim s = reverse (trim_start (reverse (trim_start s)))

unfoldable pub normalize_fingerprint : List ℕ → List ℕ
unfolding squeeze
normalize_fingerprint s = trim (squeeze false false s)

-- An ASCII letter in upper case.
abbrev is_capital : ℕ → Bool
is_capital c = leb b'A' c && leb c b'Z'

-- The same character, or the same ASCII letter in the other case.
abbrev pub same_letter : ℕ → ℕ → Bool
same_letter c d = (c == d) || ((is_capital c && (d == c + 32)) || (is_capital d && (c == d + 32)))

-- Two texts that differ in the case of ASCII letters and in their numbers only: where one has a run
-- of digits, so has the other. The first argument tells whether a run has begun.
pub data Similar : Bool → List ℕ → List ℕ → Type 0 where
  end : {run : Bool} → Similar run [] []
  same :
      {run : Bool} {c d : ℕ} {s t : List ℕ}
      → is_digit c ≡ false
      → is_digit d ≡ false
      → same_letter c d ≡ true
      → Similar false s t
      → Similar run (c ∷ s) (d ∷ t)
  digits :
      {run : Bool} {c d : ℕ} {s t : List ℕ}
      → is_digit c ≡ true
      → is_digit d ≡ true
      → Similar true s t
      → Similar run (c ∷ s) (d ∷ t)
  more_left : {c : ℕ} {s t : List ℕ} → is_digit c ≡ true → Similar true s t → Similar true (c ∷ s) t
  more_right :
      {d : ℕ} {s t : List ℕ} → is_digit d ≡ true → Similar true s t → Similar true s (d ∷ t)

to_ascii_lowercase-same_letter :
    (c d : ℕ) → same_letter c d ≡ true → to_ascii_lowercase c ≡ to_ascii_lowercase d
unfolding to_ascii_lowercase
to_ascii_lowercase-same_letter c d h = ground (arith, h)

squeeze-digit :
    (spaced : Bool) (c : ℕ) (s : List ℕ)
    → is_digit c ≡ true
    → (squeeze spaced true (c ∷ s) ≡ squeeze false true s)
      × (squeeze spaced false (c ∷ s) ≡ b'#' ∷ squeeze false true s)
unfolding squeeze
squeeze-digit spaced c s h = (rw (h, squeeze), rw (h, squeeze))

squeeze-other :
    (spaced run : Bool) (c d : ℕ) (s t : List ℕ)
    → is_digit c ≡ false
    → is_digit d ≡ false
    → to_ascii_lowercase c ≡ to_ascii_lowercase d
    → ((sp : Bool) → squeeze sp false s ≡ squeeze sp false t)
    → squeeze spaced run (c ∷ s) ≡ squeeze spaced run (d ∷ t)
unfolding squeeze
squeeze-other spaced run c d s t p q e ih = ground (arith, p, q, e, ih true, ih false)

-- A run of digits is never entered with a space just pushed.
Fine : Bool → Bool → Type 0
Fine run spaced = run ≡ true → spaced ≡ false

squeeze-Similar :
    {run : Bool} {s t : List ℕ}
    → Similar run s t
    → (spaced : Bool) → Fine run spaced
    → squeeze spaced run s ≡ squeeze spaced run t
unfolding Fine
squeeze-Similar end spaced f = refl
squeeze-Similar (same p q e r) spaced f =
    squeeze-other spaced _ _ _ _ _ p q (to_ascii_lowercase-same_letter _ _ e)
      (λ sp. squeeze-Similar r sp (λ h. cc))
squeeze-Similar (digits {run = true} {c = c} {d = d} {s = s} {t = t} p q r) spaced f =
    (squeeze-digit spaced c s p).0
    ∙ squeeze-Similar r false (λ h. refl)
    ∙ sym (squeeze-digit spaced d t q).0
squeeze-Similar (digits {run = false} {c = c} {d = d} {s = s} {t = t} p q r) spaced f =
    (squeeze-digit spaced c s p).1
    ∙ ap (λ l. b'#' ∷ l) (squeeze-Similar r false (λ h. refl))
    ∙ sym (squeeze-digit spaced d t q).1
squeeze-Similar (more_left {c = c} {s = s} {t = t} p r) spaced f =
    (squeeze-digit spaced c s p).0
    ∙ squeeze-Similar r false (λ h. refl)
    ∙ ap (λ b. squeeze b true t) (sym (f refl))
squeeze-Similar (more_right {d = d} {s = s} {t = t} q r) spaced f =
    ap (λ b. squeeze b true s) (f refl)
    ∙ squeeze-Similar r false (λ h. refl)
    ∙ sym (squeeze-digit spaced d t q).0

-- Descriptions that differ only in the case of ASCII letters and in the digits of their numbers have
-- one fingerprint.
pub normalize_fingerprint-Similar :
    {s t : List ℕ} → Similar false s t → normalize_fingerprint s ≡ normalize_fingerprint t
unfolding normalize_fingerprint Fine
normalize_fingerprint-Similar h = ap trim (squeeze-Similar h false (λ e. refl))
