-- ===== src/Prelude/Eff.antt =====
-- Fallible effects: what an `async fn` that returns `anyhow::Result` does to the state of the
-- services behind it. What was written before an error stays written.
use Prim.Native.String.{String}
use mathlib.Core.Path.{◌≡◌, refl}
use mathlib.Core.Logic.{◌⊎◌, inl, inr}

pub data Result {ℓ} (A : Type ℓ) : Type ℓ where
  ok : A → Result A
  err : String → Result A

abbrev pub Eff : Type 0 → Type 0 → Type 0
Eff S A = S → Result A × S

module _ {S A : Type 0} where
  abbrev pub pure : A → Eff S A
  pure a s = (ok a, s)

  abbrev pub fail : String → Eff S A
  fail e s = (err e, s)

module _ {S A B : Type 0} where
  abbrev pub continue : Result A → (A → Eff S B) → Eff S B
  continue (ok a) f s = f a s
  continue (err e) f s = (err e, s)

  infixl 5 ◌>>=◌ ◌>>◌
  -- The `?` operator: an error ends the function.
  abbrev pub ◌>>=◌ : Eff S A → (A → Eff S B) → Eff S B
  ◌>>=◌ m f s = let (r, s') = m s in continue r f s'

  abbrev pub ◌>>◌ : Eff S A → Eff S B → Eff S B
  m >> n = m >>= λ _. n

  -- `let _ = e`: the outcome is dropped, and the run goes on.
  abbrev pub ignore_then : Eff S A → Eff S B → Eff S B
  ignore_then m n s = let (r, s') = m s in n s'

  -- `match m { Ok(a) => …, Err(e) => … }`
  abbrev pub handle : Eff S A → (Result A → Eff S B) → Eff S B
  handle m f s = let (r, s') = m s in f r s'

pub Result-cases {ℓ} :
    {A : Type ℓ} (r : Result A) → ((a : A) × (r ≡ ok a)) ⊎ ((e : String) × (r ≡ err e))
Result-cases (ok a) = inl (a, refl)
Result-cases (err e) = inr (e, refl)
