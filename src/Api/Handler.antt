-- ===== src/Api/Handler.antt =====
-- A handler: steps over the services, each of which goes on with a value or ends the request with a
-- response. What was done before a response stays done.
use mini_siem_project.Prelude.{ℕ, String, List, Option, none, some}
use mini_siem_project.Prelude.Eff.{Result, Eff}

pub data Body (A : Type 0) : Type 0 where
  empty_body : Body A
  text : String → Body A
  -- an object of texts
  fields : List (String × String) → Body A
  json : A → Body A

pub record Response (A : Type 0) : Type 0 where
  pub status : ℕ
  pub body : Body A

pub data Flow (R A : Type 0) : Type 0 where
  reply : Response R → Flow R A
  go : A → Flow R A

abbrev pub Handler : Type 0 → Type 0 → Type 0 → Type 0
Handler S R A = S → Flow R A × S

module _ {S R A : Type 0} where
  abbrev pub done : A → Handler S R A
  done a s = (go a, s)

  abbrev pub respond : Response R → Handler S R A
  respond r s = (reply r, s)

  abbrev pub with_status : ℕ → R → Handler S R A
  with_status n a = respond (record { status = n; body = json a })

  abbrev pub with_text : ℕ → String → Handler S R A
  with_text n t = respond (record { status = n; body = text t })

  abbrev pub with_fields : ℕ → List (String × String) → Handler S R A
  with_fields n f = respond (record { status = n; body = fields f })

  -- A call of a service, whose outcome the handler looks at.
  abbrev pub outcome_of : Eff S A → Handler S R (Result A)
  outcome_of m s = let (r, s') = m s in (go r, s')

  -- A call of a service, whose outcome is dropped.
  abbrev pub perform : Eff S A → Handler S R (Unit {0})
  perform m s = let (r, s') = m s in (go tt, s')

  -- The claims that the middleware left with the request.
  abbrev pub present : Response R → Option A → Handler S R A
  present r none = respond r
  present r (some a) = done a

module _ {S R A B : Type 0} where
  abbrev pub continue : Flow R A → (A → Handler S R B) → Handler S R B
  continue (reply r) f s = (reply r, s)
  continue (go a) f s = f a s

  infixl 5 ◌>>=◌ ◌>>◌
  abbrev pub ◌>>=◌ : Handler S R A → (A → Handler S R B) → Handler S R B
  ◌>>=◌ m f s = let (r, s') = m s in continue r f s'

  abbrev pub ◌>>◌ : Handler S R A → Handler S R B → Handler S R B
  m >> n = m >>= λ _. n
