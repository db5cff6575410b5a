-- ===== src/Common/Results.antt =====
-- What a call of the program gives, and calls that update an object.
use mathlib.Core.Option.{Option, none, some}

-- `dropped` is an `async` call whose future is dropped while it waits, `panicked` a failed
-- `assert!`, `expect` or slice, and `stuck` no result of the program: a loop ran out of fuel.
pub data Outcome {ℓ κ} (E : Type ℓ) (A : Type κ) : Type (ℓ ⊔ κ) where
  ok : A → Outcome E A
  err : E → Outcome E A
  dropped : Outcome E A
  panicked : Outcome E A
  stuck : Outcome E A

-- `map_err`
abbrev pub map_err {ℓ κ μ} :
    {E : Type ℓ} {F : Type κ} {A : Type μ} → (E → F) → Outcome E A → Outcome F A
map_err f (ok a) = ok a
map_err f (err e) = err (f e)
map_err f dropped = dropped
map_err f panicked = panicked
map_err f stuck = stuck

-- A method: it leaves the object behind also where it fails.
abbrev pub Exec {ℓ κ μ} : Type ℓ → Type κ → Type μ → Type (ℓ ⊔ κ ⊔ μ)
Exec S E A = S → Outcome E A × S

-- A call whose error becomes the caller's, as `?` has it.
abbrev pub wrap_err {ℓ κ μ ν} :
    {S : Type ℓ} {E : Type κ} {F : Type μ} {A : Type ν} → (E → F) → Exec S E A → Exec S F A
wrap_err f call s = (map_err f (call s).0, (call s).1)

module _ {ℓ κ μ} {S : Type ℓ} {E : Type κ} {A : Type μ} where
  abbrev pub pure : A → Exec S E A
  pure a s = (ok a, s)

  abbrev pub throw : E → Exec S E A
  throw e s = (err e, s)

  abbrev pub lift : Outcome E A → Exec S E A
  lift r s = (r, s)

  -- A panic where the value is missing, as `expect` has it.
  abbrev pub expect : Option A → Exec S E A
  expect none s = (panicked, s)
  expect (some a) s = (ok a, s)

module _ {ℓ κ μ ν} {S : Type ℓ} {E : Type κ} {A : Type μ} {B : Type ν} where
  abbrev pub continue : Outcome E A → (A → Exec S E B) → Exec S E B
  continue (ok a) f s = f a s
  continue (err e) f s = (err e, s)
  continue dropped f s = (dropped, s)
  continue panicked f s = (panicked, s)
  continue stuck f s = (stuck, s)

  infixl 5 ◌>>=◌ ◌>>◌
  abbrev pub ◌>>=◌ : Exec S E A → (A → Exec S E B) → Exec S E B
  ◌>>=◌ m f s = let (r, s') = m s in continue r f s'

  abbrev pub ◌>>◌ : Exec S E A → Exec S E B → Exec S E B
  ◌>>◌ m n = m >>= λ _. n
