-- ===== src/Common/Chains.antt =====
-- What a chain of calls leaves behind, from what each of its calls does.
use mathlib.Core.Bool.{Bool, true, false}
use mathlib.Core.Option.{Option, none, some}
use transaction_log.Common.Tests.{if◌then◌else◌}
use transaction_log.Common.Results.{
  Outcome, ok, err, dropped, panicked, stuck, Exec, continue, map_err, ◌>>◌,
}

module _ {S E A : Type 0} where
  -- A call ends without a panic: with `Good` on success, with `Bad` where it fails or is dropped.
  abbrev pub Leaves : (Good Bad : S → Type 0) → Outcome E A → S → Type 0
  Leaves Good Bad (ok a) s = Good s
  Leaves Good Bad (err e) s = Bad s
  Leaves Good Bad dropped s = Bad s
  Leaves Good Bad panicked s = ⊥
  Leaves Good Bad stuck s = ⊥

module _ {E A : Type 0} where
  -- What holds after a call that succeeded.
  abbrev pub OnOk : Type 0 → Outcome E A → Type 0
  OnOk P (ok a) = P
  OnOk P (err e) = Unit
  OnOk P dropped = Unit
  OnOk P panicked = Unit
  OnOk P stuck = Unit

module _ {E A : Type 0} where
  -- What holds of the answer of a call that succeeded.
  abbrev pub Answered : (A → Type 0) → Outcome E A → Type 0
  Answered P (ok a) = P a
  Answered P (err e) = Unit
  Answered P dropped = Unit
  Answered P panicked = Unit
  Answered P stuck = Unit

pub map_err-Answered :
    {E F A : Type 0} (P : A → Type 0) (wrap : E → F) (r : Outcome E A)
    → Answered P r
    → Answered P (map_err wrap r)
map_err-Answered P wrap (ok a) h = h
map_err-Answered P wrap (err e) h = tt
map_err-Answered P wrap dropped h = tt
map_err-Answered P wrap panicked h = tt
map_err-Answered P wrap stuck h = tt

module _ {S E A B : Type 0} (P : A → Type 0) (Q : B → Type 0) where
  pub continue-Answered-by :
      (r : Outcome E A) (k : A → Exec S E B) (s : S)
      → Answered P r
      → ((a : A) (x : S) → P a → Answered Q (k a x).0)
      → Answered Q (continue r k s).0
  continue-Answered-by (ok a) k s p h = h a s p
  continue-Answered-by (err e) k s p h = tt
  continue-Answered-by dropped k s p h = tt
  continue-Answered-by panicked k s p h = tt
  continue-Answered-by stuck k s p h = tt

module _ {S E A B : Type 0} (Q : B → Type 0) where
  pub continue-Answered :
      (r : Outcome E A) (k : A → Exec S E B) (s : S)
      → ((a : A) (x : S) → Answered Q (k a x).0)
      → Answered Q (continue r k s).0
  continue-Answered (ok a) k s h = h a s
  continue-Answered (err e) k s h = tt
  continue-Answered dropped k s h = tt
  continue-Answered panicked k s h = tt
  continue-Answered stuck k s h = tt

module _ {S E A B : Type 0} (Good Good' Bad : S → Type 0) where
  continue-Leaves :
      (r : Outcome E A) (s : S) (n : Exec S E B)
      → Leaves Good Bad r s
      → ((s' : S) → Good s' → Leaves Good' Bad (n s').0 (n s').1)
      → let result = continue r (λ _. n) s in Leaves Good' Bad result.0 result.1
  continue-Leaves (ok a) s n h k = k s h
  continue-Leaves (err e) s n h k = h
  continue-Leaves dropped s n h k = h
  continue-Leaves panicked s n h k = absurd h
  continue-Leaves stuck s n h k = absurd h

  -- Two calls in a row.
  pub then-Leaves :
      (m : Exec S E A) (n : Exec S E B) (s : S)
      → Leaves Good Bad (m s).0 (m s).1
      → ((s' : S) → Good s' → Leaves Good' Bad (n s').0 (n s').1)
      → let result = (m >> n) s in Leaves Good' Bad result.0 result.1
  then-Leaves m n s = continue-Leaves (m s).0 (m s).1 n

module _ {S E A B : Type 0} (Q : S → Type 0) where
  continue-OnOk :
      (r : Outcome E A) (s : S) (n : Exec S E B)
      → ((s' : S) → OnOk (Q (n s').1) (n s').0)
      → let result = continue r (λ _. n) s in OnOk (Q result.1) result.0
  continue-OnOk (ok a) s n k = k s
  continue-OnOk (err e) s n k = tt
  continue-OnOk dropped s n k = tt
  continue-OnOk panicked s n k = tt
  continue-OnOk stuck s n k = tt

  -- The end of a call decides what holds after two in a row.
  pub then-OnOk :
      (m : Exec S E A) (n : Exec S E B) (s : S)
      → ((s' : S) → OnOk (Q (n s').1) (n s').0)
      → let result = (m >> n) s in OnOk (Q result.1) result.0
  then-OnOk m n s = continue-OnOk (m s).0 (m s).1 n

module _ {S E A : Type 0} (Good Bad : S → Type 0) (Q : S → Type 0) where
  -- Both of what a success leaves.
  pub Leaves-OnOk :
      (r : Outcome E A) (s : S)
      → Leaves Good Bad r s
      → OnOk (Q s) r
      → Leaves (λ x. Good x × Q x) Bad r s
  Leaves-OnOk (ok a) s g q = (g, q)
  Leaves-OnOk (err e) s b q = b
  Leaves-OnOk dropped s b q = b
  Leaves-OnOk panicked s b q = b
  Leaves-OnOk stuck s b q = b

-- A call and then the rest, from what the call does. Laws rule out its panic.
pub after_call :
    {S : Type 0} {E : Type 0} {F : Type 0} {A : Type 0} {B : Type 0} (wrap : E → F)
    (Law : Outcome E A → Type 0) (Post : S → Outcome F B → Type 0) (r : Outcome E A) (y : S)
    (k : A → Exec S F B)
    → Law r
    → ((e : E) → Law (err e) → Post y (err (wrap e)))
    → (Law dropped → Post y dropped)
    → (Law panicked → ⊥)
    → (Law stuck → ⊥)
    → ((a : A) → Law (ok a) → Post (k a y).1 (k a y).0)
    → let x = continue (map_err wrap r) k y in Post x.1 x.0
after_call wrap Law Post (ok a) y k l e d p s next = next a l
after_call wrap Law Post (err x) y k l e d p s next = e x l
after_call wrap Law Post dropped y k l e d p s next = d l
after_call wrap Law Post panicked y k l e d p s next = absurd (p l)
after_call wrap Law Post stuck y k l e d p s next = absurd (s l)

-- What a call and the rest keep, the chain keeps.
pub continue-keeps :
    {S : Type 0} {E : Type 0} {A : Type 0} {B : Type 0} (Q : S → Type 0) (r : Outcome E A)
    (k : A → Exec S E B) (s : S)
    → Q s
    → ((a : A) (x : S) → Q x → Q (k a x).1)
    → Q (continue r k s).1
continue-keeps Q (ok a) k s q h = h a s q
continue-keeps Q (err e) k s q h = q
continue-keeps Q dropped k s q h = q
continue-keeps Q panicked k s q h = q
continue-keeps Q stuck k s q h = q

-- What holds of both branches holds of a branching.
pub if-either :
    {A : Type 0} (P : A → Type 0) (b : Bool) {x y : A} → P x → P y → P (if b then x else y)
if-either P true p q = p
if-either P false p q = q

pub option-either :
    {A : Type 0} {B : Type 0} (P : B → Type 0) (o : Option A) {x : B} {f : A → B}
    → P x
    → ((a : A) → P (f a))
    → P (elim o [ none ↦ x | some a ↦ f a ])
option-either P none p q = p
option-either P (some a) p q = q a

pub bool-either :
    {A : Type 0} (P : A → Type 0) (b : Bool) {x y : A}
    → P x
    → P y
    → P (elim b [ true ↦ x | false ↦ y ])
bool-either P true p q = p
bool-either P false p q = q
