-- ===== src/ObjectPool/Pool.antt =====
-- object_pool.rs: a stack of available objects. The last one of the list is the top.
use transaction_log.Common.{
  Bool, List, Option, [], if◌then◌else◌, length, ltb, min, none, some, take, ℕ, ◌++◌, ◌-◌, ◌==◌,
  ◌∷◌,
}

pub record ObjectPool (T : Type 0) : Type 0 where
  pub available : List T
  pub min_available : ℕ

-- `Vec::pop`
unfoldable pub pop {ℓ} : {A : Type ℓ} → List A → Option A × List A
pop [] = (none, [])
pop (x ∷ []) = (some x, [])
pop (x ∷ y ∷ ys) = let (top, rest) = pop (y ∷ ys) in (top, x ∷ rest)

module _ {T : Type 0} where
  abbrev pub new : ObjectPool T
  new = record { available = []; min_available = 0 }

  abbrev pub len : ObjectPool T → ℕ
  len p = length p.available

  abbrev pub is_empty : ObjectPool T → Bool
  is_empty p = len p == 0

  unfoldable pub try_take : ObjectPool T → Option T × ObjectPool T
  try_take p =
      let (object, rest) = pop p.available in
      (object, record { available = rest; min_available = min p.min_available (length rest) })

  -- `create` is the closure's result.
  unfoldable pub take_or_else : T → ObjectPool T → T × ObjectPool T
  unfolding try_take
  take_or_else create p =
      let (object, p') = try_take p in (elim object [ some x ↦ x | none ↦ create ], p')

  unfoldable pub put : T → ObjectPool T → ObjectPool T
  put object p = record p { available = p.available ++ (object ∷ []) }

  -- `none` is the panic of a subtraction below zero.
  unfoldable pub reclaim_unused : ObjectPool T → Option (ℕ × ObjectPool T)
  reclaim_unused p =
      let remove = p.min_available in
      let retain = len p - remove in
      if ltb (len p) remove
      then none
      else some (remove, record { available = take retain p.available; min_available = retain })
