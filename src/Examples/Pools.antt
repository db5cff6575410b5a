-- ===== src/Examples/Pools.antt =====
-- The object pool at concrete inputs.
use transaction_log.Common.{List, [], arith, refl, some, take, ℕ, ◌∷◌, ◌≡◌}
use transaction_log.ObjectPool.Pool.{ObjectPool, len, try_take, put, reclaim_unused}
use transaction_log.ObjectPool.Window.{
  Call, taking, putting, calls, reclaim_unused-lowest, try_take-put,
}

abbrev three : ObjectPool ℕ
three = record { available = 10 ∷ 20 ∷ 30 ∷ []; min_available = 3 }

-- Two objects leave and one comes back.
abbrev dip : List (Call ℕ)
dip = taking ∷ taking ∷ putting 40 ∷ []

reclaim_unused-lowest_example :
    (p' : ObjectPool ℕ) × (reclaim_unused (calls dip three) ≡ some (1, p'))
    × (p'.available ≡ take 1 (calls dip three).available)
    × (len p' ≡ 1)
    × (p'.min_available ≡ len p')
reclaim_unused-lowest_example = reclaim_unused-lowest dip three refl

try_take-put_example : try_take (put 40 three) ≡ (some 40, three)
try_take-put_example = try_take-put 40 three (omega arith)
