-- ===== src/ObjectPool/Window.antt =====
-- What is reclaimed: as many objects as stayed available all through the calls since the last time.
use transaction_log.Common.{
  List, [], ap, arith, length, length-append, length-take, min, refl, some, sym, take, ℕ, ◌++◌, ◌+◌,
  ◌-◌, ◌∙◌, ◌∷◌, ◌≡◌, ◌≤◌,
}
use transaction_log.ObjectPool.Pool.{ObjectPool, pop, len, try_take, put, reclaim_unused}

-- The calls between two reclaims.
pub data Call (T : Type 0) : Type 0 where
  taking : Call T
  putting : T → Call T

module _ {T : Type 0} where
  unfoldable pub call : Call T → ObjectPool T → ObjectPool T
  unfolding try_take put
  call taking p = (try_take p).1
  call (putting x) p = put x p

  unfoldable pub calls : List (Call T) → ObjectPool T → ObjectPool T
  unfolding call
  calls [] p = p
  calls (c ∷ cs) p = calls cs (call c p)

  -- The number of available objects after a call, from the number before it.
  abbrev pub level : Call T → ℕ → ℕ
  level taking n = n - 1
  level (putting x) n = n + 1

  -- The level after some calls, and the lowest level on the way, from its start on.
  abbrev pub final : List (Call T) → ℕ → ℕ
  final [] n = n
  final (c ∷ cs) n = final cs (level c n)

  abbrev pub lowest : List (Call T) → ℕ → ℕ
  lowest [] n = n
  lowest (c ∷ cs) n = min n (lowest cs (level c n))

  length-pop : (xs : List T) → length (pop xs).1 ≡ length xs - 1
  unfolding pop
  length-pop [] = refl
  length-pop (x ∷ []) = refl
  length-pop (x ∷ y ∷ ys) = omega (arith, length-pop (y ∷ ys))

  lowest-le : (cs : List (Call T)) (n : ℕ) → (lowest cs n ≤ n) × (lowest cs n ≤ final cs n)
  lowest-le [] n = (omega arith, omega arith)
  lowest-le (c ∷ cs) n = let (a, b) = lowest-le cs (level c n) in (omega arith, omega (arith, b))

  len-calls : (cs : List (Call T)) (p : ObjectPool T) → len (calls cs p) ≡ final cs (len p)
  unfolding calls call try_take put
  len-calls [] p = refl
  len-calls (taking ∷ cs) p = len-calls cs _ ∙ ap (final cs) (length-pop p.available)
  len-calls (putting x ∷ cs) p = len-calls cs _ ∙ ap (final cs) (length-append p.available (x ∷ []))

  min_available-calls :
      (cs : List (Call T)) (p : ObjectPool T)
      → p.min_available ≤ len p
      → (calls cs p).min_available ≡ min p.min_available (lowest cs (len p))
  unfolding calls call try_take put
  min_available-calls [] p h = omega arith
  min_available-calls (taking ∷ cs) p h =
      let p' = (try_take p).1 in
      omega (
        arith,
        length-pop p.available,
        min_available-calls cs p' (omega (arith, length-pop p.available)),
        ap (lowest cs) (length-pop p.available),
        (lowest-le cs (length p.available - 1)).0,
      )
  min_available-calls (putting x ∷ cs) p h =
      let p' = put x p in
      let n : length (p.available ++ (x ∷ [])) ≡ length p.available + 1 =
        length-append p.available (x ∷ []) in
      omega (
        arith,
        n,
        min_available-calls cs p' (omega arith),
        ap (lowest cs) n,
        (lowest-le cs (length p.available + 1)).0,
      )

  -- After any calls in a window that has just begun, `reclaim_unused` does not panic. It discards as
  -- many objects as there were at the lowest point of the window, keeps the others from the beginning of
  -- the vector, and begins the next window.
  pub reclaim_unused-lowest :
      (cs : List (Call T)) (p : ObjectPool T)
      → p.min_available ≡ len p
      → (p' : ObjectPool T) × (reclaim_unused (calls cs p) ≡ some (lowest cs (len p), p'))
        × (p'.available ≡ take (final cs (len p) - lowest cs (len p)) (calls cs p).available)
        × (len p' ≡ final cs (len p) - lowest cs (len p))
        × (p'.min_available ≡ len p')
  unfolding reclaim_unused
  reclaim_unused-lowest cs p fresh =
      let q = calls cs p in
      let (a, b) = lowest-le cs (len p) in
      let m : q.min_available ≡ lowest cs (len p) =
        omega (arith, min_available-calls cs p (omega arith), a) in
      let n : len q ≡ final cs (len p) = len-calls cs p in
      let keep : len q - q.min_available ≡ final cs (len p) - lowest cs (len p) = omega arith in
      let size : length (take (len q - q.min_available) q.available) ≡ len q - q.min_available =
        omega (arith, length-take (len q - q.min_available) q.available) in
      (
        record {
          available = take (len q - q.min_available) q.available;
          min_available = len q - q.min_available;
        },
        ground (arith, m),
        ap (λ k. take k q.available) keep,
        size ∙ keep,
        sym size,
      )

  pop-append : (xs : List T) (x : T) → pop (xs ++ (x ∷ [])) ≡ (some x, xs)
  unfolding pop
  pop-append [] x = refl
  pop-append (y ∷ []) x = refl
  pop-append (y ∷ z ∷ xs) x = ap (λ r. (r.0, y ∷ r.1)) (pop-append (z ∷ xs) x)

  -- Where the recorded minimum is at most the number of objects, the object that was put last is taken
  -- first, and that leaves the pool as it was before.
  pub try_take-put :
      (x : T) (p : ObjectPool T) → p.min_available ≤ len p → try_take (put x p) ≡ (some x, p)
  unfolding try_take put
  try_take-put x p h =
      let m : min p.min_available (len p) ≡ p.min_available = omega arith in
      (λ i. (
        (pop-append p.available x i).0,
        record {
          available = (pop-append p.available x i).1;
          min_available = min p.min_available (length (pop-append p.available x i).1);
        },
      ))
      ∙ (λ i. (some x, record { available = p.available; min_available = m i }))
