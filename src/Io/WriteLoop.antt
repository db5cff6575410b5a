-- ===== src/Io/WriteLoop.antt =====
-- The loop with which both writers hand their buffer to the destination: it goes on after a partial
-- or an interrupted write.
use transaction_log.Common.{
  Bool-cases, Exec, List, Outcome, [], ap, append-nil, append_assoc, arith, drop, dropped, err,
  if◌then◌else◌, inl, inr, length, length-drop, le→ltb, ltb, ok, panicked, stuck, suc, sym, take,
  take-add, take-append-drop, zero, ℕ, ◌++◌, ◌+◌, ◌∙◌, ◌∷◌, ◌≡◌, ◌≤◌,
}
use transaction_log.Io.Error.{IoError, write_zero, interrupted}
use transaction_log.Io.Output.{Output, IsOutput, Wrote, Passed}

-- The arms of the `match` on one write, given the loop for the rest.
after_write {ℓ} :
    {D : Type ℓ}
    → (List ℕ → Exec D IoError (Unit {0}))
    → List ℕ
    → Outcome IoError ℕ
    → Exec D IoError (Unit {0})
after_write loop bytes (ok zero) d = (err write_zero, d)
after_write loop bytes (ok (suc n)) d =
    if ltb (length bytes) (suc n) then (panicked, d) else loop (drop (suc n) bytes) d
after_write loop bytes (err interrupted) d = loop bytes d
after_write loop bytes (err e) d = (err e, d)
after_write loop bytes dropped d = (dropped, d)
after_write loop bytes panicked d = (panicked, d)
after_write loop bytes stuck d = (stuck, d)

module _ {D : Type 0} (o : Output D) where
  -- `while !bytes.is_empty() { match destination.write(bytes).await { … } }`
  unfoldable pub write_loop : ℕ → List ℕ → Exec D IoError (Unit {0})
  unfolding after_write
  write_loop fuel [] d = (ok tt, d)
  write_loop zero (b ∷ bs) d = (stuck, d)
  write_loop (suc fuel) (b ∷ bs) d =
      let (r, d') = o.write (b ∷ bs) d in after_write (write_loop fuel) (b ∷ bs) r d'

-- What the loop may leave behind: all bytes taken, or a prefix of them and a failure.
abbrev pub Written :
    {D : Type 0} (accepted : D → List ℕ) (stalls : D → ℕ) (bytes : List ℕ) (before after : D)
    → Outcome IoError (Unit {0})
    → Type 0
Written accepted stalls bytes before after (ok u) =
    (accepted after ≡ accepted before ++ bytes) × (stalls after ≤ stalls before)
Written accepted stalls bytes before after (err e) =
    (k : ℕ) × (accepted after ≡ accepted before ++ take k bytes)
Written accepted stalls bytes before after dropped =
    (k : ℕ) × (accepted after ≡ accepted before ++ take k bytes)
Written accepted stalls bytes before after panicked = ⊥
Written accepted stalls bytes before after stuck = ⊥

module _ {D : Type 0} (accepted : D → List ℕ) (stalls : D → ℕ) where
  -- A round that took `n` bytes, before the rest of the loop.
  after_part :
      (n : ℕ) (bytes : List ℕ) (d d' d'' : D) (r : Outcome IoError (Unit {0}))
      → accepted d' ≡ accepted d ++ take n bytes
      → stalls d' ≤ stalls d
      → Written accepted stalls (drop n bytes) d' d'' r
      → Written accepted stalls bytes d d'' r
  after_part n bytes d d' d'' (ok u) e s (f, g) = (
    f
        ∙ ap (λ a. a ++ drop n bytes) e
        ∙ append_assoc (accepted d) (take n bytes) (drop n bytes)
        ∙ ap (λ x. accepted d ++ x) (take-append-drop n bytes),
    omega arith,
  )
  after_part n bytes d d' d'' (err x) e s (k, f) = (n + k, more)
    where
      more : accepted d'' ≡ accepted d ++ take (n + k) bytes
      more =
          f
          ∙ ap (λ a. a ++ take k (drop n bytes)) e
          ∙ append_assoc (accepted d) _ _
          ∙ ap (λ x. accepted d ++ x) (sym (take-add n k bytes))
  after_part n bytes d d' d'' dropped e s (k, f) = (n + k, more)
    where
      more : accepted d'' ≡ accepted d ++ take (n + k) bytes
      more =
          f
          ∙ ap (λ a. a ++ take k (drop n bytes)) e
          ∙ append_assoc (accepted d) _ _
          ∙ ap (λ x. accepted d ++ x) (sym (take-add n k bytes))
  after_part n bytes d d' d'' panicked e s h = h
  after_part n bytes d d' d'' stuck e s h = h

  -- Nothing taken, before the rest of the loop.
  after_stall :
      (bytes : List ℕ) (d d' d'' : D) (r : Outcome IoError (Unit {0}))
      → accepted d' ≡ accepted d
      → stalls d' ≤ stalls d
      → Written accepted stalls bytes d' d'' r
      → Written accepted stalls bytes d d'' r
  after_stall bytes d d' d'' r e s h =
      after_part zero bytes d d' d'' r (e ∙ sym (append-nil (accepted d))) s h

  after_write-Written :
      (loop : List ℕ → Exec D IoError (Unit {0})) (fuel : ℕ) (bytes : List ℕ)
      (r : Outcome IoError ℕ) (d d' : D)
      → ((rest : List ℕ) (x : D)
          → length rest + stalls x ≤ fuel
          → Written accepted stalls rest x (loop rest x).1 (loop rest x).0)
      → length bytes + stalls d ≤ suc fuel
      → Wrote accepted stalls bytes d d' r
      → Written accepted stalls bytes d
          (after_write loop bytes r d').1
          (after_write loop bytes r d').0
  unfolding after_write
  after_write-Written loop fuel bytes (ok zero) d d' ih h (n, e, s) = (0, e)
  after_write-Written loop fuel bytes (ok (suc n)) d d' ih h (le, e, s) =
      rw (le→ltb (length bytes) (suc n) le) (
        after_part (suc n) bytes d d' _ _ e s
          (ih (drop (suc n) bytes) d' (omega (arith, length-drop (suc n) bytes))))
  after_write-Written loop fuel bytes (err interrupted) d d' ih h (e, s) =
      after_stall bytes d d' _ _ e (omega arith) (ih bytes d' (omega arith))
  after_write-Written loop fuel bytes (err write_zero) d d' ih h e =
      (0, e ∙ sym (append-nil (accepted d)))
  after_write-Written loop fuel bytes (err x) d d' ih h e = (0, e ∙ sym (append-nil (accepted d)))
  after_write-Written loop fuel bytes dropped d d' ih h e = (0, e ∙ sym (append-nil (accepted d)))
  after_write-Written loop fuel bytes panicked d d' ih h e = e
  after_write-Written loop fuel bytes stuck d d' ih h e = e

module _ {D : Type 0} {o : Output D} {accepted : D → List ℕ} {stalls : D → ℕ}
    (laws : IsOutput o accepted stalls) where
  -- With fuel for every byte and every interruption the loop ends and does not panic. It has
  -- handed over all the bytes, or a prefix of them where it fails or is dropped.
  pub write_loop-Written :
      (fuel : ℕ) (bytes : List ℕ) (d : D)
      → length bytes + stalls d ≤ fuel
      → Written accepted stalls bytes d (write_loop o fuel bytes d).1 (write_loop o fuel bytes d).0
  unfolding write_loop
  write_loop-Written fuel [] d h = (sym (append-nil (accepted d)), omega arith)
  write_loop-Written zero (b ∷ bs) d h = absurd (omega arith)
  write_loop-Written (suc fuel) (b ∷ bs) d h =
      after_write-Written accepted stalls (write_loop o fuel) fuel (b ∷ bs) (o.write (b ∷ bs) d).0 d
        (o.write (b ∷ bs) d).1 (write_loop-Written fuel) h (laws.wrote (b ∷ bs) d)

module _ {D : Type 0} (accepted : D → List ℕ) (stalls : D → ℕ) where
  -- A call without bytes.
  pub Passed→Written :
      (r : Outcome IoError (Unit {0})) (d d' : D)
      → Passed accepted stalls d d' r
      → Written accepted stalls [] d d' r
  Passed→Written (ok u) d d' (e, s) = (e ∙ sym (append-nil (accepted d)), s)
  Passed→Written (err x) d d' e = (0, e ∙ sym (append-nil (accepted d)))
  Passed→Written dropped d d' e = (0, e ∙ sym (append-nil (accepted d)))
  Passed→Written panicked d d' h = h
  Passed→Written stuck d d' h = h

-- What every write of a destination keeps, the loop keeps.
module _ {D : Type 0} (o : Output D) (Q : D → Type 0)
    (writes : (bytes : List ℕ) (d : D) → Q d → Q (o.write bytes d).1) where
  after_write-keeps :
      (loop : List ℕ → Exec D IoError (Unit {0})) (bytes : List ℕ) (r : Outcome IoError ℕ) (d : D)
      → ((left : List ℕ) (x : D) → Q x → Q (loop left x).1)
      → Q d
      → Q (after_write loop bytes r d).1
  unfolding after_write
  after_write-keeps loop bytes (ok zero) d ih q = q
  after_write-keeps loop bytes (ok (suc n)) d ih q =
      elim (Bool-cases (ltb (length bytes) (suc n))) [
        | inl over ↦ rw over q
        | inr fits ↦ rw fits (ih (drop (suc n) bytes) d q)
      ]
  after_write-keeps loop bytes (err interrupted) d ih q = ih bytes d q
  after_write-keeps loop bytes (err e) d ih q = q
  after_write-keeps loop bytes dropped d ih q = q
  after_write-keeps loop bytes panicked d ih q = q
  after_write-keeps loop bytes stuck d ih q = q

  pub write_loop-keeps : (fuel : ℕ) (bytes : List ℕ) (d : D) → Q d → Q (write_loop o fuel bytes d).1
  unfolding write_loop
  write_loop-keeps fuel [] d q = q
  write_loop-keeps zero (b ∷ bs) d q = q
  write_loop-keeps (suc fuel) (b ∷ bs) d q =
      after_write-keeps (write_loop o fuel) (b ∷ bs) (o.write (b ∷ bs) d).0 (o.write (b ∷ bs) d).1
        (write_loop-keeps fuel) (writes (b ∷ bs) d q)
