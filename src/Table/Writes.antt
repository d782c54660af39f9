-- ===== src/Table/Writes.antt =====
-- Fixed tables: an entry that is read behind a write, and the first that passes in front of one.
use mx3bot.Base.{◌≡◌, refl, ◌<◌, ℕ, zero, suc, Bool, some, List, [], ◌∷◌, arith, length, load, set}
use mx3bot.Table.{first_index}

module _ {ℓ} {A : Type ℓ} where
  pub load-set : (xs : List A) (i : ℕ) (v : A) → i < length xs → load (set xs i v) i ≡ some v
  unfolding load
  load-set [] i v h = elim h [ ]
  load-set (x ∷ xs) zero v h = refl
  load-set (x ∷ xs) (suc i) v h = load-set xs i v (omega arith)

  pub load-set_other : (xs : List A) (i j : ℕ) (v : A) → j < i → load (set xs i v) j ≡ load xs j
  unfolding load
  load-set_other [] i j v h = refl
  load-set_other (x ∷ xs) zero j v h = absurd (omega arith)
  load-set_other (x ∷ xs) (suc i) zero v h = refl
  load-set_other (x ∷ xs) (suc i) (suc j) v h = load-set_other xs i j v (omega arith)

  -- A write behind the first that passes.
  pub first_index-set_later :
      (p : A → Bool) (xs : List A) (i j : ℕ) (v : A)
      → first_index p xs ≡ some j
      → j < i
      → first_index p (set xs i v) ≡ some j
  unfolding first_index
  first_index-set_later p [] i j v e h = e
  first_index-set_later p (x ∷ xs) zero j v e h = absurd (omega arith)
  first_index-set_later p (x ∷ xs) (suc i) zero v e h = ground (arith, e)
  first_index-set_later p (x ∷ xs) (suc i) (suc j) v e h =
      ground (arith, e, first_index-set_later p xs i j v)
