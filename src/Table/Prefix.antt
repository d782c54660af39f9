-- ===== src/Table/Prefix.antt =====
-- Writes to an array, counted over its first entries.
use mathlib.Core.Path.{◌≡◌, refl, ap}
use native.Mathlib.Numerals.{add-one}
use mx3bot.Base.{
  ℕ, zero, suc, ◌+◌, ◌≤◌, ◌<◌, ◌==◌, Bool, List, [], ◌∷◌, arith, if◌then◌else◌, length, set, get_or,
  take,
}
use mx3bot.Table.{bit, tally}

module _ {ℓ} {A : Type ℓ} where
  pub get_or-set :
      (xs : List A) (i j : ℕ) (v d : A)
      → i < length xs
      → get_or (set xs i v) j d ≡ (if i == j then v else get_or xs j d)
  get_or-set [] i j v d h = elim h [ ]
  get_or-set (x ∷ xs) zero zero v d h = refl
  get_or-set (x ∷ xs) zero (suc j) v d h = ground arith
  get_or-set (x ∷ xs) (suc i) zero v d h = ground arith
  get_or-set (x ∷ xs) (suc i) (suc j) v d h = ground (arith, get_or-set xs i j v d (omega arith))

  tally-take-suc :
      (t : A → Bool) (xs : List A) (n : ℕ) (d : A)
      → n < length xs
      → tally t (take (suc n) xs) ≡ tally t (take n xs) + bit (t (get_or xs n d))
  unfolding tally
  tally-take-suc t [] n d h = elim h [ ]
  tally-take-suc t (x ∷ xs) zero d h = omega arith
  tally-take-suc t (x ∷ xs) (suc n) d h = omega (arith, tally-take-suc t xs n d (omega arith))

  pub tally-take_next :
      (t : A → Bool) (xs : List A) (n : ℕ) (d : A)
      → n < length xs
      → tally t (take (n + 1) xs) ≡ tally t (take n xs) + bit (t (get_or xs n d))
  tally-take_next t xs n d h = rw (add-one n) (tally-take-suc t xs n d h)

  -- A write inside the first entries trades the old entry for the new one.
  pub tally-take-set :
      (t : A → Bool) (xs : List A) (n i : ℕ) (v d : A)
      → i < n
      → i < length xs
      → tally t (take n (set xs i v)) + bit (t (get_or xs i d)) ≡ tally t (take n xs) + bit (t v)
  unfolding tally
  tally-take-set t [] n i v d h k = elim k [ ]
  tally-take-set t (x ∷ xs) zero i v d h k = elim h [ ]
  tally-take-set t (x ∷ xs) (suc n) zero v d h k = omega arith
  tally-take-set t (x ∷ xs) (suc n) (suc i) v d h k =
      omega (arith, tally-take-set t xs n i v d (omega arith) (omega arith))

  -- A write past them is not counted.
  pub take-set_past : (xs : List A) (n i : ℕ) (v : A) → n ≤ i → take n (set xs i v) ≡ take n xs
  take-set_past xs zero i v h = refl
  take-set_past [] (suc n) i v h = refl
  take-set_past (x ∷ xs) (suc n) zero v h = elim h [ ]
  take-set_past (x ∷ xs) (suc n) (suc i) v h = ap (◌∷◌ x) (take-set_past xs n i v (omega arith))
