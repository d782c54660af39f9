-- ===== src/Table.antt =====
-- Fixed tables scanned by `for(i = 0; i < N; i++) if(test) return i;`, which channel.c,
-- irc_channel.c, user.c and connection.c all keep. An index of -1 is `none`.
pub mod Keyed
pub mod Prefix
pub mod Writes
use mathlib.Core.Path.{fun_ext}
use mx3bot.Base.{
  ℕ, zero, suc, ◌+◌, ◌≤◌, ◌<◌, ◌≡◌, ◌≢◌, refl, ap, ◌↔◌, Bool, true, false, Option, none, some, List,
  [], ◌∷◌, ◌++◌, arith, if◌then◌else◌, length, set, get_or, replicate,
}

abbrev pub bit : Bool → ℕ
bit true = 1
bit false = 0

abbrev pub next_index : Option ℕ → Option ℕ
next_index none = none
next_index (some i) = some (suc i)

module _ {ℓ} {A : Type ℓ} where
  -- The first entry that passes the test.
  unfoldable pub first_index : (A → Bool) → List A → Option ℕ
  first_index p [] = none
  first_index p (x ∷ xs) = if p x then some 0 else next_index (first_index p xs)

  -- How many entries pass.
  unfoldable pub tally : (A → Bool) → List A → ℕ
  tally p [] = 0
  tally p (x ∷ xs) = bit (p x) + tally p xs

  pub first_index-lt :
      (p : A → Bool) (xs : List A) (i : ℕ) → first_index p xs ≡ some i → i < length xs
  unfolding first_index
  first_index-lt p [] i h = cc
  first_index-lt p (x ∷ xs) zero h = omega arith
  first_index-lt p (x ∷ xs) (suc i) h = ground (arith, first_index-lt p xs i)

  pub first_index-hit :
      (p : A → Bool) (xs : List A) (i : ℕ) (d : A)
      → first_index p xs ≡ some i
      → p (get_or xs i d) ≡ true
  unfolding first_index
  first_index-hit p [] i d h = cc
  first_index-hit p (x ∷ xs) zero d h = ground arith
  first_index-hit p (x ∷ xs) (suc i) d h = ground (arith, first_index-hit p xs i d)

  pub first_index-none_iff :
      (p : A → Bool) (xs : List A) → (first_index p xs ≡ none) ↔ (tally p xs ≡ 0)
  unfolding first_index tally
  first_index-none_iff p [] = (λ h. refl, λ h. refl)
  first_index-none_iff p (x ∷ xs) = (
    λ h. ground (arith, (first_index-none_iff p xs).0),
    λ h. ground (arith, (first_index-none_iff p xs).1),
  )

  pub first_index-none :
      (p : A → Bool) (xs : List A) (i : ℕ) (d : A)
      → first_index p xs ≡ none
      → i < length xs
      → p (get_or xs i d) ≡ false
  unfolding first_index
  first_index-none p [] i d h k = elim k [ ]
  first_index-none p (x ∷ xs) zero d h k = ground arith
  first_index-none p (x ∷ xs) (suc i) d h k = ground (arith, first_index-none p xs i d)

  -- Two tests that agree on every entry find the same index.
  pub first_index_cong :
      (p q : A → Bool) (xs : List A) → ((a : A) → p a ≡ q a) → first_index p xs ≡ first_index q xs
  first_index_cong p q xs h = ap (λ (r : A → Bool). first_index r xs) (fun_ext h)

  pub tally_cong : (p q : A → Bool) (xs : List A) → ((a : A) → p a ≡ q a) → tally p xs ≡ tally q xs
  tally_cong p q xs h = ap (λ (r : A → Bool). tally r xs) (fun_ext h)

  -- A write of an entry that passes, where none did.
  pub first_index-set_new :
      (p : A → Bool) (xs : List A) (i : ℕ) (v : A)
      → first_index p xs ≡ none
      → p v ≡ true
      → i < length xs
      → first_index p (set xs i v) ≡ some i
  unfolding first_index
  first_index-set_new p [] i v h e k = elim k [ ]
  first_index-set_new p (x ∷ xs) zero v h e k = ground arith
  first_index-set_new p (x ∷ xs) (suc i) v h e k = ground (arith, first_index-set_new p xs i v)

  -- A write that the test cannot see.
  pub first_index-set_same :
      (p : A → Bool) (xs : List A) (i : ℕ) (v d : A)
      → p v ≡ p (get_or xs i d)
      → first_index p (set xs i v) ≡ first_index p xs
  unfolding first_index
  first_index-set_same p [] i v d e = refl
  first_index-set_same p (x ∷ xs) zero v d e = rw e
  first_index-set_same p (x ∷ xs) (suc i) v d e = rw (first_index-set_same p xs i v d e)

  pub tally-set :
      (p : A → Bool) (xs : List A) (i : ℕ) (v d : A)
      → i < length xs
      → tally p (set xs i v) + bit (p (get_or xs i d)) ≡ tally p xs + bit (p v)
  unfolding tally
  tally-set p [] i v d k = elim k [ ]
  tally-set p (x ∷ xs) zero v d k = omega arith
  tally-set p (x ∷ xs) (suc i) v d k = omega (arith, tally-set p xs i v d (omega arith))

  -- The only entry that passes is taken away.
  pub first_index-set_gone :
      (p : A → Bool) (xs : List A) (i : ℕ) (v d : A)
      → first_index p xs ≡ some i
      → tally p xs ≤ 1
      → p v ≡ false
      → first_index p (set xs i v) ≡ none
  first_index-set_gone p xs i v d h one gone =
      let was = first_index-hit p xs i d h in
      let count = tally-set p xs i v d (first_index-lt p xs i h) in
      (first_index-none_iff p (set xs i v)).1 (ground arith)

  pub tally-append : (p : A → Bool) (xs ys : List A) → tally p (xs ++ ys) ≡ tally p xs + tally p ys
  unfolding tally
  tally-append p [] ys = omega arith
  tally-append p (x ∷ xs) ys = omega (arith, tally-append p xs ys)

  pub tally-replicate : (p : A → Bool) (n : ℕ) (a : A) → p a ≡ false → tally p (replicate n a) ≡ 0
  unfolding tally
  tally-replicate p zero a h = refl
  tally-replicate p (suc n) a h = ground (arith, tally-replicate p n a)

  -- Entries that never pass can be appended.
  pub first_index-append :
      (p : A → Bool) (xs ys : List A) → tally p ys ≡ 0 → first_index p (xs ++ ys) ≡ first_index p xs
  unfolding first_index
  first_index-append p [] ys h = (first_index-none_iff p ys).1 h
  first_index-append p (x ∷ xs) ys h = rw (first_index-append p xs ys h)

  pub first_index-append_hit :
      (p : A → Bool) (xs : List A) (y : A) (ys : List A)
      → p y ≡ true
      → first_index p (xs ++ y ∷ ys) ≢ none
  unfolding first_index
  first_index-append_hit p [] y ys h = ground arith
  first_index-append_hit p (x ∷ xs) y ys h = ground (arith, first_index-append_hit p xs y ys h)
