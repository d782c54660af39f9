-- ===== src/Base/Options.antt =====
-- Chains of fallible steps, and calls that are known to return.
use Prim.Native.Nat.{ℕ, ◌<◌}
use mathlib.Core.Path.{◌≡◌, refl}
use mathlib.Core.Bool.{Bool, true, false}
use mathlib.Core.Option.{Option, none, some}
use mathlib.Core.List.{List}
use native.Mathlib.Omega.{arith}
use mx3bot.Base.Tests.{if◌then◌else◌, ltb}
use mx3bot.Base.Lists.{get_elem?, get_or, length, set, get_or-get_elem?}

infixl 5 ◌>>=◌
abbrev pub ◌>>=◌ {ℓ κ} : {A : Type ℓ} {B : Type κ} → Option A → (A → Option B) → Option B
none >>= f = none
some a >>= f = f a

pub some_eq {ℓ} : {A : Type ℓ} {a b : A} → some a ≡ some b → a ≡ b
some_eq e = cc

-- Two results that are made one after the other.
pub bind_some {ℓ κ μ} :
    {A : Type ℓ} {B : Type κ} {C : Type μ} (o : Option A) (f : A → B) (g : B → C)
    → ((o >>= λ a. some (f a)) >>= λ b. some (g b)) ≡ (o >>= λ a. some (g (f a)))
bind_some none f g = refl
bind_some (some a) f g = refl

-- The call returns a value, and the value satisfies `P`.
pub data Yields {ℓ κ} {A : Type ℓ} (P : A → Type κ) : Option A → Type (ℓ ⊔ κ) where
  yields : {a : A} → P a → Yields P (some a)

module _ {ℓ κ} {A : Type ℓ} {P : A → Type κ} where
  pub Yields-bind {ℓ' κ'} :
      {B : Type ℓ'} {Q : B → Type κ'} {o : Option A} {f : A → Option B}
      → Yields P o
      → ((a : A) → P a → Yields Q (f a))
      → Yields Q (o >>= f)
  Yields-bind (yields p) k = k _ p

  pub Yields-map {κ'} :
      {Q : A → Type κ'} {o : Option A} → Yields P o → ((a : A) → P a → Q a) → Yields Q o
  Yields-map (yields p) k = yields (k _ p)

  pub Yields-if :
      {x y : Option A} (b : Bool)
      → (b ≡ true → Yields P x)
      → (b ≡ false → Yields P y)
      → Yields P (if b then x else y)
  Yields-if true p q = p refl
  Yields-if false p q = q refl

  pub Yields-inv : {o : Option A} → Yields P o → (a : A) × (o ≡ some a) × P a
  Yields-inv (yields p) = (_, refl, p)

-- An access to an array of the heap's: `none` is a read or a write past what is allocated.
module _ {ℓ} {A : Type ℓ} where
  unfoldable pub load : List A → ℕ → Option A
  load a i = get_elem? a i

  unfoldable pub store : List A → ℕ → A → Option (List A)
  store a i v = if ltb i (length a) then some (set a i v) else none

  pub load-inside : (a : List A) (i : ℕ) (d : A) → i < length a → load a i ≡ some (get_or a i d)
  unfolding load
  load-inside a i d h = get_or-get_elem? a i d h

  pub store-inside : (a : List A) (i : ℕ) (v : A) → i < length a → store a i v ≡ some (set a i v)
  unfolding store
  store-inside a i v h = ground arith
