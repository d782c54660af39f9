-- ===== src/Irc/Queue/Live.antt =====
-- The queued items as a multiset: how often a test holds of them.
use native.Mathlib.Numerals.{add-one}
use mx3bot.Base.{
  ℕ, zero, suc, ◌+◌, ◌≤◌, ◌<◌, ◌≡◌, refl, ap, ◌∙◌, Bool, false, List, [], ◌∷◌, arith, length, set,
  take, drop, length-set,
}
use mx3bot.Table.{bit, tally}
use mx3bot.Table.Prefix.{get_or-set, tally-take-set, tally-take_next}
use mx3bot.Irc.Queue.{Item, Queue}
use mx3bot.Irc.Queue.Order.{no_item, at, IsMoved}

-- The queued items, in the array's order.
abbrev pub live : Queue → List Item
live q = drop 1 (take q.heap_size q.heap_item)

tally-drop_one :
    (t : Item → Bool) (a : List Item) (n : ℕ)
    → 1 ≤ n
    → 1 ≤ length a
    → tally t (drop 1 (take n a)) + bit (t (at a 0)) ≡ tally t (take n a)
unfolding tally
tally-drop_one t a zero h k = elim h [ ]
tally-drop_one t [] (suc n) h k = elim k [ ]
tally-drop_one t (x ∷ a) (suc n) h k = omega arith

-- The hole at `j` is filled with `x`.
module _ (a b : List Item) (n i j : ℕ) (x : Item) (m : IsMoved a n i b j) (slot : (1 ≤ j) × (j < n))
    (room : n ≤ length a) where
  filled-unused : at (set b j x) 0 ≡ at a 0
  filled-unused = ground (arith, m.unused, get_or-set b j 0 x no_item (omega (arith, m.sized)))

  filled-same :
      (t : Item → Bool)
      → tally t (take n (set b j x)) + bit (t (at a i)) ≡ tally t (take n a) + bit (t x)
  filled-same t =
      omega (arith, m.same t, tally-take-set t b n j x no_item slot.1 (omega (arith, m.sized)))

-- A hole at the end of the array is one more item.
pub filled_last :
    (a b : List Item) (n j : ℕ) (x : Item)
    → IsMoved a (n + 1) n b j
    → (1 ≤ j) × (j < n + 1)
    → 1 ≤ n
    → n < length a
    → (t : Item → Bool)
    → tally t (drop 1 (take (n + 1) (set b j x))) ≡ bit (t x) + tally t (drop 1 (take n a))
filled_last a b n j x m slot low room t =
    let c = set b j x in
    let sized : length c ≡ length a = length-set b j x ∙ m.sized in
    let kept =
      ap (λ (y : Item). bit (t y)) (filled-unused a b (n + 1) n j x m slot (omega arith)) in
    omega (
      arith,
      kept,
      tally-drop_one t a n low (omega arith),
      tally-drop_one t c (n + 1) (omega arith) (omega arith),
      tally-take_next t a n no_item room,
      filled-same a b (n + 1) n j x m slot (omega arith) t,
    )

-- The root goes, and the last entry fills the hole that is left.
pub filled_first :
    (a b : List Item) (n j : ℕ) (x : Item)
    → IsMoved a n 1 b j
    → (1 ≤ j) × (j < n)
    → n < length a
    → x ≡ at a n
    → (t : Item → Bool)
    → bit (t (at a 1)) + tally t (drop 1 (take n (set b j x))) ≡ tally t (drop 1 (take (n + 1) a))
filled_first a b n j x m slot room last t =
    let c = set b j x in
    let sized : length c ≡ length a = length-set b j x ∙ m.sized in
    let kept = ap (λ (y : Item). bit (t y)) (filled-unused a b n 1 j x m slot (omega arith)) in
    let same = ap (λ (y : Item). bit (t y)) last in
    omega (
      arith,
      kept,
      same,
      tally-drop_one t a (n + 1) (omega arith) (omega arith),
      tally-drop_one t c n (omega arith) (omega arith),
      tally-take_next t a n no_item room,
      filled-same a b n 1 j x m slot (omega arith) t,
    )

pub tally-none :
    (t : Item → Bool) (a : List Item) (n : ℕ)
    → n ≤ length a
    → ((c : ℕ) → 1 ≤ c → c < n → t (at a c) ≡ false)
    → tally t (drop 1 (take n a)) ≡ 0
unfolding tally
tally-none t a zero room h = refl
tally-none t [] (suc n) room h = elim room [ ]
tally-none t (x ∷ a) (suc zero) room h = refl
tally-none t (x ∷ a) (suc (suc n)) room h = ground (
  arith,
  tally-none t (x ∷ a) (suc n) (omega arith) (λ c low high. h c low (omega arith)),
  tally-take_next t a n no_item (omega arith),
  rw (add-one n) at (tally-take_next t a n no_item (omega arith)),
  h (suc n) (omega arith) (omega arith),
)
