-- ===== src/Irc/Queue/Order.antt =====
-- The heap order, and the two states of the array between the moves of a hole.
use mx3bot.Base.{
  ℕ, ◌+◌, ◌/◌, ◌≤◌, ◌<◌, ◌≡◌, refl, ◌∙◌, ◌≢◌, Bool, List, [], arith, length, get_or, set, take,
  length-set,
}
use mx3bot.Table.{bit, tally}
use mx3bot.Table.Prefix.{get_or-set, tally-take-set}
use mx3bot.Irc.Queue.{Item}

-- Outside the array there is nothing to read; this value is never looked at.
abbrev pub no_item : Item
no_item = record { p = 0; d = [] }

abbrev pub at : List Item → ℕ → Item
at a i = get_or a i no_item

abbrev pub key : List Item → ℕ → ℕ
key a i = (at a i).p

-- The entries 1 to n - 1 are in heap order.
abbrev pub IsHeap : List Item → ℕ → Type 0
IsHeap a n = (c : ℕ) → 1 < c → c < n → key a c ≤ key a (c / 2)

-- The entries are in heap order but for those next to the hole `i`, into which an entry of key `p`
-- may go once the parent's key is no smaller.
pub record IsRising (a : List Item) (n i p : ℕ) : Type 0 where
  pub inside : (1 ≤ i) × (i < n)
  pub edges : (c : ℕ) → 1 < c → c < n → c ≢ i → c / 2 ≢ i → key a c ≤ key a (c / 2)
  pub under : (c : ℕ) → 1 < c → c < n → c / 2 ≡ i → key a c ≤ p
  pub bridged : (c : ℕ) → 1 < c → c < n → c / 2 ≡ i → 1 < i → key a c ≤ key a (i / 2)

-- The same, where an entry of key `p` may go in once no child's key is larger.
pub record IsSinking (a : List Item) (n i p : ℕ) : Type 0 where
  pub inside : (1 ≤ i) × (i < n)
  pub edges : (c : ℕ) → 1 < c → c < n → c ≢ i → c / 2 ≢ i → key a c ≤ key a (c / 2)
  pub above : 1 < i → p ≤ key a (i / 2)
  pub bridged : (c : ℕ) → 1 < c → c < n → c / 2 ≡ i → 1 < i → key a c ≤ key a (i / 2)

-- `b` is `a` with its hole moved from `i` to `j` within the first `n` entries.
pub record IsMoved (a : List Item) (n i : ℕ) (b : List Item) (j : ℕ) : Type 0 where
  pub sized : length b ≡ length a
  pub unused : at b 0 ≡ at a 0
  pub same :
      (t : Item → Bool)
      → tally t (take n b) + bit (t (at a i)) ≡ tally t (take n a) + bit (t (at b j))

pub stay-IsMoved : (a : List Item) (n i : ℕ) → IsMoved a n i a i
stay-IsMoved a n i = record { sized = refl; unused = refl; same = λ t. refl }

-- The entry at `j` moves into the hole, which is then at `j`.
pub move-IsMoved :
    (a : List Item) (n i j : ℕ) (b : List Item) (k : ℕ)
    → (1 ≤ i) × (i < n)
    → i < length a
    → IsMoved (set a i (at a j)) n j b k
    → IsMoved a n i b k
move-IsMoved a n i j b k h l m = record {
  sized = m.sized ∙ length-set a i (at a j);
  unused = ground (arith, m.unused, get_or-set a i 0 (at a j) no_item l);
  same = λ t. ground (
    arith,
    m.same t,
    get_or-set a i j (at a j) no_item l,
    tally-take-set t a n i (at a j) no_item h.1 l,
  );
}

-- The hole at `j` may be filled with any entry of key `p`.
pub record IsSettled (a : List Item) (n i p : ℕ) (r : List Item × ℕ) : Type 0 where
  pub moved : IsMoved a n i r.0 r.1
  pub slot : (1 ≤ r.1) × (r.1 < n)
  pub heap : (x : Item) → x.p ≡ p → IsHeap (set r.0 r.1 x) n

pub move-IsSettled :
    (a : List Item) (n i j p : ℕ)
    → (1 ≤ i) × (i < n)
    → i < length a
    → (r : List Item × ℕ) → IsSettled (set a i (at a j)) n j p r
    → IsSettled a n i p r
move-IsSettled a n i j p h l r s = record {
  moved = move-IsMoved a n i j r.0 r.1 h l s.moved;
  slot = s.slot;
  heap = s.heap;
}
