-- ===== src/Irc/Queue/Down.antt =====
-- The loop of `dequeue`, while the last entry, of key `p`, still stands at index `n`.
use mx3bot.Base.{
  ℕ, zero, suc, ◌+◌, ◌*◌, ◌/◌, ◌≤◌, ◌<◌, ◌≡◌, ◌⊎◌, List, arith, ltb, leb, length, set, length-set,
  load-inside, store-inside, Yields, yields, Yields-if, Yields-map, Yields-bind,
}
use mx3bot.Table.Prefix.{get_or-set}
use mx3bot.Irc.Queue.{Item, greater_child, sift_down}
use mx3bot.Irc.Queue.Order.{no_item, at, key, IsSinking, IsSettled, stay-IsMoved, move-IsSettled}

record IsGreaterChild (a : List Item) (n i m : ℕ) : Type 0 where
  child : m / 2 ≡ i
  inside : (1 < m) × (m ≤ n)
  greatest : (c : ℕ) → 1 < c → c ≤ n → c / 2 ≡ i → key a c ≤ key a m

children : (c i : ℕ) → c / 2 ≡ i → (c ≡ 2 * i) ⊎ (c ≡ 2 * i + 1)
children c i e = omega arith

greater_child-IsGreaterChild :
    (a : List Item) (n i : ℕ)
    → n < length a
    → 1 ≤ i
    → 2 * i ≤ n
    → Yields (IsGreaterChild a n i) (greater_child a n i)
unfolding greater_child
greater_child-IsGreaterChild a n i sized low high =
    let left : 2 * i < length a = omega arith in
    Yields-if (ltb (2 * i) n)
      (λ two.
        let right : 2 * i + 1 < length a = ground arith in
        rw (load-inside a (2 * i) no_item left, load-inside a (2 * i + 1) no_item right)
          (yields (record {
            child = ground arith;
            inside = ground arith;
            greatest = λ c g l e. ground (arith, children c i e);
          })))
      (λ one. yields (record {
        child = omega arith;
        inside = omega arith;
        greatest = λ c g l e. ground (arith, children c i e);
      }))

sink-IsSinking :
    (a : List Item) (n i m p : ℕ)
    → n < length a
    → IsSinking a n i p
    → IsGreaterChild a n i m
    → m < n
    → p < key a m
    → IsSinking (set a i (at a m)) n m p
sink-IsSinking a n i m p sized s g below more = record {
  inside = omega (arith, g.inside);
  edges = λ c q l e f. ground (
    arith,
    g.child,
    g.greatest c,
    get_or-set a i c (at a m) no_item,
    get_or-set a i (c / 2) (at a m) no_item,
    s.edges c,
    s.bridged m,
  );
  above = λ q. ground (arith, g.child, get_or-set a i (m / 2) (at a m) no_item);
  bridged = λ c q l e h. ground (
    arith,
    g.child,
    get_or-set a i c (at a m) no_item,
    get_or-set a i (m / 2) (at a m) no_item,
    s.edges c,
  );
}

settled :
    (a : List Item) (n i p : ℕ)
    → n < length a
    → IsSinking a n i p
    → ((c : ℕ) → 1 < c → c < n → c / 2 ≡ i → key a c ≤ p)
    → IsSettled a n i p (a, i)
settled a n i p sized s stop = record {
  moved = stay-IsMoved a n i;
  slot = s.inside;
  heap = λ x e c g l. ground (
    arith,
    get_or-set a i c x no_item,
    get_or-set a i (c / 2) x no_item,
    s.edges c,
    s.above,
    stop c,
  );
}

pub sift_down-IsSettled :
    (fuel : ℕ) (a : List Item) (n i p : ℕ)
    → n < fuel + i
    → n < length a
    → key a n ≡ p
    → IsSinking a n i p
    → Yields (IsSettled a n i p) (sift_down fuel a n i p)
unfolding sift_down
sift_down-IsSettled zero a n i p f sized last s = absurd (omega (arith, s.inside))
sift_down-IsSettled (suc fuel) a n i p f sized last s =
    let hole : i < length a = omega (arith, s.inside) in
    Yields-if (leb i (n / 2))
      (λ inner.
        Yields-bind (greater_child-IsGreaterChild a n i sized s.inside.0 (ground arith)) λ m g.
          let there : m < length a = omega (arith, g.inside) in
          rw (load-inside a m no_item there, store-inside a i (at a m) hole)
            (Yields-if (leb (key a m) p)
              (λ low. yields (settled a n i p sized s λ c q l e. ground (arith, g.greatest c)))
              (λ high.
                let below : m < n = ground (arith, g.inside) in
                Yields-map
                  (sift_down-IsSettled fuel (set a i (at a m)) n m p (omega (arith, g.child))
                    (omega (arith, length-set a i (at a m)))
                    (ground (arith, get_or-set a i n (at a m) no_item, s.inside))
                    (sink-IsSinking a n i m p sized s g below (ground arith)))
                  (move-IsSettled a n i m p s.inside hole))))
      (λ leaf. yields (settled a n i p sized s λ c q l e. ground arith))
