-- ===== src/Irc/Queue/Up.antt =====
-- The loop of `enqueue`.
use mx3bot.Base.{
  ℕ, zero, suc, ◌/◌, ◌≤◌, ◌<◌, List, arith, ltb, length, set, length-set, load-inside, store-inside,
  Yields, yields, Yields-if, Yields-map,
}
use mx3bot.Table.Prefix.{get_or-set}
use mx3bot.Irc.Queue.{Item, sift_up}
use mx3bot.Irc.Queue.Order.{no_item, at, key, IsRising, IsSettled, stay-IsMoved, move-IsSettled}

rise-IsRising :
    (a : List Item) (n i p : ℕ)
    → n ≤ length a
    → IsRising a n i p
    → 1 < i
    → key a (i / 2) < p
    → IsRising (set a i (at a (i / 2))) n (i / 2) p
rise-IsRising a n i p sized r more below = record {
  inside = omega arith;
  edges = λ c g l e f. ground (
    arith,
    get_or-set a i c (at a (i / 2)) no_item,
    get_or-set a i (c / 2) (at a (i / 2)) no_item,
    r.edges c,
    r.bridged c,
  );
  under = λ c g l e. ground (arith, get_or-set a i c (at a (i / 2)) no_item, r.edges c);
  bridged = λ c g l e q. ground (
    arith,
    get_or-set a i c (at a (i / 2)) no_item,
    get_or-set a i (i / 2 / 2) (at a (i / 2)) no_item,
    r.edges c,
    r.edges (i / 2),
  );
}

-- Where the loop stops, the hole can be filled.
settled :
    (a : List Item) (n i p : ℕ)
    → n ≤ length a
    → IsRising a n i p
    → (1 < i → p ≤ key a (i / 2))
    → IsSettled a n i p (a, i)
settled a n i p sized r stop = record {
  moved = stay-IsMoved a n i;
  slot = r.inside;
  heap = λ x e c g l.
      ground
        (arith, get_or-set a i c x no_item, get_or-set a i (c / 2) x no_item, r.edges c, r.under c);
}

pub sift_up-IsSettled :
    (fuel : ℕ) (a : List Item) (n i p : ℕ)
    → i < fuel
    → n ≤ length a
    → IsRising a n i p
    → Yields (IsSettled a n i p) (sift_up fuel a i p)
unfolding sift_up
sift_up-IsSettled zero a n i p f sized r = absurd (omega arith)
sift_up-IsSettled (suc fuel) a n i p f sized r =
    let hole : i < length a = omega (arith, r.inside) in
    let up : i / 2 < length a = omega arith in
    rw (load-inside a (i / 2) no_item up, store-inside a i (at a (i / 2)) hole)
      (Yields-if (ltb 1 i)
        (λ more.
          Yields-if (ltb (key a (i / 2)) p)
            (λ below.
              Yields-map
                (sift_up-IsSettled fuel (set a i (at a (i / 2))) n (i / 2) p (ground arith)
                  (omega (arith, length-set a i (at a (i / 2))))
                  (rise-IsRising a n i p sized r (ground arith) (ground arith)))
                (move-IsSettled a n i (i / 2) p r.inside hole))
            (λ high. yields (settled a n i p sized r (λ _. ground arith))))
        (λ top. yields (settled a n i p sized r (λ g. ground arith))))
