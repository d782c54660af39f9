-- ===== src/Irc/Queue/Take.antt =====
-- What `dequeue` does to a queue that holds something.
use mx3bot.Base.{
  ℕ, zero, suc, ◌+◌, ◌-◌, ◌/◌, ◌≤◌, ◌<◌, ◌≡◌, refl, ◌∙◌, Bool, Option, some, List, [], ◌∷◌, arith,
  ltb, if◌then◌else◌, length, set, take, drop, length-set, load-inside, store-inside, Yields,
  yields, Yields-bind, Yields-map, Yields-if, ◌==◌,
}
use mx3bot.CString.{Str}
use mx3bot.Table.{bit, tally}
use mx3bot.Irc.Queue.{Item, Queue, sift_down, dequeue, first_position}
use mx3bot.Irc.Queue.Order.{no_item, at, key, IsHeap, IsSinking}
use mx3bot.Irc.Queue.Down.{sift_down-IsSettled}
use mx3bot.Irc.Queue.Live.{live, filled_first, tally-none}

first-IsSinking : (a : List Item) (n p : ℕ) → 1 < n → IsHeap a (n + 1) → IsSinking a n 1 p
first-IsSinking a n p low heap = record {
  inside = omega arith;
  edges = λ c g l e f. heap c g (omega arith);
  above = λ g. absurd (omega arith);
  bridged = λ c g l e q. absurd (omega arith);
}

root_greatest :
    (k : ℕ) (a : List Item) (n c : ℕ) → IsHeap a n → c < k → 1 ≤ c → c < n → key a c ≤ key a 1
root_greatest zero a n c heap f low high = absurd (omega arith)
root_greatest (suc k) a n c heap f low high =
    ground (arith, heap c, root_greatest k a n (c / 2) heap)

-- `root` is taken out of the heap.
pub record IsTaken (q : Queue) (r : Queue × Option Str) : Type 0 where
  pub root : Item
  pub text : r.1 ≡ some root.d
  pub greatest : tally (λ x. ltb root.p x.p) (live q) ≡ 0
  pub removed : (t : Item → Bool) → bit (t root) + tally t (live r.0) ≡ tally t (live q)
  pub capacity : r.0.heap_capacity ≡ q.heap_capacity
  pub size : r.0.heap_size + 1 ≡ q.heap_size
  pub positive : 1 ≤ r.0.heap_size
  pub position :
      r.0.heap_position ≡ (if r.0.heap_size == 1 then first_position else q.heap_position)
  pub time : r.0.timer ≡ q.timer
  pub allocated : length r.0.heap_item ≡ length q.heap_item
  pub heap : IsHeap r.0.heap_item r.0.heap_size

-- What the loop of `dequeue` leaves: an array in whose hole the last entry can be put.
record IsSunk (a : List Item) (n size : ℕ) (r : List Item × ℕ) : Type 0 where
  sized : length r.0 ≡ length a
  inside : r.1 < length r.0
  heap : IsHeap (set r.0 r.1 (at a n)) n
  removed :
      (t : Item → Bool)
      → bit (t (at a 1)) + tally t (drop 1 (take n (set r.0 r.1 (at a n))))
        ≡ tally t (drop 1 (take size a))

only-removed :
    (a : List Item) (t : Item → Bool)
    → 1 < length a
    → bit (t (at a 1)) + tally t (drop 1 (take 1 (set a 1 (at a 1)))) ≡ tally t (drop 1 (take 2 a))
unfolding tally
only-removed [] t h = elim h [ ]
only-removed (x ∷ []) t h = absurd (omega arith)
only-removed (x ∷ y ∷ a) t h = omega arith

sift_down-IsSunk :
    (a : List Item) (n : ℕ)
    → 1 ≤ n
    → n < length a
    → IsHeap a (n + 1)
    → Yields (IsSunk a n (n + 1)) (sift_down (n + 1) a n 1 (key a n))
sift_down-IsSunk a zero low room heap = elim low [ ]
sift_down-IsSunk a (suc zero) low room heap =
    unfold sift_down in
    yields {a = (a, 1)} (record {
      sized = refl;
      inside = omega arith;
      heap = λ c g l. absurd (omega arith);
      removed = λ t. only-removed a t room;
    })
sift_down-IsSunk a (suc (suc k)) low room heap =
    let n = suc (suc k) in
    Yields-map
      (sift_down-IsSettled (n + 1) a n 1 (key a n) (omega arith) room refl
        (first-IsSinking a n (key a n) (omega arith) heap))
      λ (b, j) s. record {
        sized = s.moved.sized;
        inside = omega (arith, s.slot, s.moved.sized);
        heap = s.heap (at a n) refl;
        removed = filled_first a b n j (at a n) s.moved s.slot room refl;
      }

sift_down_all :
    (a : List Item) (n size : ℕ)
    → size ≡ n + 1
    → 1 ≤ n
    → size ≤ length a
    → IsHeap a size
    → Yields (IsSunk a n size) (sift_down size a n 1 (key a n))
sift_down_all a n size e low room heap =
    rw e (sift_down-IsSunk a n low (omega arith) (rw e at heap))

pub dequeue-IsTaken :
    (q : Queue)
    → 2 ≤ q.heap_size
    → q.heap_size ≤ length q.heap_item
    → IsHeap q.heap_item q.heap_size
    → Yields (IsTaken q) (dequeue q)
unfolding dequeue
dequeue-IsTaken q low room heap =
    let n = q.heap_size - 1 in
    let a = q.heap_item in
    let grown : q.heap_size ≡ n + 1 = omega arith in
    let sunk : Yields (IsSunk a n q.heap_size) (sift_down q.heap_size a n 1 (key a n)) =
      sift_down_all a n q.heap_size grown (omega arith) room heap in
    Yields-if (q.heap_size == 1) (λ e. absurd (ground arith))
      λ _.
        rw (load-inside a 1 no_item (omega arith), load-inside a n no_item (omega arith))
          (Yields-bind sunk λ (b, j) s. rw (store-inside b j (at a n) s.inside) (
            yields (record {
              root = at a 1;
              text = refl;
              greatest =
                  tally-none _ a q.heap_size room
                    λ c g l. ground (arith, root_greatest (suc c) a q.heap_size c heap);
              removed = s.removed;
              capacity = refl;
              size = omega arith;
              positive = omega arith;
              position = refl;
              time = refl;
              allocated = length-set b j (at a n) ∙ s.sized;
              heap = s.heap;
            })))
