-- ===== src/Irc/Queue/Place.antt =====
-- What the steps of `enqueue` do once there is room.
use mx3bot.Base.{
  ℕ, ◌+◌, ◌-◌, ◌^◌, ◌%◌, ◌≤◌, ◌<◌, ◌≡◌, refl, ◌∙◌, Bool, List, arith, length, length-set,
  store-inside, Yields, yields, Yields-bind,
}
use mx3bot.CString.{Str, strncpy}
use mx3bot.Table.{bit, tally}
use mx3bot.Irc.Queue.{Item, Queue, key_of, place}
use mx3bot.Irc.Queue.Order.{IsHeap, IsRising}
use mx3bot.Irc.Queue.Up.{sift_up-IsSettled}
use mx3bot.Irc.Queue.Live.{live, filled_last}

-- The end of the array as a hole.
last-IsRising : (a : List Item) (n p : ℕ) → 1 ≤ n → IsHeap a n → IsRising a (n + 1) n p
last-IsRising a n p low heap = record {
  inside = omega arith;
  edges = λ c g l e f. heap c g (omega arith);
  under = λ c g l e. absurd (omega arith);
  bridged = λ c g l e q. absurd (omega arith);
}

abbrev pub new_item : ℕ → Str → Queue → Item
new_item priority text q = record { p = key_of priority q.heap_position; d = strncpy 511 text }

-- `x` is put into the heap, and the counter steps down.
pub record IsPlaced (q : Queue) (x : Item) (q' : Queue) : Type 0 where
  pub capacity : q'.heap_capacity ≡ q.heap_capacity
  pub size : q'.heap_size ≡ q.heap_size + 1
  pub position : q'.heap_position ≡ (q.heap_position + 2 ^ 32 - 1) % 2 ^ 32
  pub time : q'.timer ≡ q.timer
  pub allocated : length q'.heap_item ≡ length q.heap_item
  pub heap : IsHeap q'.heap_item q'.heap_size
  pub added : (t : Item → Bool) → tally t (live q') ≡ bit (t x) + tally t (live q)

pub place-IsPlaced :
    (priority : ℕ) (text : Str) (q : Queue)
    → 1 ≤ q.heap_size
    → q.heap_size < length q.heap_item
    → IsHeap q.heap_item q.heap_size
    → Yields (IsPlaced q (new_item priority text q)) (place priority text q)
unfolding place
place-IsPlaced priority text q low room heap =
    let x = new_item priority text q in
    let n = q.heap_size in
    let a = q.heap_item in
    Yields-bind
      (sift_up-IsSettled (n + 1) a (n + 1) n x.p (omega arith) (omega arith)
        (last-IsRising a n x.p low heap))
      λ (b, j) s.
        let hole : j < length b = omega (arith, s.slot, s.moved.sized) in
        rw (store-inside b j x hole) (
          yields (record {
            capacity = refl;
            size = refl;
            position = refl;
            time = refl;
            allocated = length-set b j x ∙ s.moved.sized;
            heap = s.heap x refl;
            added = filled_last a b n j x s.moved s.slot low room;
          }))
