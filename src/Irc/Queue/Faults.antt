-- ===== src/Irc/Queue/Faults.antt =====
-- What `enqueue` leaves behind when realloc() fails: the capacity is already doubled, so that the
-- next call takes the old array for the larger one.
use native.Mathlib.Numerals.{add-one}
use mx3bot.Base.{
  ℕ, suc, ◌-◌, ◌*◌, ◌/◌, ◌≤◌, ◌<◌, ◌≡◌, refl, inl, inr, true, false, ◌⊎◌, get_or, none, some, List,
  arith, length, load-inside, store, leb,
}
use mx3bot.Base.Int.{negsuc}
use mx3bot.CString.{Str}
use mx3bot.Irc.Queue.{Allocator, Item, Queue, enqueue, grow_if_full, key_of, place, sift_up}
use mx3bot.Irc.Queue.Order.{no_item}
use mx3bot.Irc.Queue.Refines.{IsReady}

store-outside : (a : List Item) (i : ℕ) (x : Item) → length a ≤ i → store a i x ≡ none
unfolding store
store-outside a i x h = ground arith

-- A hole just past the array is not moved into it.
sift_up-outside :
    (fuel : ℕ) (a : List Item) (i p : ℕ)
    → length a ≡ i
    → 2 ≤ i
    → (sift_up (suc fuel) a i p ≡ none) ⊎ (sift_up (suc fuel) a i p ≡ some (a, i))
unfolding sift_up
sift_up-outside fuel a i p full large =
    let inside : i / 2 < length a = omega arith in
    rw
      (
        load-inside a (i / 2) no_item inside,
        store-outside a i (get_or a (i / 2) no_item) (omega arith),
      )
      (ground arith)

place-outside :
    (priority : ℕ) (text : Str) (q : Queue)
    → length q.heap_item ≡ q.heap_size
    → 2 ≤ q.heap_size
    → place priority text q ≡ none
unfolding place
place-outside priority text q full large =
    rw (add-one q.heap_size)
      (elim (sift_up-outside q.heap_size q.heap_item q.heap_size (key_of priority q.heap_position)
        full large) [
          | inl rise ↦ rw rise
          | inr stay ↦ rw stay (rw (store-outside q.heap_item q.heap_size _ (omega arith)))
        ])

-- On a full ready queue for which realloc() fails, `enqueue` returns -1, and the next `enqueue`,
-- of any text with any priority, then writes past the end of the array, whatever realloc() would do.
pub enqueue_after_refusal :
    (memory memory' : Allocator) (capacity priority priority' : ℕ) (text text' : Str) (q : Queue)
    → IsReady q capacity
    → q.heap_size ≡ capacity
    → memory.realloc q.heap_item (2 * capacity - 1) ≡ none
    → (q' : Queue) × (enqueue memory capacity priority text q ≡ some (q', negsuc 0))
      × (q'.heap_capacity ≡ some (2 * capacity - 1))
      × (enqueue memory' (2 * capacity - 1) priority' text' q' ≡ none)
unfolding enqueue grow_if_full
enqueue_after_refusal memory memory' capacity priority priority' text text' q v full refused = (
  record q { heap_capacity = some (2 * capacity - 1) },
  (let due : leb capacity q.heap_size ≡ true = ground arith in rw (due, refused)),
  refl,
  (let spare : leb (2 * capacity - 1) q.heap_size ≡ false = ground (arith, v.large) in
      let outside =
        place-outside priority' text' (record q { heap_capacity = some (2 * capacity - 1) })
          (omega (arith, v.allocated)) (omega (arith, v.large)) in
      rw (spare, outside)),
)
