-- ===== src/Irc/Queue.antt =====
-- src/irc/irc_queue.c: the output queue, a binary heap in an array that grows.
-- Entry 0 of the array is unused, and `heap_size` is the index of the first free entry. A run is
-- `none` where it reads or writes past the allocated array, or where the model's fuel runs out; an
-- `int` result of -1 is `negsuc 0`. What the program passes to `_irc_net_send` is the list `sent`,
-- whose results the source ignores.
pub mod Order
pub mod Up
pub mod Live
pub mod Place
pub mod Take
pub mod Spec
pub mod Refines
pub mod Laws
pub mod Calls
pub mod Flood
pub mod Faults
pub mod Down
mod Tests
use mx3bot.Base.{
  ℕ, zero, suc, ◌+◌, ◌-◌, ◌*◌, ◌/◌, ◌%◌, ◌^◌, ◌≡◌, ◌≤◌, Bool, true, false, ◌&&◌, Option, none, some,
  List, [], ◌∷◌, ltb, leb, ◌==◌, if◌then◌else◌, ◌>>=◌, load, store, take, length,
}
use mx3bot.Base.Int.{int_eq, int_lt, pos, negsuc, ℤ}
use mx3bot.CString.{Str, strncpy}
use Prim.Native.Nat.{bit_or, max}

pub record Item : Type 0 where
  pub p : ℕ
  pub d : Str

-- The file's static variables. A capacity of -1, no queueing, is `none`.
pub record Queue : Type 0 where
  pub heap_capacity : Option ℕ
  pub heap_size : ℕ
  pub heap_position : ℕ
  pub heap_item : List Item
  pub timer : ℕ

-- malloc() and realloc() for arrays of items; `none` is a null pointer. The program relies on
-- arrays of the length asked for, and on realloc() keeping the entries that fit.
pub record Allocator : Type 0 where
  pub malloc : ℕ → Option (List Item)
  pub realloc : List Item → ℕ → Option (List Item)
  pub malloc_length : (n : ℕ) (a : List Item) → malloc n ≡ some a → length a ≡ n
  pub realloc_length : (a : List Item) (n : ℕ) (b : List Item) → realloc a n ≡ some b → length b ≡ n
  pub realloc_keeps :
      (a : List Item) (n : ℕ) (b : List Item)
      → realloc a n ≡ some b
      → length a ≤ n
      → take (length a) b ≡ a

abbrev pub first_position : ℕ
first_position = 0x1fffffff

-- What a call leaves behind.
pub record Outcome : Type 0 where
  pub queue : Queue
  pub sent : List Str
  pub result : ℤ

-- `enqueue` moves the hole at `i` up while the parent's key is smaller.
unfoldable pub sift_up : ℕ → List Item → ℕ → ℕ → Option (List Item × ℕ)
sift_up zero a i p = none
sift_up (suc fuel) a i p =
    let rise : Option (List Item × ℕ) = load a (i / 2) >>= λ parent.
    let moved = store a i parent >>= λ b. sift_up fuel b (i / 2) p in
    if ltb parent.p p then moved else some (a, i) in
    if ltb 1 i then rise else some (a, i)

-- Priority in the 3 high bits, counter in the 29 low bits of an unsigned int.
unfoldable pub key_of : ℕ → ℕ → ℕ
key_of priority position = bit_or ((priority - 1) * 2 ^ 29 % 2 ^ 32) position

unfoldable pub place : ℕ → Str → Queue → Option Queue
unfolding sift_up key_of strncpy load store
place priority text q =
    let key = key_of priority q.heap_position in
    sift_up (q.heap_size + 1) q.heap_item q.heap_size key >>= λ (a, i).
    store a i (record { p = key; d = strncpy 511 text }) >>= λ b. some (record q {
      heap_item = b;
      heap_size = q.heap_size + 1;
      heap_position = (q.heap_position + 2 ^ 32 - 1) % 2 ^ 32;
    })

module _ (memory : Allocator) where
  -- The queue's new state and whether there was memory.
  unfoldable pub grow_if_full : ℕ → Queue → Queue × Bool
  grow_if_full capacity q =
      let larger = 2 * capacity - 1 in
      let q' = record q { heap_capacity = some larger } in
      if leb capacity q.heap_size
      then elim (memory.realloc q.heap_item larger) [
        | none ↦ (q', false)
        | some a ↦ (record q' { heap_item = a }, true)
      ]
      else (q, true)

  -- Called with a `heap_capacity` other than -1.
  unfoldable pub enqueue : ℕ → ℕ → Str → Queue → Option (Queue × ℤ)
  unfolding grow_if_full place
  enqueue capacity priority text q =
      let (q', grown) = grow_if_full capacity q in
      if grown then (place priority text q' >>= λ q''. some (q'', pos 0)) else some (q', negsuc 0)

-- The child of `parent` with the larger key.
unfoldable pub greater_child : List Item → ℕ → ℕ → Option ℕ
greater_child a size parent =
    let child = 2 * parent in
    if ltb child size
    then (load a child >>= λ x.
        load a (child + 1) >>= λ y. some (if ltb x.p y.p then child + 1 else child))
    else some child

-- `dequeue` moves the hole at `parent` down while a child's key is larger.
unfoldable pub sift_down : ℕ → List Item → ℕ → ℕ → ℕ → Option (List Item × ℕ)
unfolding greater_child
sift_down zero a size parent p = none
sift_down (suc fuel) a size parent p =
    let sink : Option (List Item × ℕ) = greater_child a size parent >>= λ child.
    load a child >>= λ c.
    let moved = store a parent c >>= λ b. sift_down fuel b size child p in
    if leb c.p p then some (a, parent) else moved in
    if leb parent (size / 2) then sink else some (a, parent)

-- The removed text, or `none` where the source returns -1.
unfoldable pub dequeue : Queue → Option (Queue × Option Str)
unfolding sift_down load store
dequeue q =
    let size = q.heap_size - 1 in
    let taken : Option (Queue × Option Str) = load q.heap_item 1 >>= λ root.
    load q.heap_item size >>= λ node.
    sift_down q.heap_size q.heap_item size 1 node.p >>= λ (a, parent). store a parent node >>= λ b.
    some (
      record q {
        heap_item = b;
        heap_size = size;
        heap_position = if size == 1 then first_position else q.heap_position;
      },
      some root.d,
    ) in
    if q.heap_size == 1 then some (q, none) else taken

unfoldable pub queue_purge : Queue → Queue
queue_purge q = record q { heap_size = 1; heap_position = first_position }

-- The entries to allocate: one more than `capacity`, or than 32 where that is less than 1.
abbrev pub asked_for : ℤ → ℕ
asked_for (pos zero) = 32 + 1
asked_for (pos (suc n)) = suc n + 1
asked_for (negsuc n) = 32 + 1

fresh_queue : ℕ → Option (List Item) → Queue → Queue × ℤ
fresh_queue capacity none q = (record q { heap_item = [] }, negsuc 0)
fresh_queue capacity (some a) q = (
  record {
    heap_capacity = some capacity;
    heap_size = 1;
    heap_position = first_position;
    heap_item = a;
    timer = 0;
  },
  pos 0,
)

unfoldable pub queue_init : Allocator → ℤ → Queue → Queue × ℤ
unfolding fresh_queue
queue_init memory capacity q =
    if int_eq capacity (negsuc 0)
    then (record q { heap_capacity = none; heap_size = 1 }, pos 0)
    else fresh_queue (asked_for capacity) (memory.malloc (asked_for capacity)) q

send_next : Queue × Option Str → Outcome
send_next (q, none) = record { queue = q; sent = []; result = negsuc 0 }
send_next (q, some text) = record { queue = q; sent = text ∷ []; result = pos 0 }

-- `now` is the clock at the call.
unfoldable pub queue_update : ℕ → Queue → Option Outcome
unfolding dequeue send_next
queue_update now q =
    let late = max q.timer now in
    let next : Option Outcome =
      dequeue (record q { timer = late + 2 }) >>= λ r. some (send_next r) in
    if q.heap_size == 1
    then some (record { queue = q; sent = []; result = pos 0 })
    else if leb (now + 10) late
    then some (record { queue = record q { timer = late }; sent = []; result = pos 0 })
    else next

insert_at : Allocator → ℕ → ℕ → ℕ → Str → Queue → Option Outcome
insert_at memory capacity now n buffer q =
    let late = max q.timer now in
    let queued : Option Outcome = enqueue memory capacity n buffer q >>= λ (q', r).
    some (record { queue = q'; sent = []; result = r }) in
    if ltb n 1
    then some (record { queue = q; sent = []; result = pos 0 })
    else if ltb 8 n
    then some (record { queue = record q { timer = late + 2 }; sent = buffer ∷ []; result = pos 0 })
    else queued

insert_with : Option ℕ → Allocator → ℕ → ℤ → Str → Queue → Option Outcome
unfolding insert_at
insert_with none memory now priority buffer q =
    some (record { queue = q; sent = buffer ∷ []; result = pos 0 })
insert_with (some capacity) memory now (negsuc n) buffer q =
    some (record { queue = q; sent = []; result = pos 0 })
insert_with (some capacity) memory now (pos n) buffer q = insert_at memory capacity now n buffer q

-- `text` is what the format and its arguments make; vsnprintf() keeps 509 bytes of it.
unfoldable pub queue_insert : Allocator → ℕ → ℤ → Str → Queue → Option Outcome
unfolding insert_with
queue_insert memory now priority text q =
    insert_with q.heap_capacity memory now priority (take 509 text) q
