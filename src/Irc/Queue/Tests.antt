-- ===== src/Irc/Queue/Tests.antt =====
-- Runs of irc_queue.c, and its theorems at concrete queues.
use mx3bot.Base.{
  ℕ, zero, suc, ◌-◌, ◌*◌, ◌+◌, ◌≡◌, ◌≤◌, refl, ap, Option, none, some, List, [], ◌∷◌, arith, length,
  take, replicate, length-replicate, ◌>>=◌, Yields,
}
use mx3bot.Base.Int.{pos, negsuc}
use mx3bot.CString.{Str}
use mx3bot.Table.{tally}
use mx3bot.Irc.Queue.{
  Allocator, Item, Queue, queue_insert, queue_purge, queue_update, enqueue, dequeue,
}
use mx3bot.Irc.Queue.Order.{no_item, IsHeap}
use mx3bot.Irc.Queue.Spec.{Message}
use mx3bot.Irc.Queue.Refines.{IsReady, Refines}
use mx3bot.Irc.Queue.Laws.{Entered, Removed, queued_message, enqueue-Refines, dequeue-Refines}
use mx3bot.Irc.Queue.Calls.{
  Inserted, Updated, queue_insert-Refines, queue_purge-Refines, queue_update-Refines,
}
use mx3bot.Irc.Queue.Flood.{update_all, update_all_paced}
use mx3bot.Irc.Queue.Faults.{enqueue_after_refusal}

-- An allocator that never fails and fills new entries with `no_item`, and one that always fails.
resize : List Item → ℕ → List Item
resize a zero = []
resize [] (suc n) = no_item ∷ resize [] n
resize (x ∷ a) (suc n) = x ∷ resize a n

length-resize : (a : List Item) (n : ℕ) → length (resize a n) ≡ n
unfolding resize
length-resize a zero = refl
length-resize [] (suc n) = ap suc (length-resize [] n)
length-resize (x ∷ a) (suc n) = ap suc (length-resize a n)

take-resize : (a : List Item) (n : ℕ) → length a ≤ n → take (length a) (resize a n) ≡ a
unfolding resize
take-resize [] n h = refl
take-resize (x ∷ a) zero h = elim h [ ]
take-resize (x ∷ a) (suc n) h = ap (◌∷◌ x) (take-resize a n (omega arith))

realloc_length : (a : List Item) (n : ℕ) (b : List Item) → some (resize a n) ≡ some b → length b ≡ n
realloc_length a n b e = cc (length-resize a n)

realloc_keeps :
    (a : List Item) (n : ℕ) (b : List Item)
    → some (resize a n) ≡ some b
    → length a ≤ n
    → take (length a) b ≡ a
realloc_keeps a n b e h = cc (take-resize a n h)

malloc_length : (n : ℕ) (a : List Item) → some (replicate n no_item) ≡ some a → length a ≡ n
malloc_length n a e = cc (length-replicate n no_item)

abbrev generous : Allocator
generous = record {
  malloc = λ n. some (replicate n no_item);
  realloc = λ a n. some (resize a n);
  malloc_length = malloc_length;
  realloc_length = realloc_length;
  realloc_keeps = realloc_keeps;
}

no_memory : {P : Type 0} {a : List Item} → ◌≡◌ {A = Option (List Item)} none (some a) → P
no_memory e = cc

abbrev exhausted : Allocator
exhausted = record {
  malloc = λ n. none;
  realloc = λ a n. none;
  malloc_length = λ n a e. no_memory e;
  realloc_length = λ a n b e. no_memory e;
  realloc_keeps = λ a n b e h. no_memory e;
}

abbrev zeroed : Queue
zeroed = record {
  heap_capacity = some 0;
  heap_size = 0;
  heap_position = 0;
  heap_item = [];
  timer = 0;
}

abbrev text : ℕ → Str
text c = c ∷ []

-- Two messages of priority 5 in an array with no room left.
abbrev older : Item
older = record { p = 4 * 536870912 + 536870911; d = text b'a' }

abbrev newer : Item
newer = record { p = 4 * 536870912 + 536870910; d = text b'b' }

abbrev full : Queue
full = record {
  heap_capacity = some 3;
  heap_size = 3;
  heap_position = 536870909;
  heap_item = no_item ∷ older ∷ newer ∷ [];
  timer = 7;
}

abbrev both : List Message
both = record { priority = 5; text = text b'b' } ∷ record { priority = 5; text = text b'a' } ∷ []

full-IsHeap : IsHeap full.heap_item 3
full-IsHeap zero low high = absurd (omega arith)
full-IsHeap (suc zero) low high = absurd (omega arith)
full-IsHeap (suc (suc zero)) low high = omega arith
full-IsHeap (suc (suc (suc c))) low high = absurd (omega arith)

full-IsReady : IsReady full 3
full-IsReady = record {
  queueing = refl;
  allocated = refl;
  large = omega arith;
  range = omega arith;
  heap = full-IsHeap;
  counter = omega arith;
}

full-Refines : Refines full both
unfolding tally
full-Refines = record {
  items = newer ∷ older ∷ [];
  queued = λ t. omega arith;
  messages = refl;
  stamped = omega arith;
}

-- A later message of higher priority is sent first, then those of one priority in their order.
sent_in_order :
    (enqueue generous 3 8 (text b'c') full >>= λ (q, _). dequeue q >>= λ (q', first).
    dequeue q' >>= λ (q'', second).
    dequeue q'' >>= λ (_, third). some (first ∷ second ∷ third ∷ []))
    ≡ some (some (text b'c') ∷ some (text b'a') ∷ some (text b'b') ∷ [])
unfolding enqueue dequeue resize
sent_in_order = refl

enqueue-Refines_example :
    Yields
      (Entered generous 3 full both (queued_message 8 (text b'c')))
      (enqueue generous 3 8 (text b'c') full)
enqueue-Refines_example =
    enqueue-Refines generous 3 8 (text b'c') full both full-IsReady full-Refines (omega arith)
      (omega arith)

dequeue-Refines_example : Yields (Removed full both) (dequeue full)
dequeue-Refines_example = dequeue-Refines 3 full both full-IsReady full-Refines

queue_insert-Refines_example :
    Yields
      (Inserted generous 3 100 (pos 5) (text b'c') full both)
      (queue_insert generous 100 (pos 5) (text b'c') full)
queue_insert-Refines_example =
    queue_insert-Refines generous 3 100 (pos 5) (text b'c') full both full-IsReady full-Refines
      (omega arith)

queue_update-Refines_example : Yields (Updated 100 full both) (queue_update 100 full)
queue_update-Refines_example = queue_update-Refines 100 3 full both full-IsReady full-Refines

queue_purge-Refines_example : IsReady (queue_purge full) 3 × Refines (queue_purge full) []
queue_purge-Refines_example = queue_purge-Refines 3 full full-IsReady

update_all_paced_example :
    Yields (λ r. 2 * length r.1 ≤ 100 - 98 + 11) (update_all (98 ∷ 99 ∷ 100 ∷ []) full)
update_all_paced_example =
    update_all_paced 98 100 3 (98 ∷ 99 ∷ 100 ∷ []) full both (omega arith) (omega arith)
      full-IsReady full-Refines

enqueue_after_refusal_example :
    (q' : Queue) × (enqueue exhausted 3 5 (text b'c') full ≡ some (q', negsuc 0))
    × (q'.heap_capacity ≡ some 5)
    × (enqueue generous 5 1 (text b'd') q' ≡ none)
enqueue_after_refusal_example =
    enqueue_after_refusal exhausted generous 3 5 1 (text b'c') (text b'd') full full-IsReady refl
      refl
