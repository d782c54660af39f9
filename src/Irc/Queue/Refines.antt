-- ===== src/Irc/Queue/Refines.antt =====
-- When a queue stands for a list of waiting messages, and the growing of the array.
use mx3bot.Base.{
  ℕ, zero, suc, ◌-◌, ◌*◌, ◌/◌, ◌^◌, ◌≤◌, ◌<◌, ◌≡◌, refl, sym, ap, subst, ◌∙◌, inl, inr, Bool, true,
  false, none, some, List, [], ◌∷◌, map, arith, length, take, drop, get_or, take_all, leb,
  Bool-cases, Option-cases,
}
use mx3bot.Table.{tally}
use mx3bot.Irc.Queue.{Allocator, Item, Queue, grow_if_full}
use mx3bot.Irc.Queue.Order.{no_item, at, IsHeap}
use mx3bot.Irc.Queue.Live.{live}
use mx3bot.Irc.Queue.Spec.{IsStamped, Message, message}

pub record IsReady (q : Queue) (capacity : ℕ) : Type 0 where
  pub queueing : q.heap_capacity ≡ some capacity
  pub allocated : length q.heap_item ≡ capacity
  pub large : 2 ≤ capacity
  pub range : (1 ≤ q.heap_size) × (q.heap_size ≤ capacity)
  pub heap : IsHeap q.heap_item q.heap_size
  pub counter : q.heap_position < 2 ^ 29

-- The queue holds the messages `waiting`, the newest first.
pub record Refines (q : Queue) (waiting : List Message) : Type 0 where
  pub items : List Item
  pub queued : (t : Item → Bool) → tally t (live q) ≡ tally t items
  pub messages : map message items ≡ waiting
  pub stamped : IsStamped q.heap_position items

-- The timer plays no part in either.
pub IsReady-timer :
    {q : Queue} {capacity : ℕ} (t : ℕ)
    → IsReady q capacity
    → IsReady (record q { timer = t }) capacity
IsReady-timer t v = record {
  queueing = v.queueing;
  allocated = v.allocated;
  large = v.large;
  range = v.range;
  heap = v.heap;
  counter = v.counter;
}

pub Refines-timer :
    {q : Queue} {waiting : List Message} (t : ℕ)
    → Refines q waiting
    → Refines (record q { timer = t }) waiting
Refines-timer t f = record {
  items = f.items;
  queued = f.queued;
  messages = f.messages;
  stamped = f.stamped;
}

get_or-take :
    (n : ℕ) (a : List Item) (i : ℕ) → i < n → get_or (take n a) i no_item ≡ get_or a i no_item
get_or-take zero a i h = elim h [ ]
get_or-take (suc n) [] i h = refl
get_or-take (suc n) (x ∷ a) zero h = refl
get_or-take (suc n) (x ∷ a) (suc i) h = get_or-take n a i (omega arith)

-- Room for one more item, in a queue of the same items.
pub record HasRoom (q : Queue) (q' : Queue) : Type 0 where
  pub capacity : ℕ
  pub ready : IsReady q' capacity
  pub room : q'.heap_size < capacity
  pub kept : live q' ≡ live q
  pub same_size : q'.heap_size ≡ q.heap_size
  pub same_position : q'.heap_position ≡ q.heap_position
  pub same_time : q'.timer ≡ q.timer

module _ (memory : Allocator) (capacity : ℕ) (q : Queue) (v : IsReady q capacity) where
  has_room : q.heap_size < capacity → HasRoom q q
  has_room h = record {
    capacity = capacity;
    ready = v;
    room = h;
    kept = refl;
    same_size = refl;
    same_position = refl;
    same_time = refl;
  }

  module _ (b : List Item) (full : capacity ≤ q.heap_size)
      (given : memory.realloc q.heap_item (2 * capacity - 1) ≡ some b) where
    abbrev larger : Queue
    larger = record q { heap_capacity = some (2 * capacity - 1); heap_item = b }

    prefix : take q.heap_size b ≡ q.heap_item
    prefix =
        let size : length q.heap_item ≡ q.heap_size = omega (arith, v.allocated, v.range) in
        rw (size) at (
          memory.realloc_keeps q.heap_item (2 * capacity - 1) b given
            (omega (arith, v.allocated, v.large)))

    entry : (i : ℕ) → i < q.heap_size → at b i ≡ at q.heap_item i
    entry i h =
        subst (λ (a : List Item). at b i ≡ at a i) prefix (sym (get_or-take q.heap_size b i h))

    larger-HasRoom : HasRoom q larger
    larger-HasRoom = record {
      capacity = 2 * capacity - 1;
      ready = record {
        queueing = refl;
        allocated = memory.realloc_length q.heap_item (2 * capacity - 1) b given;
        large = omega (arith, v.large);
        range = omega (arith, v.large, v.range);
        heap = λ c g l. ground (arith, entry c, entry (c / 2), v.heap c);
        counter = v.counter;
      };
      room = omega (arith, v.large, v.range);
      kept =
          ap (drop 1)
            (prefix ∙ sym (take_all q.heap_size q.heap_item (omega (arith, v.allocated, v.range))));
      same_size = refl;
      same_position = refl;
      same_time = refl;
    }

  -- Either there is room in the end, or the array was full and realloc() failed.
  pub grow_if_full_cases {ℓ} :
      (P : Queue × Bool → Type ℓ)
      → ((q' : Queue) → HasRoom q q' → P (q', true))
      → (q.heap_size ≡ capacity
          → memory.realloc q.heap_item (2 * capacity - 1) ≡ none
          → P (record q { heap_capacity = some (2 * capacity - 1) }, false))
      → P (grow_if_full memory capacity q)
  unfolding grow_if_full
  grow_if_full_cases P room refused = elim (Bool-cases (leb capacity q.heap_size)) [
    | inr e ↦ rw (e, grow_if_full) (room q (has_room (ground arith)))
    | inl e ↦ elim (Option-cases (memory.realloc q.heap_item (2 * capacity - 1))) [
      | inl f ↦ rw (e, f, grow_if_full) (refused (ground (arith, v.range)) f)
      | inr (b, f) ↦
          rw (e, f, grow_if_full)
            (room (larger b (ground arith) f) (larger-HasRoom b (ground arith) f))
    ]
  ]
