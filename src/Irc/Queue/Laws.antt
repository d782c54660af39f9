-- ===== src/Irc/Queue/Laws.antt =====
-- irc_queue.c refines the abstract queue of Spec.antt.
use mx3bot.Base.Bits.{bit_or-disjoint}
use mx3bot.Base.{
  ℕ, ◌+◌, ◌-◌, ◌*◌, ◌%◌, ◌^◌, ◌≤◌, ◌<◌, ◌≡◌, refl, sym, ap, ap₂, subst, ◌∙◌, ◌⊎◌, inl, inr, Bool,
  Option, none, some, List, [], ◌∷◌, map, arith, length, Bool-cases, ◌==◌, if◌then◌else◌, Yields,
  yields, ◌>>=◌, Yields-map, Yields-bind,
}
use mx3bot.Base.Int.{ℤ, pos, negsuc}
use mx3bot.CString.{Str, strncpy}
use mx3bot.Table.{tally}
use mx3bot.Irc.Queue.{Allocator, Item, Queue, key_of, place, enqueue, dequeue}
use mx3bot.Irc.Queue.Live.{live, tally-none}
use mx3bot.Irc.Queue.Place.{IsPlaced, new_item, place-IsPlaced}
use mx3bot.Irc.Queue.Take.{IsTaken, dequeue-IsTaken}
use mx3bot.Irc.Queue.Refines.{IsReady, Refines, HasRoom, grow_if_full_cases}
use mx3bot.Irc.Queue.Spec.{
  IsStamped, Message, message, serve, rank, stamp, IsServed, serve-greatest, item_eq, item_eq_refl,
  Has-tally, AtMost-tally,
}

key_of-sum :
    (priority position : ℕ)
    → 1 ≤ priority
    → priority ≤ 8
    → position < 2 ^ 29
    → key_of priority position ≡ (priority - 1) * 2 ^ 29 + position
unfolding key_of
key_of-sum priority position low high small =
    let fits : (priority - 1) * 2 ^ 29 % 2 ^ 32 ≡ (priority - 1) * 2 ^ 29 = omega arith in
    rw fits (bit_or-disjoint 29 (priority - 1) position small)

-- The message that `_irc_queue_insert` queues.
abbrev pub queued_message : ℕ → Str → Message
queued_message priority text = record { priority = priority; text = strncpy 511 text }

-- A queue for `waiting` after a call that leaves the timer alone.
pub record Holds (q : Queue) (waiting : List Message) (q' : Queue) : Type 0 where
  pub capacity : ℕ
  pub ready : IsReady q' capacity
  pub refines : Refines q' waiting
  pub same_time : q'.timer ≡ q.timer

place-Holds :
    (priority : ℕ) (text : Str) (q r q' : Queue) (waiting : List Message)
    → 1 ≤ priority
    → priority ≤ 8
    → 0 < q.heap_position
    → (room : HasRoom q r) → Refines q waiting
    → IsPlaced r (new_item priority text r) q'
    → Holds q (queued_message priority text ∷ waiting) q'
unfolding tally
place-Holds priority text q r q' waiting low high left room f p =
    let x = new_item priority text r in
    let split = key_of-sum priority r.heap_position low high room.ready.counter in
    let stamped : stamp x ≡ q.heap_position =
      omega (arith, split, room.ready.counter, room.same_position) in
    let ranked : rank x + 1 ≡ priority = omega (arith, split, room.ready.counter) in
    record {
      capacity = room.capacity;
      ready = record {
        queueing = p.capacity ∙ room.ready.queueing;
        allocated = p.allocated ∙ room.ready.allocated;
        large = room.ready.large;
        range = omega (arith, p.size, room.room);
        heap = p.heap;
        counter = omega (arith, p.position, room.ready.counter, room.same_position);
      };
      refines = record {
        items = x ∷ f.items;
        queued = λ t. omega (arith, p.added t, f.queued t, ap (tally t) room.kept);
        messages =
            ap₂ (λ n ms. record { priority = n; text = strncpy 511 text } ∷ ms) ranked f.messages;
        stamped = (
          omega (arith, stamped, p.position, room.same_position, room.ready.counter),
          subst (λ n. IsStamped n f.items) (sym stamped) f.stamped,
        );
      };
      same_time = p.time ∙ room.same_time;
    }

-- What `enqueue` returns: the message waits behind those of its priority, or there was no memory.
abbrev pub Entered : Allocator → ℕ → Queue → List Message → Message → Queue × ℤ → Type 0
Entered memory capacity q waiting m (q', r) =
    ((r ≡ pos 0) × Holds q (m ∷ waiting) q')
    ⊎ ((r ≡ negsuc 0)
        × (q.heap_size ≡ capacity)
        × (memory.realloc q.heap_item (2 * capacity - 1) ≡ none)
        × (q' ≡ record q { heap_capacity = some (2 * capacity - 1) }))

-- On a ready queue whose counter is not used up, `enqueue` with a priority of 1 to 8 makes no
-- access outside the array and ends: it returns 0 and the message waits as the newest, in a ready
-- queue; or the array was full, realloc() failed, and it returns -1 with only the capacity changed.
pub enqueue-Refines :
    (memory : Allocator) (capacity priority : ℕ) (text : Str) (q : Queue) (waiting : List Message)
    → IsReady q capacity
    → Refines q waiting
    → (1 ≤ priority) × (priority ≤ 8)
    → 0 < q.heap_position
    → Yields
        (Entered memory capacity q waiting (queued_message priority text))
        (enqueue memory capacity priority text q)
unfolding enqueue
enqueue-Refines memory capacity priority text q waiting v f range left =
    grow_if_full_cases memory capacity q v
      (λ (q', grown). Yields (Entered memory capacity q waiting (queued_message priority text)) (
        if grown
        then (place priority text q' >>= λ q''. some (q'', pos 0))
        else some (q', negsuc 0)))
      (λ q' room.
        let inside : q'.heap_size < length q'.heap_item =
          omega (arith, room.room, room.ready.allocated) in
        Yields-bind (place-IsPlaced priority text q' room.ready.range.0 inside room.ready.heap)
          λ q'' p.
            yields (
              inl (refl, place-Holds priority text q q' q'' waiting range.0 range.1 left room f p)))
      (λ full refused. yields (inr (refl, full, refused, refl)))

tally-idle :
    (q : Queue) (t : Item → Bool) → q.heap_size ≡ 1 → 1 ≤ length q.heap_item → tally t (live q) ≡ 0
tally-idle q t e h =
    tally-none t q.heap_item q.heap_size (omega arith) (λ c low high. absurd (omega arith))

nothing_counted : (items : List Item) → ((t : Item → Bool) → tally t items ≡ 0) → items ≡ []
unfolding tally
nothing_counted [] h = refl
nothing_counted (x ∷ xs) h = absurd (ground (arith, h (item_eq x), item_eq_refl x))

taken-Holds :
    (capacity : ℕ) (q q' : Queue) (r : Option Str) (f-items : List Item)
    → IsReady q capacity
    → ((t : Item → Bool) → tally t (live q) ≡ tally t f-items)
    → (k : IsTaken q (q', r)) → (s : IsServed q.heap_position k.root f-items)
    → Holds q (map message s.rest) q'
taken-Holds capacity q q' r items v queued k s = record {
  capacity = capacity;
  ready = record {
    queueing = k.capacity ∙ v.queueing;
    allocated = k.allocated ∙ v.allocated;
    large = v.large;
    range = omega (arith, k.size, k.positive, v.range);
    heap = k.heap;
    counter = ground (arith, k.position, v.counter);
  };
  refines = record { items = s.rest; queued = counted; messages = refl; stamped = stamped };
  same_time = k.time;
}
  where
    counted : (t : Item → Bool) → tally t (live q') ≡ tally t s.rest
    counted t = omega (arith, k.removed t, s.removed t, queued t)

    stamped : IsStamped q'.heap_position s.rest
    stamped = elim (Bool-cases (q'.heap_size == 1)) [
      | inl last ↦
          let gone = nothing_counted s.rest λ t.
            let size : q'.heap_size ≡ 1 = ground arith in
            omega (
              arith,
              counted t,
              tally-idle q' t size (omega (arith, k.allocated, v.allocated, v.large)),
            ) in
          subst (λ xs. IsStamped q'.heap_position xs) (sym gone) tt
      | inr more ↦ subst (λ n. IsStamped n s.rest) (sym (rw more at k.position)) s.stamped
    ]

pub idle-empty :
    (capacity : ℕ) (q : Queue) (waiting : List Message)
    → IsReady q capacity
    → Refines q waiting
    → q.heap_size ≡ 1
    → waiting ≡ []
idle-empty capacity q waiting v f e =
    let none_left =
      nothing_counted f.items
        λ t. omega (arith, f.queued t, tally-idle q t e (omega (arith, v.allocated, v.large))) in
    sym f.messages ∙ ap (map message) none_left

-- The oldest message with the highest priority is taken out, and `r` is its text.
abbrev pub Served : Queue → List Message → Queue × Option Str → Type 0
Served q waiting (q', r) =
    (m : Message) × (rest : List Message) × (serve waiting ≡ some (m, rest))
    × (r ≡ some m.text)
    × Holds q rest q'

pub dequeue-Served :
    (capacity : ℕ) (q : Queue) (waiting : List Message)
    → IsReady q capacity
    → Refines q waiting
    → 2 ≤ q.heap_size
    → Yields (Served q waiting) (dequeue q)
unfolding tally
dequeue-Served capacity q waiting v f more =
    Yields-map (dequeue-IsTaken q more (omega (arith, v.range, v.allocated)) v.heap) λ (q', r) k.
      let has = Has-tally k.root f.items (
        ground
          (arith, f.queued (item_eq k.root), k.removed (item_eq k.root), item_eq_refl k.root)) in
      let most = AtMost-tally k.root.p f.items (sym (f.queued _) ∙ k.greatest) in
      let s = serve-greatest q.heap_position k.root f.items f.stamped has most in
      (
        message k.root,
        map message s.rest,
        subst (λ w. serve w ≡ some (message k.root, map message s.rest)) f.messages s.next,
        k.text,
        taken-Holds capacity q q' r f.items v f.queued k s,
      )

-- What `dequeue` returns: -1 and an unchanged queue, or the text of the next message.
abbrev pub Removed : Queue → List Message → Queue × Option Str → Type 0
Removed q waiting (q', r) = ((waiting ≡ []) × (r ≡ none) × (q' ≡ q)) ⊎ Served q waiting (q', r)

-- On a ready queue `dequeue` makes no access outside the array and ends: it returns -1 and changes
-- nothing if no message waits, and otherwise it removes the oldest message with the highest
-- priority, returns its text, and leaves a ready queue of the others.
pub dequeue-Refines :
    (capacity : ℕ) (q : Queue) (waiting : List Message)
    → IsReady q capacity
    → Refines q waiting
    → Yields (Removed q waiting) (dequeue q)
unfolding dequeue
dequeue-Refines capacity q waiting v f = elim (Bool-cases (q.heap_size == 1)) [
  | inl empty ↦
      let idle = idle-empty capacity q waiting v f (ground arith) in
      rw (empty, dequeue) (yields (inl (idle, refl, refl)))
  | inr more ↦
      let served = dequeue-Served capacity q waiting v f (ground (arith, v.range)) in
      Yields-map served (λ r d. inr d)
]
