-- ===== src/Irc/Queue/Calls.antt =====
-- The functions of irc_queue.c that the client calls, against the abstract queue.
use mx3bot.Base.{
  ℕ, zero, suc, ◌+◌, ◌≤◌, ◌<◌, ◌≡◌, refl, ap, subst, sym, ◌≢◌, ◌⊎◌, inl, inr, true, none, some,
  List, [], ◌∷◌, arith, length, take, length-take_le, leb, Bool-cases, Option-cases, ◌==◌, ltb,
  Yields, yields, Yields-bind, Yields-if,
}
use Prim.Native.Nat.{max}
use mx3bot.Base.Int.{ℤ, pos, negsuc, int_eq, int_lt, int_eq_iff}
use mx3bot.CString.{Str, strncpy_fits}
use mx3bot.Table.{tally}
use mx3bot.Irc.Queue.{
  Allocator, Item, Queue, Outcome, asked_for, queue_init, queue_insert, insert_with, queue_purge,
  queue_update,
}
use mx3bot.Irc.Queue.Live.{tally-none}
use mx3bot.Irc.Queue.Refines.{IsReady, Refines, IsReady-timer, Refines-timer}
use mx3bot.Irc.Queue.Laws.{
  Entered, Holds, dequeue-Served, idle-empty, enqueue-Refines, queued_message,
}
use mx3bot.Irc.Queue.Spec.{Message, serve}

-- A ready queue in which nothing waits.
empty-Refines : (q : Queue) → q.heap_size ≡ 1 → 1 ≤ length q.heap_item → Refines q []
unfolding tally
empty-Refines q e h = record {
  items = [];
  queued =
      λ t. tally-none t q.heap_item q.heap_size (omega arith) (λ c low high. absurd (omega arith));
  messages = refl;
  stamped = tt;
}

asked_for-large : (capacity : ℤ) → 2 ≤ asked_for capacity
asked_for-large (pos zero) = omega arith
asked_for-large (pos (suc n)) = omega arith
asked_for-large (negsuc n) = omega arith

-- `_irc_queue_init` with an argument other than -1 returns 0 and leaves a ready queue in which
-- nothing waits, with an idle timer, if malloc() gives memory; otherwise it returns -1.
pub queue_init-IsReady :
    (memory : Allocator) (capacity : ℤ) (q : Queue)
    → capacity ≢ negsuc 0
    → ((a : List Item) × (memory.malloc (asked_for capacity) ≡ some a)
        × IsReady (queue_init memory capacity q).0 (asked_for capacity)
        × Refines (queue_init memory capacity q).0 []
        × ((queue_init memory capacity q).0.timer ≡ 0)
        × ((queue_init memory capacity q).1 ≡ pos 0))
      ⊎ ((memory.malloc (asked_for capacity) ≡ none)
          × ((queue_init memory capacity q).1 ≡ negsuc 0))
unfolding queue_init
queue_init-IsReady memory capacity q h = elim (Bool-cases (int_eq capacity (negsuc 0))) [
  | inl e ↦ absurd (h ((int_eq_iff capacity (negsuc 0)).0 e))
  | inr e ↦ elim (Option-cases (memory.malloc (asked_for capacity))) [
    | inl refused ↦ rw (e, refused, queue_init) (inr (refl, refl))
    | inr (a, given) ↦
        let size = memory.malloc_length (asked_for capacity) a given in
        let large = asked_for-large capacity in
        rw (e, given, queue_init)
          (inl (
            a,
            refl,
            record {
              queueing = refl;
              allocated = size;
              large = large;
              range = omega arith;
              heap = λ c g l. absurd (omega arith);
              counter = omega arith;
            },
            empty-Refines _ refl (omega arith),
            refl,
            refl,
          ))
  ]
]

-- After `_irc_queue_purge` a ready queue is ready and nothing waits in it.
pub queue_purge-Refines :
    (capacity : ℕ) (q : Queue)
    → IsReady q capacity
    → IsReady (queue_purge q) capacity × Refines (queue_purge q) []
unfolding queue_purge
queue_purge-Refines capacity q v = (
  record {
    queueing = v.queueing;
    allocated = v.allocated;
    large = v.large;
    range = omega (arith, v.large);
    heap = λ c g l. absurd (omega arith);
    counter = omega arith;
  },
  empty-Refines _ refl (omega (arith, v.allocated, v.large)),
)

-- What `_irc_queue_update` does at the time `now`.
pub data Updated (now : ℕ) (q : Queue) (waiting : List Message) (o : Outcome) : Type 0 where
  idle :
      waiting ≡ [] → o ≡ record { queue = q; sent = []; result = pos 0 } → Updated now q waiting o
  held :
      now + 10 ≤ max q.timer now
      → o ≡ record { queue = record q { timer = max q.timer now }; sent = []; result = pos 0 }
      → Updated now q waiting o
  served :
      (m : Message) (rest : List Message)
      → max q.timer now < now + 10
      → serve waiting ≡ some (m, rest)
      → o.sent ≡ m.text ∷ []
      → o.result ≡ pos 0
      → o.queue.timer ≡ max q.timer now + 2
      → Holds (record q { timer = max q.timer now + 2 }) rest o.queue
      → Updated now q waiting o

-- On a ready queue `_irc_queue_update` makes no access outside the array and ends. It returns 0:
-- with nothing changed if no message waits; with nothing sent and the timer brought up to the clock
-- if it is then 10 seconds or more ahead; and otherwise it sends the one message that is next, and
-- the timer is 2 seconds further.
pub queue_update-Refines :
    (now capacity : ℕ) (q : Queue) (waiting : List Message)
    → IsReady q capacity
    → Refines q waiting
    → Yields (Updated now q waiting) (queue_update now q)
unfolding queue_update
queue_update-Refines now capacity q waiting v f =
    let late = max q.timer now in
    let q' = record q { timer = late + 2 } in
    let v' = IsReady-timer (late + 2) v in
    let f' = Refines-timer (late + 2) f in
    Yields-if (q.heap_size == 1)
      (λ e. yields (idle (idle-empty capacity q waiting v f (ground arith)) refl))
      (λ e.
        Yields-if (leb (now + 10) late) (λ full. yields (held (ground arith) refl))
          (λ free.
            Yields-bind (dequeue-Served capacity q' waiting v' f' (ground (arith, v.range)))
              λ (q'', r) (m, rest, next, text, holds).
                rw text
                  (yields (served m rest (ground arith) next refl refl holds.same_time holds))))

-- What `_irc_queue_insert` does with `text` at the time `now`.
pub data Inserted (memory : Allocator) (capacity now : ℕ) (priority : ℤ) (text : Str) (q : Queue)
    (waiting : List Message) (o : Outcome) : Type 0 where
  dropped :
      int_lt priority (pos 1) ≡ true
      → o ≡ record { queue = q; sent = []; result = pos 0 }
      → Inserted memory capacity now priority text q waiting o
  urgent :
      int_lt (pos 8) priority ≡ true
      → o ≡ record {
        queue = record q { timer = max q.timer now + 2 };
        sent = take 509 text ∷ [];
        result = pos 0;
      }
      → Inserted memory capacity now priority text q waiting o
  queued :
      (n : ℕ)
      → priority ≡ pos n
      → (1 ≤ n) × (n ≤ 8)
      → o.sent ≡ []
      → Entered memory capacity q waiting
          (record { priority = n; text = take 509 text })
          (o.queue, o.result)
      → Inserted memory capacity now priority text q waiting o

kept_text :
    (n : ℕ) (text : Str)
    → queued_message n (take 509 text) ≡ record { priority = n; text = take 509 text }
kept_text n text =
    ap (λ (s : Str). record { priority = n; text = s })
      (strncpy_fits 511 (take 509 text) (omega (arith, length-take_le 509 text)))

insert_with-Inserted :
    (memory : Allocator) (capacity now : ℕ) (priority : ℤ) (text : Str) (q : Queue)
    (waiting : List Message)
    → IsReady q capacity
    → Refines q waiting
    → 0 < q.heap_position
    → Yields
        (Inserted memory capacity now priority text q waiting)
        (insert_with (some capacity) memory now priority (take 509 text) q)
unfolding insert_with
insert_with-Inserted memory capacity now (negsuc n) text q waiting v f left =
    yields (dropped refl refl)
insert_with-Inserted memory capacity now (pos n) text q waiting v f left =
    Yields-if (ltb n 1) (λ none_wanted. yields (dropped none_wanted refl))
      (λ wanted.
        Yields-if (ltb 8 n) (λ high. yields (urgent high refl))
          (λ low.
            let range : (1 ≤ n) × (n ≤ 8) = ground arith in
            let entered =
              enqueue-Refines memory capacity n (take 509 text) q waiting v f range left in
            Yields-bind entered λ (q', r) e. yields (
              queued n refl range refl
                (subst (λ m. Entered memory capacity q waiting m (q', r)) (kept_text n text) e))))

-- On a ready queue whose counter is not used up, `_irc_queue_insert` makes no access outside the
-- array and ends. A priority below 1 drops the text, a priority above 8 sends its first 509 bytes
-- at once and moves the timer, and any other queues them as `enqueue` does.
pub queue_insert-Refines :
    (memory : Allocator) (capacity now : ℕ) (priority : ℤ) (text : Str) (q : Queue)
    (waiting : List Message)
    → IsReady q capacity
    → Refines q waiting
    → 0 < q.heap_position
    → Yields
        (Inserted memory capacity now priority text q waiting)
        (queue_insert memory now priority text q)
unfolding queue_insert
queue_insert-Refines memory capacity now priority text q waiting v f left =
    subst
      (λ c.
        Yields (Inserted memory capacity now priority text q waiting)
          (insert_with c memory now priority (take 509 text) q))
      (sym v.queueing) (insert_with-Inserted memory capacity now priority text q waiting v f left)
