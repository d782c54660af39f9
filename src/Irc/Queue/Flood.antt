-- ===== src/Irc/Queue/Flood.antt =====
-- Flood control: how many messages `_irc_queue_update` sends in a stretch of time.
use mx3bot.Base.{
  ℕ, ◌+◌, ◌-◌, ◌*◌, ◌≤◌, ◌≡◌, ◌⊎◌, inl, inr, ap, refl, Option, some, List, [], ◌∷◌, ◌++◌, arith,
  length, length-append, Yields, yields, Yields-bind, Yields-map, ◌>>=◌,
}
use Prim.Native.Nat.{max}
use mx3bot.CString.{Str}
use mx3bot.Irc.Queue.{Queue, Outcome, queue_update}
use mx3bot.Irc.Queue.Refines.{IsReady, Refines, IsReady-timer, Refines-timer}
use mx3bot.Irc.Queue.Calls.{Updated, idle, held, served, queue_update-Refines}
use mx3bot.Irc.Queue.Spec.{Message}

-- `_irc_queue_update` called at each of the times, and what it sends in all.
unfoldable pub update_all : List ℕ → Queue → Option (Queue × List Str)
update_all [] q = some (q, [])
update_all (now ∷ times) q =
    queue_update now q >>= λ o. update_all times o.queue >>= λ (q', sent). some (q', o.sent ++ sent)

abbrev pub Within : ℕ → ℕ → List ℕ → Type 0
Within first last [] = Unit {0}
Within first last (now ∷ times) = (first ≤ now) × (now ≤ last) × Within first last times

-- A run from `q`: the state is ready, and each message sent cost two seconds of the timer.
pub record IsPaced (first last : ℕ) (q : Queue) (r : Queue × List Str) : Type 0 where
  pub capacity : ℕ
  pub waiting : List Message
  pub ready : IsReady r.0 capacity
  pub refines : Refines r.0 waiting
  pub cost : (length r.1 ≡ 0) ⊎ (2 * length r.1 + max first q.timer ≤ r.0.timer)
  pub later : q.timer ≤ r.0.timer
  pub ahead : r.0.timer ≤ max q.timer (last + 11)

-- A call that sends nothing.
still :
    (first last : ℕ) (q : Queue) (waiting : List Message) (capacity : ℕ)
    → IsReady q capacity
    → Refines q waiting
    → (t : ℕ) → q.timer ≤ t
    → t ≤ max q.timer (last + 11)
    → IsPaced first last q (record q { timer = t }, [])
still first last q waiting capacity v f t low high = record {
  capacity = capacity;
  waiting = waiting;
  ready = IsReady-timer t v;
  refines = Refines-timer t f;
  cost = inl refl;
  later = low;
  ahead = high;
}

update-IsPaced :
    (first last now : ℕ) (q : Queue) (waiting : List Message) (capacity : ℕ) (o : Outcome)
    → first ≤ now
    → now ≤ last
    → IsReady q capacity
    → Refines q waiting
    → Updated now q waiting o
    → IsPaced first last q (o.queue, o.sent)
update-IsPaced first last now q waiting capacity o h k v f (idle e same) =
    rw same (still first last q waiting capacity v f q.timer (omega arith) (omega arith))
update-IsPaced first last now q waiting capacity o h k v f (held full same) =
    rw same (still first last q waiting capacity v f (max q.timer now) (omega arith) (omega arith))
update-IsPaced first last now q waiting capacity o h k v f
      (served m rest free next sent result timer holds) =
    record {
      capacity = holds.capacity;
      waiting = rest;
      ready = holds.ready;
      refines = holds.refines;
      cost = inr (omega (arith, timer, ap (length {A = Str}) sent));
      later = omega (arith, timer);
      ahead = omega (arith, timer);
    }

join-IsPaced :
    (first last : ℕ) (q q' q'' : Queue) (sent sent' : List Str)
    → IsPaced first last q (q', sent)
    → IsPaced first last q' (q'', sent')
    → IsPaced first last q (q'', sent ++ sent')
join-IsPaced first last q q' q'' sent sent' a b = record {
  capacity = b.capacity;
  waiting = b.waiting;
  ready = b.ready;
  refines = b.refines;
  cost = ground (arith, length-append sent sent', a.cost, b.cost, a.later, b.later);
  later = omega (arith, a.later, b.later);
  ahead = omega (arith, a.ahead, b.ahead);
}

update_all-IsPaced :
    (first last : ℕ) (times : List ℕ) (q : Queue) (waiting : List Message) (capacity : ℕ)
    → Within first last times
    → IsReady q capacity
    → Refines q waiting
    → Yields (IsPaced first last q) (update_all times q)
unfolding update_all
update_all-IsPaced first last [] q waiting capacity w v f =
    yields (still first last q waiting capacity v f q.timer (omega arith) (omega arith))
update_all-IsPaced first last (now ∷ times) q waiting capacity w v f =
    Yields-bind (queue_update-Refines now capacity q waiting v f) λ o u.
      let step = update-IsPaced first last now q waiting capacity o w.0 w.1 v f u in
      Yields-bind
        (update_all-IsPaced first last times o.queue step.waiting step.capacity w.2 step.ready
          step.refines)
        λ (q', sent) rest. yields (join-IsPaced first last q o.queue q' o.sent sent step rest)

-- However often `_irc_queue_update` is called between the times `first` and `last`, every call
-- returns, and together they send at most (last - first + 11) / 2 messages.
pub update_all_paced :
    (first last capacity : ℕ) (times : List ℕ) (q : Queue) (waiting : List Message)
    → Within first last times
    → first ≤ last
    → IsReady q capacity
    → Refines q waiting
    → Yields (λ r. 2 * length r.1 ≤ last - first + 11) (update_all times q)
update_all_paced first last capacity times q waiting w h v f =
    Yields-map (update_all-IsPaced first last times q waiting capacity w v f)
      λ r p. omega (arith, p.cost, p.ahead)
