-- ===== src/Irc/Loop/Tests.antt =====
-- An idle client, and runs of the main loop.
use mx3bot.Base.{
  ℕ, zero, suc, ◌≡◌, refl, Option, none, some, List, [], ◌∷◌, replicate, arith, Yields,
}
use mx3bot.Base.Int.{pos}
use mx3bot.Irc.Channel.{static_channels}
use mx3bot.Irc.Client.{Client, Kind, stay}
use mx3bot.Irc.Handler.{Info, handler_init}
use mx3bot.Irc.Loop.Pass.{nothing, read_event}
use mx3bot.Irc.Loop.Idle.{Keeps, read_event_idle}
use mx3bot.Irc.Queue.{Allocator, Item, Queue, queue_purge}
use mx3bot.Irc.Queue.Calls.{queue_purge-Refines}
use mx3bot.Irc.Queue.Order.{IsHeap}
use mx3bot.Irc.Queue.Refines.{IsReady, Refines}

no_memory : {P : Type 0} {a : List Item} → ◌≡◌ {A = Option (List Item)} none (some a) → P
no_memory e = cc

abbrev exhausted : Allocator
exhausted = record {
  malloc = λ n. none;
  realloc = λ a n. none;
  malloc_length = λ n a e. no_memory e;
  realloc_length = λ a n b e. no_memory e;
  realloc_keeps = λ a n b e h. no_memory e;
}

abbrev unused : Queue
unused = record {
  heap_capacity = some 33;
  heap_size = 1;
  heap_position = 5;
  heap_item = replicate 33 (record { p = 0; d = [] });
  timer = 0;
}

unused-IsHeap : IsHeap unused.heap_item 1
unused-IsHeap zero low high = absurd (omega arith)
unused-IsHeap (suc c) low high = absurd (omega arith)

unused-IsReady : IsReady unused 33
unused-IsReady = record {
  queueing = refl;
  allocated = refl;
  large = omega arith;
  range = omega arith;
  heap = unused-IsHeap;
  counter = omega arith;
}

purged-Ready : IsReady (queue_purge unused) 33 × Refines (queue_purge unused) []
purged-Ready = queue_purge-Refines 33 unused unused-IsReady

abbrev started : Client
started = record {
  output = record { queue = queue_purge unused; sent = [] };
  channels = static_channels;
  botnick = b'm' ∷ b'x' ∷ [];
  quit_message = [];
  quit = stay;
  type = Kind.irc;
}

abbrev no_info : Info
no_info = record {
  type = 0;
  server = pos 0;
  nick = [];
  user = [];
  host = [];
  target = [];
  param = [];
  param2 = [];
}

-- Nothing was heard for 1000 seconds.
read_event_idle_example :
    Yields
      (λ ((c', heard) : Client × ℕ). Keeps started c' × (heard ≡ 100))
      (read_event exhausted handler_init (pos 1) no_info 1100 nothing 100 started)
unfolding queue_purge
read_event_idle_example =
    read_event_idle exhausted 33 1100 started [] purged-Ready.0 purged-Ready.1 (omega arith)
      handler_init (pos 1) no_info 100
