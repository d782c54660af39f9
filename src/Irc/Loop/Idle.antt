-- ===== src/Irc/Loop/Idle.antt =====
-- A client that hears nothing from its server.
use mx3bot.Base.{
  ℕ, ◌-◌, ◌≡◌, ◌<◌, refl, some, List, ◌∷◌, ◌++◌, ltb, arith, Yields, yields, Yields-bind, Yields-if,
}
use mx3bot.Base.Int.{ℤ, pos}
use mx3bot.CString.{Str}
use mx3bot.Irc.Client.{Client, Output, insert, say}
use mx3bot.Irc.Events.{word_ping}
use mx3bot.Irc.Handler.{Handlers, Info}
use mx3bot.Irc.Loop.Pass.{idle, is_irc, nothing, read_event}
use mx3bot.Irc.Queue.{Allocator}
use mx3bot.Irc.Queue.Calls.{queue_insert-Refines}
use mx3bot.Irc.Queue.Spec.{Message}
use mx3bot.Irc.Queue.Refines.{IsReady, Refines}

-- Nothing but what is sent and what waits to be sent differs.
abbrev pub Keeps : Client → Client → Type 0
Keeps c c' = c' ≡ record c { output = c'.output }

module _ (memory : Allocator) (capacity now : ℕ) (c : Client) (waiting : List Message)
    (v : IsReady c.output.queue capacity) (f : Refines c.output.queue waiting)
    (left : 0 < c.output.queue.heap_position) where
  answered : {o : Output × ℤ} → Yields (λ (r : Output × ℤ). Unit {0}) (some o)
  answered = yields tt

  say-Keeps : (priority : ℤ) (text : Str) → Yields (Keeps c) (say memory now priority text c)
  unfolding say insert
  say-Keeps priority text =
      Yields-bind
        (Yields-bind
          (queue_insert-Refines memory capacity now priority text c.output.queue waiting v f left)
          (λ r i. answered))
        (λ o u. yields refl)

  idle-Keeps : (active : ℕ) → Yields (Keeps c) (idle memory now active c)
  unfolding idle
  idle-Keeps active =
      Yields-if (ltb 60 (now - active)) (λ late. say-Keeps (pos 8) (word_ping ++ b' ' ∷ c.botnick))
        (λ early.
          Yields-if (ltb 120 (now - active)) (λ late. absurd (ground (arith, early, late)))
            (λ still. yields refl))

  -- However long the server has been silent, reading nothing in the main loop does not make the
  -- client reconnect: with a ready queue whose counter is not used up, the part of a pass up to the
  -- timer returns, changes nothing, `quit` included, but the queue and what was sent, and leaves
  -- the time at which the server was last heard.
  pub read_event_idle :
      (handler : Handlers) (sid : ℤ) (junk : Info) (active : ℕ)
      → Yields
          (λ ((c', heard) : Client × ℕ). Keeps c c' × (heard ≡ active))
          (read_event memory handler sid junk now nothing active c)
  unfolding read_event
  read_event_idle handler sid junk active =
      Yields-if (is_irc c.type) (λ irc. Yields-bind (idle-Keeps active) (λ c' e. yields (e, refl)))
        (λ dcc. yields (refl, refl))
