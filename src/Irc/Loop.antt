-- ===== src/Irc/Loop.antt =====
-- src/irc/irc_client.c: client(), which connects and then reads, joins and sends until the client is
-- told to quit. What the network does is a list of events with the time of each pass.
-- `none` is an access outside an array, or through NULL.
pub mod Pass
pub mod Idle
mod Tests
use mx3bot.Base.{ℕ, Option, none, some, List, [], ◌∷◌, ◌>>=◌, if◌then◌else◌}
use mx3bot.Base.Int.{ℤ, negsuc, pos, int_eq}
use mx3bot.CString.{Str}
use mx3bot.Irc.Client.{Client, Kind, Quit, Output}
use mx3bot.Irc.Handler.{Handlers, Info}
use mx3bot.Irc.Loop.Pass.{Event, greet, is_disconnect, is_stay, pass}
use mx3bot.Irc.Queue.{Allocator, Queue, queue_init}

module _ (memory : Allocator) (handler : Handlers) (sid : ℤ) (junk : Info) where
  -- The main loop over the events of one connection; it ends when the client is to quit, or when
  -- there are no more events.
  unfoldable pub main_loop : List (Event × ℕ) → ℕ → Client → Option (Client × ℕ)
  unfolding pass is_stay
  main_loop [] active c = some (c, active)
  main_loop ((event, now) ∷ events) active c =
      let on : Option (Client × ℕ) =
        pass memory handler sid junk now event active c >>= λ (c', active').
        main_loop events active' c' in
      if is_stay c.quit then on else some (c, active)

  -- Connections, each with the time at which it is made, or `none` where that fails. A result of
  -- `none` beside the client means that it still runs.
  unfoldable pub connections :
      Str
      → Str
      → Str
      → List (Option (ℕ × List (Event × ℕ)))
      → ℕ
      → Client
      → Option (Client × Option ℤ)
  unfolding main_loop greet is_disconnect is_stay
  connections nick username realname [] active c =
      some (c, if is_disconnect c.quit then some (pos 0) else none)
  connections nick username realname (none ∷ later) active c =
      if is_disconnect c.quit
      then some (c, some (pos 0))
      else some (record c { quit = Quit.stay }, some (negsuc 0))
  connections nick username realname (some (now, events) ∷ later) active c =
      let connected : Option (Client × Option ℤ) =
        greet memory handler sid junk now nick username realname (record c { quit = Quit.stay })
        >>= λ c1. main_loop events active c1 >>= λ (c2, active').
            let on : Option (Client × Option ℤ) =
              connections nick username realname later active' c2 in
            if is_stay c2.quit then some (c2, none) else on in
      if is_disconnect c.quit then some (c, some (pos 0)) else connected

  -- client(), called at the time `now`.
  unfoldable pub client :
      Kind
      → ℕ
      → Str
      → Str
      → Str
      → List (Option (ℕ × List (Event × ℕ)))
      → Client
      → Option (Client × Option ℤ)
  unfolding connections
  client kind now nick username realname network c =
      connections nick username realname network now (record c { quit = Quit.stay; type = kind })

  ready : Queue × ℤ → Client → Client
  ready (q, r) c = record c { output = record (c.output) { queue = q } }

  unfoldable pub irc_dcc :
      ℕ → List (Option (ℕ × List (Event × ℕ))) → Client → Option (Client × Option ℤ)
  unfolding client ready queue_init
  irc_dcc now network c =
      client Kind.dcc now [] [] [] network (ready (queue_init memory (negsuc 0) c.output.queue) c)

  unfoldable pub irc_client :
      ℕ
      → Str
      → Str
      → Str
      → List (Option (ℕ × List (Event × ℕ)))
      → Client
      → Option (Client × Option ℤ)
  unfolding client ready queue_init
  irc_client now nick username realname network c =
      let made = queue_init memory (pos 0) c.output.queue in
      let c' = ready made c in
      let run = client Kind.irc now nick username realname network c' in
      if int_eq made.1 (pos 0) then run else some (c', some (negsuc 0))
