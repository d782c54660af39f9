-- ===== src/Irc/Loop/Pass.antt =====
-- src/irc/irc_client.c: what client() does once it is connected, and in one pass of its main loop, which
-- reads the clock as one value.
use mx3bot.Base.{
  ℕ, ◌+◌, ◌*◌, ◌-◌, Bool, true, false, Option, some, [], ◌∷◌, ◌++◌, ◌>>=◌, ◌==◌, ltb, take,
  if◌then◌else◌,
}
use mx3bot.Base.Int.{ℤ, pos}
use mx3bot.CString.{Str, is_digit, strncpy}
use mx3bot.Irc.Channel.{chan_join, chan_rejoin}
use mx3bot.Irc.Client.{
  Client, Kind, irc, dcc, Quit, stay, reconnect, disconnect, irc_setnick, join, say,
}
use mx3bot.Irc.Events.{
  cmd_connect, cmd_dcc, cmd_log, cmd_numeric, cmd_timer, word_ping, word_quit, word_user,
}
use mx3bot.Irc.Handler.{Handlers, Info, handler_exec}
use mx3bot.Irc.Parse.{IrcLine, parseline}
use mx3bot.Irc.Queue.{Allocator, queue_purge, queue_update}

-- What _irc_net_readline() returns: a line of a length above 0, 0, or -1.
pub data Event : Type 0 where
  line : Str → Event
  nothing read_error : Event

-- The digits at the start of a text, as a number.
digits : ℕ → Str → ℕ
digits n [] = n
digits n (c ∷ s) = let rest = digits (n * 10 + (c - b'0')) s in if is_digit c then rest else n

-- atoi() on a text without a sign or space in front.
unfoldable pub atoi : Str → ℕ
unfolding digits
atoi s = digits 0 s

unfoldable pub is_irc : Kind → Bool
is_irc irc = true
is_irc dcc = false

unfoldable pub is_stay : Quit → Bool
is_stay stay = true
is_stay reconnect = false
is_stay disconnect = false

unfoldable pub is_disconnect : Quit → Bool
is_disconnect stay = false
is_disconnect reconnect = false
is_disconnect disconnect = true

unfoldable pub info_of : ℤ → ℕ → IrcLine → Info
unfolding atoi strncpy
info_of sid token l = record {
  type = if token == cmd_numeric then atoi l.command else token;
  server = sid;
  nick = strncpy 32 l.nick;
  user = strncpy 32 l.user;
  host = strncpy 128 l.host;
  target = strncpy 32 l.target;
  param = strncpy 512 l.param;
  param2 = strncpy 512 l.param2;
}

abbrev pub log_texts : Str × Str
log_texts = (
  b'R' ∷ b'e' ∷ b'a' ∷ b'd' ∷ b' ' ∷ b'e' ∷ b'r' ∷ b'r' ∷ b'o' ∷ b'r' ∷ b':' ∷ b' ' ∷ b'r' ∷ b'e'
      ∷ b'c' ∷ b'o' ∷ b'n' ∷ b'n' ∷ b'e' ∷ b'c' ∷ b't' ∷ b'i' ∷ b'n' ∷ b'g' ∷ b'.' ∷ [],
  b'R' ∷ b'e' ∷ b'a' ∷ b'd' ∷ b' ' ∷ b'e' ∷ b'r' ∷ b'r' ∷ b'o' ∷ b'r' ∷ b':' ∷ b' ' ∷ b'd' ∷ b'i'
      ∷ b's' ∷ b'c' ∷ b'o' ∷ b'n' ∷ b'n' ∷ b'e' ∷ b'c' ∷ b't' ∷ b'i' ∷ b'n' ∷ b'g' ∷ b'.' ∷ [],
)

abbrev pub disconnecting : Str
disconnecting =
    b'D' ∷ b'i' ∷ b's' ∷ b'c' ∷ b'o' ∷ b'n' ∷ b'n' ∷ b'e' ∷ b'c' ∷ b't' ∷ b'i' ∷ b'n' ∷ b'g' ∷ []

goodbye : Kind → Str → Str
goodbye irc [] = word_quit
goodbye irc (m ∷ msg) = word_quit ++ b' ' ∷ (b':' ∷ (m ∷ msg))
goodbye dcc [] = disconnecting ++ b'.' ∷ []
goodbye dcc (m ∷ msg) = disconnecting ++ b':' ∷ (b' ' ∷ (m ∷ msg))

module _ (memory : Allocator) (now : ℕ) where
  -- The test for 120 seconds is the else branch of the test for 60.
  unfoldable pub idle : ℕ → Client → Option Client
  unfolding say
  idle active c =
      let waited = now - active in
      let ping : Option Client = say memory now (pos 8) (word_ping ++ b' ' ∷ c.botnick) c in
      if ltb 60 waited
      then ping
      else if ltb 120 waited
      then some (record c { quit_message = []; quit = Quit.reconnect })
      else some c

  unfoldable pub join_due : Client → Option Client
  unfolding chan_join join is_irc
  join_due c =
      let (s, o, r) = chan_join (join memory now) now c.channels (some c.output) in
      if is_irc c.type then (o >>= λ o'. some (record c { channels = s; output = o' })) else some c

  unfoldable pub send_queued : Client → Option Client
  unfolding queue_update
  send_queued c = queue_update now c.output.queue >>= λ r.
      some (record c { output = record { queue = r.queue; sent = c.output.sent ++ r.sent } })

  unfoldable pub say_goodbye : Client → Option Client
  unfolding goodbye say is_stay
  say_goodbye c =
      let said : Option Client = say memory now (pos 9) (goodbye c.type c.quit_message) c in
      if is_stay c.quit then some c else said

-- `junk` is what the fields of `hinfo` hold that a DCC line does not set.
module _ (memory : Allocator) (handler : Handlers) (sid : ℤ) (junk : Info) (now : ℕ) where
  unfoldable pub mini_handler : ℕ → Str → Client → Option Client
  unfolding handler_exec
  mini_handler type msg c =
      handler_exec memory now handler type
        (record {
          type = type;
          server = sid;
          nick = [];
          user = [];
          host = [];
          target = [];
          param = take 511 msg;
          param2 = [];
        })
        c
      >>= λ (c', r). some c'

  line_read : Str → Client → Option Client
  unfolding parseline info_of handler_exec
  line_read buffer c =
      let from_server : Option Client = parseline buffer >>= λ (token, l).
      handler_exec memory now handler token (info_of sid token l) c >>= λ (c', r). some c' in
      let from_dcc : Option Client =
        handler_exec memory now handler cmd_dcc
          (record junk { type = cmd_dcc; server = sid; param = strncpy 512 buffer }) c
        >>= λ (c', r). some c' in
      if is_irc c.type then from_server else from_dcc

  failed : Client → Option Client
  unfolding mini_handler is_irc
  failed c =
      let again = is_irc c.type in
      mini_handler cmd_log (if again then log_texts.0 else log_texts.1) c >>= λ c'.
      some
        (record c' { quit = if again then Quit.reconnect else Quit.disconnect; quit_message = [] })

  -- The first part of a pass, with the time at which the server was last heard.
  unfoldable pub read_event : Event → ℕ → Client → Option (Client × ℕ)
  unfolding line_read failed idle
  read_event (line buffer) active c =
      line_read buffer c >>= λ c'. some (c', if is_irc c.type then now else active)
  read_event read_error active c = failed c >>= λ c'. some (c', active)
  read_event nothing active c =
      if is_irc c.type
      then (idle memory now active c >>= λ c'. some (c', active))
      else some (c, active)

  -- One pass of the main loop.
  unfoldable pub pass : Event → ℕ → Client → Option (Client × ℕ)
  unfolding read_event mini_handler join_due send_queued say_goodbye
  pass event active c = read_event event active c >>= λ (c1, active').
      mini_handler cmd_timer [] c1 >>= λ c2. join_due memory now c2 >>= λ c3.
      send_queued memory now c3 >>= λ c4. say_goodbye memory now c4 >>= λ c5. some (c5, active')

  -- After a connection is made.
  unfoldable pub greet : Str → Str → Str → Client → Option Client
  unfolding queue_purge say irc_setnick mini_handler is_irc
  greet nick username realname c =
      let purged = record c { output = record (c.output) { queue = queue_purge c.output.queue } } in
      let user_text =
        word_user
        ++ b' ' ∷ (username ++ b' ' ∷ (b'0' ∷ b' ' ∷ (username ++ b' ' ∷ (b':' ∷ realname)))) in
      let greeted : Option Client = say memory now (pos 9) user_text purged >>= λ c1.
      irc_setnick memory now nick c1 >>= λ c2.
      mini_handler cmd_connect [] (record c2 { channels = (chan_rejoin c2.channels).0 }) >>= λ c3.
      some (record c3 { quit_message = [] }) in
      if is_irc c.type then greeted else some purged
