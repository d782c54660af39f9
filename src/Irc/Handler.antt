-- ===== src/Irc/Handler.antt =====
-- src/irc/irc_handler.c: what the client itself does at an event, before the function that the program
-- has registered for it.
-- `none` is an access outside an array, or through NULL.
pub mod Laws
use mx3bot.Base.{
  ℕ, ◌-◌, ◌||◌, Bool, true, false, Option, none, some, List, [], ◌∷◌, ◌++◌, ◌>>=◌, ◌==◌, leb, ltb,
  take, length, replicate, set, if◌then◌else◌, get_or,
}
use mx3bot.Base.Int.{ℤ, negsuc, pos}
use mx3bot.CString.{Str, str_case_eq}
use mx3bot.Strtok.{skip_delims, strtok}
use mx3bot.Irc.Channel.{
  Channels, Status, null, join, rejoin, fail, ok, chan_del, chan_getstatus, chan_setstatus,
}
use mx3bot.Irc.Client.{Client, irc_reconnect, say}
use mx3bot.Irc.Events.{cmd_error, cmd_join, cmd_kick, cmd_max, cmd_numeric, cmd_ping, word_pong}
use mx3bot.Irc.Parse.{space}
use mx3bot.Irc.Queue.{Allocator}

-- struct irc_handler_info
pub record Info : Type 0 where
  pub type : ℕ
  pub server : ℤ
  pub nick : Str
  pub user : Str
  pub host : Str
  pub target : Str
  pub param : Str
  pub param2 : Str

-- A registered function: it acts on the client by the functions of irc.h.
abbrev pub Handler : Type 0
Handler = Info → Client → Option (Client × ℤ)

abbrev pub Handlers : Type 0
Handlers = List (Option Handler)

abbrev pub irc_ok : ℤ
irc_ok = pos 0

unfoldable pub handler_init : Handlers
handler_init = replicate cmd_max none

-- The type IRC_CMD_MAX passes the test and is written past the end of the table.
unfoldable pub add_handler : ℕ → Option Handler → Handlers → Option (Handlers × ℤ)
add_handler type func handler =
    if leb type cmd_max
    then (if ltb type (length handler) then some (set handler type func, pos 0) else none)
    else some (handler, pos 0)

unfoldable pub handle_join : Info → Client → Client
handle_join info c =
    if str_case_eq info.nick c.botnick
    then record c { channels = (chan_setstatus info.target Status.ok c.channels).0 }
    else c

unfoldable pub handle_error : Client → Client
unfolding irc_reconnect
handle_error c = irc_reconnect none c

unfoldable pub handle_kick : Info → Client → Client
handle_kick info c =
    if str_case_eq info.param c.botnick
    then record c { channels = (chan_setstatus info.target Status.rejoin c.channels).0 }
    else c

-- `_irc_chan_getstatus(chan) == IRC_CHAN_JOIN`
is_join : Option Status → Bool
is_join none = false
is_join (some status) = elim status [
  | null ↦ false
  | join ↦ true
  | rejoin ↦ false
  | fail ↦ false
  | ok ↦ false
]

unfoldable pub join_failure : Str → Channels → Channels
unfolding is_join
join_failure chan s =
    let s' = (chan_setstatus chan Status.fail s).0 in
    if is_join (chan_getstatus chan s') then (chan_del chan s').0 else s'

-- What strtok() leaves in the array: the first token and the delimiters before it.
first_token : Str → Str → Str
unfolding skip_delims
first_token param chan = take (length param - length (skip_delims space param)) param ++ chan

handle_join_failure : Info → Option Str → Client → Option (Info × Client)
unfolding join_failure first_token
handle_join_failure info none c = none
handle_join_failure info (some chan) c = some (
  record info { param = first_token info.param chan },
  record c { channels = join_failure chan c.channels },
)

unfoldable pub handle_numeric : Info → Client → Option (Info × Client)
unfolding handle_join_failure strtok
handle_numeric info c =
    let n = info.type in
    if (n == 471) || ((n == 473) || ((n == 474) || (n == 475)))
    then handle_join_failure info (strtok info.param space).0 c
    else some (info, c)

module _ (memory : Allocator) (now : ℕ) where
  unfoldable pub handle_ping : Info → Client → Option Client
  unfolding say
  handle_ping info c = say memory now (pos 8) (word_pong ++ b' ' ∷ info.param) c

  -- The table of default handlers; each of them returns IRC_OK.
  unfoldable pub default_handler : ℕ → Info → Client → Option (Info × Client)
  unfolding handle_join handle_kick handle_ping handle_error handle_numeric
  default_handler type info c =
      if type == cmd_join
      then some (info, handle_join info c)
      else if type == cmd_kick
      then some (info, handle_kick info c)
      else if type == cmd_ping
      then (handle_ping info c >>= λ c'. some (info, c'))
      else if type == cmd_error
      then some (info, handle_error c)
      else if type == cmd_numeric
      then handle_numeric info c
      else some (info, c)

  call : Option Handler → Info × Client → Option (Client × ℤ)
  call none (info, c) = some (c, irc_ok)
  call (some func) (info, c) = func info c

  unfoldable pub handler_exec : Handlers → ℕ → Info → Client → Option (Client × ℤ)
  unfolding default_handler call
  handler_exec handler type info c =
      if ltb type cmd_max
      then (default_handler type info c >>= λ r. call (get_or handler type none) r)
      else none
