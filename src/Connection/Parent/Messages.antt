-- ===== src/Connection/Parent/Messages.antt =====
-- src/connection.c: what the parent does with the messages and notices that a child has read.
pub mod Commands
use mx3bot.Base.{ℕ, Bool, true, Option, none, some, [], ◌∷◌, ◌++◌, ◌==◌, drop, if◌then◌else◌, ◌>>=◌}
use mx3bot.Base.Int.{ℤ}
use mx3bot.CString.{Str, str_case_eq}
use mx3bot.Config.Write.{or_null}
use mx3bot.Log.{logtype_ctcp, logtype_notice, logtype_privmsg}
use mx3bot.Connection.Line.{all_left, next_word, or_empty}
use mx3bot.Connection.Parent.{
  Parent, System, char, connection_of, logged_if_channel, number, ok, text, with_status,
}
use mx3bot.Connection.Words.{
  arg_botnick, arg_cp, arg_ctcp, arg_host, arg_nick, arg_param, arg_reply, arg_server, arg_target,
  arg_uid, arg_user, event_ctcp, event_ctcp_reply, event_msg, event_notice, event_server_notice,
  word_ctcp, word_ctcpr, word_msg, word_notice, word_snotice,
}

-- `nick!user@host`
unfoldable pub ident : Option Str → Option Str → Option Str → Str
ident nick user host = or_null nick ++ b'!' ∷ (or_null user ++ b'@' ∷ or_null host)

-- Who speaks to whom, with what follows.
unfoldable pub spoken : Str → Str → Option Str → Option Str → Option Str → Option Str → Str
unfolding ident
spoken before after nick user host param =
    before ++ (ident nick user host ++ (after ++ or_null param))

abbrev pub first_byte : Str → ℕ
first_byte [] = 0
first_byte (c ∷ s) = c

-- The command and its parameter.
unfoldable pub command_of : Bool → ℕ → Str → Option Str × Option Str
unfolding next_word all_left
command_of direct prefix p =
    let (command, rest) = next_word p in
    let stripped : Option Str = command >>= λ c. some (drop 1 c) in
    if first_byte p == prefix
    then (stripped, all_left rest)
    else if direct
    then (command, all_left rest)
    else (none, none)

module _ (sys : System) (cid : ℕ) where
  open sys use {script_exec}

  -- The script of a command is run, unless the name is reserved for events.
  run_command :
      Bool
      → ℤ
      → Option Str
      → Option Str
      → Option Str
      → Option Str
      → Option Str × Option Str
      → Parent
      → Option Parent
  unfolding ok
  run_command direct uid target nick user host (none, param) s = ok cid word_msg s
  run_command direct uid target nick user host (some command, param) s =
      connection_of cid s >>= λ c.
      (let ran : Option Parent =
          script_exec cid command nick
            ((arg_nick, text nick)
              ∷ (arg_user, text user)
              ∷ (arg_host, text host)
              ∷ (arg_target, text target)
              ∷ (arg_reply, text (if direct then nick else target))
              ∷ (arg_param, text (some (or_empty param)))
              ∷ (arg_botnick, text (some c.nick))
              ∷ (arg_uid, number uid)
              ∷ (arg_cp, char c.prefix)
              ∷ [])
            s in
        (if first_byte command == b'_' then some s else ran) >>= λ s'. ok cid word_msg s')

  -- Once the event has been seen: the text is looked at for a command.
  act_on :
      Option Str → Option Str → Option Str → Option Str → Option Str → ℤ → Parent → Option Parent
  unfolding command_of run_command
  act_on none nick user host p uid s = none
  act_on (some target) nick user host none uid s = none
  act_on (some target) nick user host (some p) uid s = connection_of cid s >>= λ c.
      (let direct = str_case_eq target c.nick in
        run_command direct uid (some target) nick user host (command_of direct c.prefix p) s)

  heard :
      Option Str → Option Str → Option Str → Option Str → Option Str → ℤ → Parent → Option Parent
  unfolding act_on
  heard target nick user host p uid s = connection_of cid s >>= λ c.
      script_exec cid event_msg none
        ((arg_nick, text nick)
          ∷ (arg_user, text user)
          ∷ (arg_host, text host)
          ∷ (arg_target, text target)
          ∷ (arg_param, text p)
          ∷ (arg_botnick, text (some c.nick))
          ∷ (arg_uid, number uid)
          ∷ [])
        s
      >>= λ s'. act_on target nick user host p uid s'

  -- Once the line is taken apart.
  unfoldable pub msg_parts :
      Option Str → Option Str → Option Str → Option Str → Option Str → Parent → Option Parent
  unfolding with_status logged_if_channel spoken heard
  msg_parts target nick user host p s =
      let line = spoken (b'<' ∷ []) (b'>' ∷ b' ' ∷ []) nick user host p in
      with_status sys cid true nick user host s >>= λ (s', uid).
      logged_if_channel sys cid target logtype_privmsg line s' >>= λ s''.
      heard target nick user host p uid s''

  unfoldable pub server_msg : Option Str → Parent → Option Parent
  unfolding next_word all_left msg_parts
  server_msg msg s =
      let (target, s₁) = next_word (or_empty msg) in
      let (nick, s₂) = next_word s₁ in
      let (user, s₃) = next_word s₂ in
      let (host, s₄) = next_word s₃ in msg_parts target nick user host (all_left s₄) s

  unfoldable pub server_ctcp : Option Str → Parent → Option Parent
  unfolding next_word all_left with_status logged_if_channel spoken ok
  server_ctcp msg s =
      let (target, s₁) = next_word (or_empty msg) in
      let (nick, s₂) = next_word s₁ in
      let (user, s₃) = next_word s₂ in
      let (host, s₄) = next_word s₃ in
      let (ctcp, s₅) = next_word s₄ in
      let param = all_left s₅ in
      let line = spoken (b'*' ∷ []) (b'*' ∷ b' ' ∷ []) nick user host param in
      logged_if_channel sys cid target logtype_ctcp line s >>= λ s'.
      with_status sys cid true nick user host s' >>= λ (s'', uid). connection_of cid s'' >>= λ c.
      script_exec cid event_ctcp none
        ((arg_nick, text nick)
          ∷ (arg_user, text user)
          ∷ (arg_host, text host)
          ∷ (arg_target, text target)
          ∷ (arg_ctcp, text ctcp)
          ∷ (arg_param, text param)
          ∷ (arg_botnick, text (some c.nick))
          ∷ (arg_uid, number uid)
          ∷ [])
        s''
      >>= λ r. ok cid word_ctcp r

  unfoldable pub server_notice : Option Str → Parent → Option Parent
  unfolding next_word all_left logged_if_channel spoken ok
  server_notice msg s =
      let (target, s₁) = next_word (or_empty msg) in
      let (nick, s₂) = next_word s₁ in
      let (user, s₃) = next_word s₂ in
      let (host, s₄) = next_word s₃ in
      let param = all_left s₄ in
      let line = spoken (b'-' ∷ []) (b'-' ∷ b' ' ∷ []) nick user host param in
      logged_if_channel sys cid target logtype_notice line s >>= λ s'. connection_of cid s' >>= λ c.
      script_exec cid event_notice none
        ((arg_nick, text nick)
          ∷ (arg_user, text user)
          ∷ (arg_host, text host)
          ∷ (arg_target, text target)
          ∷ (arg_param, text param)
          ∷ (arg_botnick, text (some c.nick))
          ∷ [])
        s'
      >>= λ r. ok cid word_notice r

  unfoldable pub server_snotice : Option Str → Parent → Option Parent
  unfolding next_word all_left ok
  server_snotice msg s =
      let (server, s₁) = next_word (or_empty msg) in
      connection_of cid s >>= λ c.
      script_exec cid event_server_notice none
        ((arg_server, text server)
          ∷ (arg_param, text (all_left s₁))
          ∷ (arg_botnick, text (some c.nick))
          ∷ [])
        s
      >>= λ r. ok cid word_snotice r

  unfoldable pub server_ctcpr : Option Str → Parent → Option Parent
  unfolding next_word all_left ok
  server_ctcpr msg s =
      let (nick, s₁) = next_word (or_empty msg) in
      let (user, s₂) = next_word s₁ in
      let (host, s₃) = next_word s₂ in
      let (ctcp, s₄) = next_word s₃ in
      connection_of cid s >>= λ c.
      script_exec cid event_ctcp_reply none
        ((arg_nick, text nick)
          ∷ (arg_user, text user)
          ∷ (arg_host, text host)
          ∷ (arg_ctcp, text ctcp)
          ∷ (arg_param, text (all_left s₄))
          ∷ (arg_botnick, text (some c.nick))
          ∷ [])
        s
      >>= λ r. ok cid word_ctcpr r
