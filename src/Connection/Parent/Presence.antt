-- ===== src/Connection/Parent/Presence.antt =====
-- src/connection.c: what the parent does when a child tells who has joined, left or changed the nick,
-- when it is connected, and when a topic is set.
pub mod Gone
use mx3bot.Base.{
  ℕ, false, ◌&&◌, Option, none, some, [], ◌∷◌, ◌++◌, leb, length, if◌then◌else◌, ◌>>=◌,
}
use mx3bot.Base.Int.{ℤ, pos}
use mx3bot.CString.{Str, str_eq}
use mx3bot.CString.Number.{format_int}
use mx3bot.Config.Write.{or_null}
use mx3bot.Log.{log_set, logtype_join, logtype_part, logtype_topic, logtype_verbose}
use mx3bot.User.{Users, user_nick, user_part}
use mx3bot.Connection.Line.{all_left, next_word, or_empty}
use mx3bot.Connection.Parent.{
  Parent, System, char, connection_of, joined, logged, number, ok, text, with_status,
}
use mx3bot.Connection.Parent.Messages.{ident, spoken}
use mx3bot.Connection.Words.{
  arg_botnick, arg_chan, arg_cp, arg_host, arg_nick, arg_param, arg_server, arg_target, arg_uid,
  arg_user, event_connect, event_join, event_part, event_topic, word_connect, word_join, word_nick,
  word_part, word_quit, word_topic, word_who,
}

-- The name of the log of a channel, of which an array holds 255 bytes.
unfoldable pub log_name : Str → Option Str → Str
log_name name target = name ++ b'-' ∷ (or_null target ++ b'.' ∷ b'l' ∷ b'o' ∷ b'g' ∷ [])

join_line : Option Str → Option Str → Option Str → ℤ → Str
unfolding ident format_int
join_line nick user host uid =
    b'-'
    ∷ b'-'
    ∷ b' '
    ∷ b'J'
    ∷ b'o'
    ∷ b'i'
    ∷ b'n'
    ∷ b':'
    ∷ b' '
    ∷ (ident nick user host
        ++ b' ' ∷ b'(' ∷ b'#' ∷ (format_int uid ++ b')' ∷ b' ' ∷ b'-' ∷ b'-' ∷ []))

part_line : Option Str → Str
part_line nick =
    b'-'
    ∷ b'-'
    ∷ b' '
    ∷ b'P'
    ∷ b'a'
    ∷ b'r'
    ∷ b't'
    ∷ b':'
    ∷ b' '
    ∷ (or_null nick ++ b' ' ∷ b'-' ∷ b'-' ∷ [])

topic_line : Option Str → Option Str → Option Str → Option Str → Str
unfolding spoken
topic_line nick user host param =
    b'-'
    ∷ b'-'
    ∷ b' '
    ∷ b'T'
    ∷ b'o'
    ∷ b'p'
    ∷ b'i'
    ∷ b'c'
    ∷ b':'
    ∷ b' '
    ∷ (spoken (b'<' ∷ []) (b'>' ∷ b' ' ∷ []) nick user host param ++ b' ' ∷ b'-' ∷ b'-' ∷ [])

module _ (sys : System) (cid : ℕ) where
  open sys use {script_exec, now, memory, unset, fopen}

  unfoldable pub with_users : Parent → Users → Parent
  with_users s users = record s { users = users }

  -- The log of the channel is opened where the bot itself has joined.
  set_log : Option Str → Option Str → Str → Parent → Option Parent
  unfolding log_set log_name
  set_log target nick type s = connection_of cid s >>= λ c. nick >>= λ n.
      (let filename = log_name c.name target in
        let set_it : Option Parent =
          log_set fopen memory unset (pos cid) target (some filename) logtype_verbose s.logs
          >>= λ (logs, r). some (record s { logs = logs }) in
        if str_eq type word_join && str_eq n c.nick
        then (if leb 256 (length filename) then none else set_it)
        else some s)

  -- What scripts and the log are told of who joins.
  tell_join : Option Str → Option Str → Option Str → Option Str → Parent → Option Parent
  unfolding with_status logged join_line
  tell_join target nick user host s = with_status sys cid false nick user host s >>= λ (s', uid).
      logged sys cid target logtype_join (join_line nick user host uid) s' >>= λ s''.
      connection_of cid s'' >>= λ c.
      script_exec cid event_join none
        ((arg_chan, text target)
          ∷ (arg_nick, text nick)
          ∷ (arg_user, text user)
          ∷ (arg_host, text host)
          ∷ (arg_botnick, text (some c.nick))
          ∷ (arg_cp, char c.prefix)
          ∷ (arg_uid, number uid)
          ∷ [])
        s''

  -- Once the line is taken apart.
  unfoldable pub join_parts :
      Option Str → Option Str → Option Str → Option Str → Option Str → Parent → Option Parent
  unfolding joined with_users set_log tell_join ok
  join_parts target nick user host type s =
      joined sys cid target nick user host s.users >>= λ users. type >>= λ t.
      set_log target nick t (with_users s users) >>= λ s'.
      (if str_eq t word_who then some s' else tell_join target nick user host s') >>= λ s''.
      ok cid word_join s''

  unfoldable pub server_join : Option Str → Parent → Option Parent
  unfolding next_word join_parts
  server_join p s =
      let (target, s₁) = next_word (or_empty p) in
      let (nick, s₂) = next_word s₁ in
      let (user, s₃) = next_word s₂ in
      let (host, s₄) = next_word s₃ in
      let (type, s₅) = next_word s₄ in join_parts target nick user host type s

  unfoldable pub part_words : Option Str → Option Str → Parent → Option Parent
  unfolding with_users logged part_line with_status ok
  part_words target nick s =
      logged sys cid target logtype_part (part_line nick)
        (with_users s (user_part now (pos cid) target nick s.users).0)
      >>= λ s'. with_status sys cid false nick none none s' >>= λ (s'', uid).
          connection_of cid s'' >>= λ c.
          script_exec cid event_part none
            ((arg_chan, text target)
              ∷ (arg_nick, text nick)
              ∷ (arg_botnick, text (some c.nick))
              ∷ (arg_uid, number uid)
              ∷ [])
            s''
          >>= λ r. ok cid word_part r

  unfoldable pub server_part : Option Str → Parent → Option Parent
  unfolding next_word part_words
  server_part p s =
      let (target, s₁) = next_word (or_empty p) in
      let (nick, s₂) = next_word s₁ in part_words target nick s

  unfoldable pub server_nick : Option Str → Parent → Option Parent
  unfolding next_word with_users ok
  server_nick p s =
      let (new, s₁) = next_word (or_empty p) in
      let (old, s₂) = next_word s₁ in
      new >>= λ n. old >>= λ o. ok cid word_nick (with_users s (user_nick (pos cid) n o s.users).0)

  unfoldable pub server_quit : Option Str → Parent → Option Parent
  unfolding next_word with_users ok
  server_quit p s =
      let (nick, s₁) = next_word (or_empty p) in
      ok cid word_quit (with_users s (user_part now (pos cid) none nick s.users).0)

  unfoldable pub server_connect : Option Str → Parent → Option Parent
  unfolding next_word with_users ok
  server_connect p s =
      let (server, s₁) = next_word (or_empty p) in
      let s' = with_users s (user_part now (pos cid) none none s.users).0 in
      connection_of cid s' >>= λ c.
      script_exec cid event_connect none
        ((arg_server, text server) ∷ (arg_botnick, text (some c.nick)) ∷ []) s'
      >>= λ r. ok cid word_connect r

  unfoldable pub server_topic : Option Str → Parent → Option Parent
  unfolding next_word all_left with_status logged topic_line ok
  server_topic p s =
      let (nick, s₁) = next_word (or_empty p) in
      let (user, s₂) = next_word s₁ in
      let (host, s₃) = next_word s₂ in
      let (target, s₄) = next_word s₃ in
      let param = all_left s₄ in
      with_status sys cid false nick user host s >>= λ (s', uid).
      logged sys cid target logtype_topic (topic_line nick user host param) s' >>= λ s''.
      connection_of cid s'' >>= λ c.
      script_exec cid event_topic none
        ((arg_nick, text nick)
          ∷ (arg_user, text user)
          ∷ (arg_host, text host)
          ∷ (arg_target, text target)
          ∷ (arg_param, text param)
          ∷ (arg_botnick, text (some c.nick))
          ∷ (arg_uid, number uid)
          ∷ [])
        s''
      >>= λ r. ok cid word_topic r
