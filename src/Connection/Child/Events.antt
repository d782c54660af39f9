-- ===== src/Connection/Child/Events.antt =====
-- src/connection.c: the functions that a child registers with the IRC client, but for that of CTCP: each
-- tells the parent of an event by one line.
use mx3bot.Base.{
  ℕ, Bool, false, ◌&&◌, ◌||◌, Option, none, some, [], ◌∷◌, ◌==◌, ltb, if◌then◌else◌, ◌>>=◌,
}
use mx3bot.Base.Int.{ℤ, pos}
use mx3bot.CString.{Str, is_empty, str_case_eq}
use mx3bot.CString.Number.{format_int}
use mx3bot.Config.Write.{or_null}
use mx3bot.Strtok.{is_in, strtok, token}
use mx3bot.Irc.Client.{irc_disconnect, irc_who}
use mx3bot.Irc.Handler.{Info, irc_ok}
use mx3bot.Irc.Queue.{Allocator}
use mx3bot.Connection.Child.{Child, send_to_parent}
use mx3bot.Connection.Line.{next_word, ◌⌢◌}
use mx3bot.Connection.Words.{
  word_connect, word_ctcpr, word_dcc, word_invite, word_join, word_joinfailure, word_msg, word_nick,
  word_nickinuse, word_note, word_notice, word_part, word_quit, word_snotice, word_topic,
  word_update, word_who,
}

-- What strtok() leaves of a text: it ends with its first token.
unfoldable pub cut_token : Str → Str → Str
unfolding is_in token
cut_token delims [] = []
cut_token delims (c ∷ s) =
    let rest = cut_token delims s in if is_in delims c then c ∷ rest else token delims (c ∷ s)

-- The word of a CTCP text, behind its first byte, and what stands before the next byte of 1. An
-- empty text is read past its end.
unfoldable pub ctcp_words : Str → Option (Option Str × Option Str)
unfolding next_word strtok
ctcp_words [] = none
ctcp_words (c ∷ s) = let (ctcp, rest) = next_word s in some (ctcp, (strtok rest (1 ∷ [])).0)

module _ (memory : Allocator) (now : ℕ) where
  -- send_to_parent() as the last call of a handler.
  unfoldable pub tell : Info → Str → Child → Option (Child × ℤ)
  unfolding send_to_parent
  tell info text c = send_to_parent memory now info.server text c >>= λ c'. some (c', irc_ok)

  ctcp_reply : Info → Child → Option (Child × ℤ)
  unfolding ctcp_words tell
  ctcp_reply info c = ctcp_words info.param >>= λ (ctcp, param).
      tell info (word_ctcpr ⌢ info.nick ⌢ info.user ⌢ info.host ⌢ or_null ctcp ⌢ or_null param) c

  starts_with_one : Str → Bool
  starts_with_one [] = false
  starts_with_one (c ∷ s) = c == 1

  unfoldable pub handle_notice : Info → Child → Option (Child × ℤ)
  unfolding tell ctcp_reply starts_with_one
  handle_notice info c =
      if is_empty info.user && is_empty info.host
      then tell info (word_snotice ⌢ info.nick ⌢ info.param) c
      else if starts_with_one info.param
      then ctcp_reply info c
      else tell info (word_notice ⌢ info.target ⌢ info.nick ⌢ info.user ⌢ info.host ⌢ info.param) c

  unfoldable pub handle_privmsg : Info → Child → Option (Child × ℤ)
  unfolding tell
  handle_privmsg info c =
      tell info (word_msg ⌢ info.target ⌢ info.nick ⌢ info.user ⌢ info.host ⌢ info.param) c

  -- The child asks who is in a channel that it has joined.
  unfoldable pub ask_who : Info → Child → Option Child
  unfolding irc_who
  ask_who info c =
      let asked =
        irc_who memory now info.target c.client >>= λ client. some (record c { client = client }) in
      if str_case_eq info.nick c.client.botnick then asked else some c

  unfoldable pub handle_join : Info → Child → Option (Child × ℤ)
  unfolding tell ask_who
  handle_join info c = ask_who info c >>= λ c'.
      tell info (word_join ⌢ info.target ⌢ info.nick ⌢ info.user ⌢ info.host ⌢ word_join) c'

  unfoldable pub handle_part : Info → Child → Option (Child × ℤ)
  unfolding tell
  handle_part info c = tell info (word_part ⌢ info.target ⌢ info.nick) c

  unfoldable pub handle_nick : Info → Child → Option (Child × ℤ)
  unfolding tell
  handle_nick info c = tell info (word_nick ⌢ info.param ⌢ info.nick) c

  unfoldable pub handle_quit : Info → Child → Option (Child × ℤ)
  unfolding tell
  handle_quit info c = tell info (word_quit ⌢ info.nick) c

  unfoldable pub handle_who_reply : Info → Child → Option (Child × ℤ)
  unfolding tell next_word
  handle_who_reply info c =
      let (chan, s₁) = next_word info.param in
      let (user, s₂) = next_word s₁ in
      let (host, s₃) = next_word s₂ in
      let (server, s₄) = next_word s₃ in
      let (nick, s₅) = next_word s₄ in
      tell info (word_join ⌢ or_null chan ⌢ or_null nick ⌢ or_null user ⌢ or_null host ⌢ word_who) c

  unfoldable pub handle_nick_inuse : Info → Child → Option (Child × ℤ)
  unfolding tell
  handle_nick_inuse info c = tell info (word_note ⌢ word_nickinuse) c

  unfoldable pub handle_cannot_join : Info → Child → Option (Child × ℤ)
  unfolding tell format_int
  handle_cannot_join info c =
      tell info (word_note ⌢ word_joinfailure ⌢ info.param ⌢ format_int (pos info.type)) c

  unfoldable pub handle_connect : Info → Child → Option (Child × ℤ)
  unfolding tell cut_token
  handle_connect info c = tell info (word_connect ⌢ cut_token (b' ' ∷ []) info.param) c

  unfoldable pub handle_numeric : Info → Child → Option (Child × ℤ)
  unfolding handle_connect handle_who_reply handle_nick_inuse handle_cannot_join
  handle_numeric info c =
      if info.type == 4
      then handle_connect info c
      else if info.type == 352
      then handle_who_reply info c
      else if info.type == 433
      then handle_nick_inuse info c
      else if info.type == 471 || info.type == 473 || info.type == 474 || info.type == 475
      then handle_cannot_join info c
      else some (c, pos 0)

  unfoldable pub handle_timer : Info → Child → Option (Child × ℤ)
  unfolding tell irc_disconnect
  handle_timer info c =
      if ltb 1 c.term_count
      then some (record c { client = irc_disconnect none c.client }, irc_ok)
      else tell info word_update c

  unfoldable pub handle_topic : Info → Child → Option (Child × ℤ)
  unfolding tell
  handle_topic info c =
      tell info (word_topic ⌢ info.nick ⌢ info.user ⌢ info.host ⌢ info.target ⌢ info.param) c

  unfoldable pub handle_dcc : Info → Child → Option (Child × ℤ)
  unfolding tell
  handle_dcc info c = tell info (word_dcc ⌢ info.param) c

  unfoldable pub handle_invite : Info → Child → Option (Child × ℤ)
  unfolding tell
  handle_invite info c = tell info (word_invite ⌢ info.param ⌢ info.nick ⌢ info.user ⌢ info.host) c
