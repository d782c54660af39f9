-- ===== src/Connection/Parent/Dispatch.antt =====
-- src/connection.c: the parent reads a line from its fifo and calls the function for it.
use mx3bot.Base.{ℕ, Bool, true, false, Option, none, some, List, [], ◌∷◌, if◌then◌else◌, ◌>>=◌}
use mx3bot.Base.Int.{ℤ, int_eq, negsuc, pos}
use mx3bot.CString.{Str, str_eq}
use mx3bot.CString.Number.{atoi}
use mx3bot.Connection.Fifo.{read_input}
use mx3bot.Connection.Queue.{server_hello, server_send, server_update}
use mx3bot.Connection.Line.{all_left, next_word, chosen}
use mx3bot.Connection.Parent.{Parent, System}
use mx3bot.Connection.Parent.Messages.{
  server_ctcp, server_ctcpr, server_msg, server_notice, server_snotice,
}
use mx3bot.Connection.Parent.Notes.{server_dcc, server_invite, server_note}
use mx3bot.Connection.Parent.Presence.{
  server_connect, server_join, server_nick, server_part, server_quit, server_topic,
}
use mx3bot.Connection.Words.{
  word_connect, word_ctcp, word_ctcpr, word_dcc, word_hello, word_invite, word_join, word_msg,
  word_nick, word_note, word_notice, word_part, word_quit, word_send, word_snotice, word_topic,
  word_update,
}

module _ (sys : System) where
  open sys use {now, purge_delay, open_fifo}

  hello : ℕ → Option Str → Parent → Option Parent
  unfolding server_hello
  hello cid p s =
      server_hello open_fifo cid p s.connections >>= λ c. some (record s { connections = c })

  send : ℕ → Option Str → Parent → Option Parent
  unfolding server_send
  send cid p s = server_send cid p s.connections >>= λ c. some (record s { connections = c })

  update : ℕ → Option Str → Parent → Option Parent
  unfolding server_update
  update cid p s = server_update now purge_delay cid (s.connections, s.users) >>= λ (c, users).
      some (record s { connections = c; users = users })

  -- The functions by their words, in the order in which these are compared.
  unfoldable pub handlers : List (Str × (ℕ → Option Str → Parent → Option Parent))
  unfolding server_msg server_ctcp server_notice server_snotice server_ctcpr server_join server_part
      server_nick server_quit server_connect server_topic server_note server_dcc server_invite hello
      update send
  handlers =
      (word_hello, hello)
      ∷ (word_msg, server_msg sys)
      ∷ (word_ctcp, server_ctcp sys)
      ∷ (word_notice, server_notice sys)
      ∷ (word_snotice, server_snotice sys)
      ∷ (word_ctcpr, server_ctcpr sys)
      ∷ (word_join, server_join sys)
      ∷ (word_part, server_part sys)
      ∷ (word_nick, server_nick sys)
      ∷ (word_quit, server_quit sys)
      ∷ (word_connect, server_connect sys)
      ∷ (word_update, update)
      ∷ (word_send, send)
      ∷ (word_topic, server_topic sys)
      ∷ (word_note, server_note)
      ∷ (word_dcc, server_dcc sys)
      ∷ (word_invite, server_invite sys)
      ∷ []

module _ (sys : System) where
  -- An unknown command is passed over.
  unfoldable pub handle :
      ℤ → Option Str → Parent → Option (ℕ → Option Str → Parent → Option Parent) → Option Parent
  handle cid param s none = some s
  handle (negsuc n) param s (some f) = none
  handle (pos cid) param s (some f) = f cid param s

  -- The result is `false` for -1.
  unfoldable pub parse_server_input : Str → Parent → Option (Parent × Bool)
  unfolding next_word all_left handlers handle atoi str_eq
  parse_server_input msg s =
      let (id, s₁) = next_word msg in
      let (cmd, s₂) = next_word s₁ in
      elim id [
        | none ↦ some (s, false)
        | some i ↦ elim cmd [
          | none ↦ some (s, false)
          | some c ↦
              handle (atoi i) (all_left s₂) s (chosen c (handlers sys)) >>= λ s'. some (s', true)
        ]
      ]

  unfoldable pub read_ready : Str → Parent → Option (Parent × Str × ℤ)
  unfolding read_input parse_server_input
  read_ready fifo s = read_input fifo >>= λ (line, left).
      parse_server_input line s >>= λ (s', r). some (s', left, pos 0)

  -- What is in the parent's fifo, or `none` where select() finds nothing in time, and what is left in it.
  unfoldable pub connection_server : Option Str → Parent → Option (Parent × Str × ℤ)
  unfolding read_ready
  connection_server none s =
      some (s, [], if int_eq s.connections.count (pos 0) then negsuc 0 else pos 0)
  connection_server (some fifo) s =
      if int_eq s.connections.count (pos 0) then some (s, fifo, negsuc 0) else read_ready fifo s
