-- ===== src/Connection/Wire/Says.antt =====
-- src/connection.c: a message, from the handler of the child to the parent.
use mx3bot.Base.{◌≡◌, refl, ◌≤◌, ℕ, false, some, [], ◌∷◌, ◌++◌, ◌>>=◌, length, arith}
use mx3bot.Base.Int.{int_eq, pos}
use mx3bot.CString.{Str, str_eq}
use mx3bot.CString.Number.{format_int}
use mx3bot.Irc.Handler.{Info, irc_ok}
use mx3bot.Irc.Queue.{Allocator}
use mx3bot.Strtok.{IsFree, is_in, skip_delims, strtok}
use mx3bot.Connection.Child.{Child, line_to_parent}
use mx3bot.Connection.Child.Events.{handle_privmsg, tell}
use mx3bot.Connection.Line.{next_word, ◌⌢◌}
use mx3bot.Connection.Line.Words.{IsText, IsText-⌢, IsWord, all_left_text, next_word-⌢}
use mx3bot.Connection.Parent.{Parent, System}
use mx3bot.Connection.Parent.Dispatch.{connection_server, handle, handlers}
use mx3bot.Connection.Parent.Messages.{msg_parts, server_msg}
use mx3bot.Connection.Wire.{
  answer_line, connection_server-line_to_parent, newline, send_to_parent-answer_line,
}
use mx3bot.Connection.Words.{word_msg}

abbrev pub msg_text : Info → Str
msg_text info = info.target ⌢ info.nick ⌢ info.user ⌢ info.host ⌢ info.param

server_msg_lem :
    (sys : System) (cid : ℕ) (t n u h p : Str) (s : Parent)
    → IsWord t
    → IsWord n
    → IsWord u
    → IsWord h
    → IsText p
    → server_msg sys cid (some (t ⌢ n ⌢ u ⌢ h ⌢ p)) s
      ≡ msg_parts sys cid (some t) (some n) (some u) (some h) (some p) s
unfolding server_msg
server_msg_lem sys cid t n u h p s it iN iu ih ip =
    rw
      (
        next_word-⌢ t (n ⌢ u ⌢ h ⌢ p) it,
        next_word-⌢ n (u ⌢ h ⌢ p) iN,
        next_word-⌢ u (h ⌢ p) iu,
        next_word-⌢ h p ih,
        all_left_text p ip,
      )
      refl

-- Blanks in front of a word are passed over.
next_word_blank : (s : Str) → next_word (b' ' ∷ s) ≡ next_word s
unfolding next_word strtok skip_delims is_in
next_word_blank s = refl

server_msg_shifted :
    (sys : System) (cid : ℕ) (t n a b p : Str) (s : Parent)
    → IsWord t
    → IsWord n
    → IsWord a
    → IsWord b
    → IsText p
    → server_msg sys cid (some (t ⌢ n ⌢ [] ⌢ [] ⌢ a ⌢ b ⌢ p)) s
      ≡ msg_parts sys cid (some t) (some n) (some a) (some b) (some p) s
unfolding server_msg
server_msg_shifted sys cid t n a b p s it iN ia ib ip =
    rw
      (
        next_word-⌢ t (n ⌢ [] ⌢ [] ⌢ a ⌢ b ⌢ p) it,
        next_word-⌢ n ([] ⌢ [] ⌢ a ⌢ b ⌢ p) iN,
        next_word_blank (b' ' ∷ (a ⌢ b ⌢ p)),
        next_word_blank (a ⌢ b ⌢ p),
        next_word-⌢ a (b ⌢ p) ia,
        next_word-⌢ b p ib,
        all_left_text p ip,
      )
      refl

module _ (memory : Allocator) (now : ℕ) (sys : System) (cid : ℕ) (info : Info) where
  -- The handler writes one line, and the parent makes of it what `server_msg` makes of its text.
  handle_privmsg_lem :
      (c : Child) (s : Parent) (later more : Str)
      → info.server ≡ pos cid
      → IsText (msg_text info)
      → IsFree newline (msg_text info)
      → length (format_int (pos cid) ⌢ word_msg ⌢ msg_text info) ≤ 510
      → c.input ≡ some (answer_line word_msg ++ later)
      → int_eq s.connections.count (pos 0) ≡ false
      → (handle_privmsg memory now info c
          ≡ some (
            record c {
              input = some later;
              output = c.output ++ line_to_parent (pos cid) (word_msg ⌢ msg_text info);
            },
            irc_ok,
          ))
        × (connection_server sys
              (some (line_to_parent (pos cid) (word_msg ⌢ msg_text info) ++ more))
              s
            ≡ (server_msg sys cid (some (msg_text info)) s >>= λ s'. some (s', more, pos 0)))
  unfolding handle_privmsg tell is_in handle handlers str_eq
  handle_privmsg_lem c s later more server text free fits input count = (
    rw
        (
          server,
          send_to_parent-answer_line memory now (pos cid) (word_msg ⌢ msg_text info) word_msg later
              c (refl, (refl, (refl, tt))) (omega arith) input,
        )
        refl,
    rw
        (connection_server-line_to_parent sys cid word_msg (msg_text info)
          (refl, (refl, (refl, tt))) text s more (refl, (refl, (refl, (refl, free)))) fits count)
        refl,
  )

  -- For a message whose target, nick, user and host are words, with a text that is not empty,
  -- without line breaks and short enough that the whole line takes at most 510 bytes: where the
  -- next thing in the fifo of the child is the answer to a message, `handle_privmsg` returns, has
  -- read that answer and written one line, and where this line is the next in the fifo of a parent
  -- that counts a connection, `connection_server` reads exactly the line and does to its state what
  -- `server_msg` does with these five parts.
  pub connection_server-handle_privmsg :
      (c : Child) (s : Parent) (later more : Str)
      → info.server ≡ pos cid
      → IsWord info.target
      → IsWord info.nick
      → IsWord info.user
      → IsWord info.host
      → IsText info.param
      → IsFree newline (msg_text info)
      → length (format_int (pos cid) ⌢ word_msg ⌢ msg_text info) ≤ 510
      → c.input ≡ some (answer_line word_msg ++ later)
      → int_eq s.connections.count (pos 0) ≡ false
      → (handle_privmsg memory now info c
          ≡ some (
            record c {
              input = some later;
              output = c.output ++ line_to_parent (pos cid) (word_msg ⌢ msg_text info);
            },
            irc_ok,
          ))
        × (connection_server sys
              (some (line_to_parent (pos cid) (word_msg ⌢ msg_text info) ++ more))
              s
            ≡ (msg_parts sys cid
                  (some info.target)
                  (some info.nick)
                  (some info.user)
                  (some info.host)
                  (some info.param)
                  s
                >>= λ s'. some (s', more, pos 0)))
  connection_server-handle_privmsg c s later more server it iN iu ih ip free fits input count =
      rw
        (← server_msg_lem sys cid info.target info.nick info.user info.host info.param s it iN iu ih
          ip)
        (handle_privmsg_lem c s later more server (IsText-⌢ info.target _) free fits input count)

-- A message without a user and a host, as a server sends it.
abbrev pub from_server : Info → Str → Str → Str → Info
from_server info a b p = record info { user = []; host = []; param = a ⌢ b ⌢ p }

module _ (memory : Allocator) (now : ℕ) (sys : System) (cid : ℕ) (info : Info) (a b p : Str) where
  -- Of a message without a user and a host, as a server sends it, to a target and from a nick that
  -- are words and with a text that begins with two words and goes on, in a line of at most 510
  -- bytes without other line breaks, `handle_privmsg` writes a line from which the parent takes the
  -- first two words of the text for the user and the host, and the rest for the text.
  pub connection_server-from_server :
      (c : Child) (s : Parent) (later more : Str)
      → info.server ≡ pos cid
      → IsWord info.target
      → IsWord info.nick
      → IsWord a
      → IsWord b
      → IsText p
      → IsFree newline (msg_text (from_server info a b p))
      → length (format_int (pos cid) ⌢ word_msg ⌢ msg_text (from_server info a b p)) ≤ 510
      → c.input ≡ some (answer_line word_msg ++ later)
      → int_eq s.connections.count (pos 0) ≡ false
      → (handle_privmsg memory now (from_server info a b p) c
          ≡ some (
            record c {
              input = some later;
              output =
                  c.output
                  ++ line_to_parent (pos cid) (word_msg ⌢ msg_text (from_server info a b p));
            },
            irc_ok,
          ))
        × (connection_server sys
              (some
                (line_to_parent (pos cid) (word_msg ⌢ msg_text (from_server info a b p)) ++ more))
              s
            ≡ (msg_parts sys cid (some info.target) (some info.nick) (some a) (some b) (some p) s
                >>= λ s'. some (s', more, pos 0)))
  connection_server-from_server c s later more server it iN ia ib ip free fits input count =
      rw (← server_msg_shifted sys cid info.target info.nick a b p s it iN ia ib ip) (
        handle_privmsg_lem memory now sys cid (from_server info a b p) c s later more server
          (IsText-⌢ info.target _) free fits input count)
