-- ===== src/Connection/Wire/Joins.antt =====
-- src/connection.c: who joins or leaves, from the handler of the child to the tables of the parent.
use mx3bot.Base.{◌≡◌, refl, ◌≤◌, ℕ, false, some, ◌++◌, ◌>>=◌, length, arith}
use mx3bot.Base.Int.{int_eq, pos}
use mx3bot.CString.{Str, str_case_eq, str_eq}
use mx3bot.CString.Number.{format_int}
use mx3bot.Irc.Handler.{Info, irc_ok}
use mx3bot.Irc.Queue.{Allocator}
use mx3bot.Strtok.{IsFree, is_in}
use mx3bot.Connection.Child.{Child, line_to_parent}
use mx3bot.Connection.Child.Events.{ask_who, handle_join, tell}
use mx3bot.Connection.Line.{◌⌢◌}
use mx3bot.Connection.Line.Words.{IsText-⌢, IsWord, next_word-⌢, next_word_last}
use mx3bot.Connection.Parent.{Parent, System}
use mx3bot.Connection.Parent.Dispatch.{connection_server, handle, handlers}
use mx3bot.Connection.Parent.Presence.{join_parts, server_join}
use mx3bot.Connection.Wire.{
  answer_line, connection_server-line_to_parent, newline, send_to_parent-answer_line,
}
use mx3bot.Connection.Words.{word_join}

abbrev pub join_text : Info → Str
join_text info = info.target ⌢ info.nick ⌢ info.user ⌢ info.host ⌢ word_join

server_join_lem :
    (sys : System) (cid : ℕ) (t n u h w : Str) (s : Parent)
    → IsWord t
    → IsWord n
    → IsWord u
    → IsWord h
    → IsWord w
    → server_join sys cid (some (t ⌢ n ⌢ u ⌢ h ⌢ w)) s
      ≡ join_parts sys cid (some t) (some n) (some u) (some h) (some w) s
unfolding server_join
server_join_lem sys cid t n u h w s it iN iu ih iw =
    rw
      (
        next_word-⌢ t (n ⌢ u ⌢ h ⌢ w) it,
        next_word-⌢ n (u ⌢ h ⌢ w) iN,
        next_word-⌢ u (h ⌢ w) iu,
        next_word-⌢ h w ih,
        next_word_last w iw,
      )
      refl

module _ (memory : Allocator) (now : ℕ) (sys : System) (cid : ℕ) (info : Info) where
  -- For somebody other than the bot who joins, with a channel, nick, user and host that are words
  -- without line breaks, in a line of at most 510 bytes: where the next thing in the fifo of the
  -- child is the answer to a join, `handle_join` returns, has read that answer and written one
  -- line, and where this line is the next in the fifo of a parent that counts a connection,
  -- `connection_server` reads exactly the line and does to its state what `server_join` does with
  -- these four parts and the type JOIN.
  pub connection_server-handle_join :
      (c : Child) (s : Parent) (later more : Str)
      → info.server ≡ pos cid
      → IsWord info.target
      → IsWord info.nick
      → IsWord info.user
      → IsWord info.host
      → IsFree newline (join_text info)
      → length (format_int (pos cid) ⌢ word_join ⌢ join_text info) ≤ 510
      → str_case_eq info.nick c.client.botnick ≡ false
      → c.input ≡ some (answer_line word_join ++ later)
      → int_eq s.connections.count (pos 0) ≡ false
      → (handle_join memory now info c
          ≡ some (
            record c {
              input = some later;
              output = c.output ++ line_to_parent (pos cid) (word_join ⌢ join_text info);
            },
            irc_ok,
          ))
        × (connection_server sys
              (some (line_to_parent (pos cid) (word_join ⌢ join_text info) ++ more))
              s
            ≡ (join_parts sys cid
                  (some info.target)
                  (some info.nick)
                  (some info.user)
                  (some info.host)
                  (some word_join)
                  s
                >>= λ s'. some (s', more, pos 0)))
  unfolding handle_join ask_who tell is_in handle handlers str_eq
  connection_server-handle_join c s later more server it iN iu ih free fits other input count = (
    rw
        (
          other,
          server,
          send_to_parent-answer_line memory now (pos cid) (word_join ⌢ join_text info) word_join
              later c (refl, (refl, (refl, (refl, tt)))) (omega arith) input,
        )
        refl,
    rw
        (
          connection_server-line_to_parent sys cid word_join (join_text info)
              (refl, (refl, (refl, (refl, tt)))) (IsText-⌢ info.target _) s more
              (refl, (refl, (refl, (refl, (refl, free))))) fits count,
          server_join_lem sys cid info.target info.nick info.user info.host word_join s it iN iu ih
              (refl, (refl, (refl, (refl, tt)))),
        )
        refl,
  )
