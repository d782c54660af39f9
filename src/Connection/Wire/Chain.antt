-- ===== src/Connection/Wire/Chain.antt =====
-- src/irc/irc_parse.c and src/connection.c: a message, from the line of the IRC server to the parent.
use mx3bot.Base.{
  ◌≡◌, ◌≢◌, refl, ap, ◌∙◌, ◌≤◌, ◌<◌, ℕ, true, false, Option, some, none, List, [], ◌∷◌, ◌++◌, ◌>>=◌,
  length, arith, take_all,
}
use mx3bot.Base.Int.{ℤ, int_eq, pos}
use mx3bot.CString.{Str, strncpy}
use mx3bot.CString.Number.{format_int}
use mx3bot.Irc.Events.{cmd_privmsg, word_privmsg}
use mx3bot.Irc.Handler.{Info, irc_ok}
use mx3bot.Irc.Loop.Pass.{info_of}
use mx3bot.Irc.Network.{Recv, net_readline}
use mx3bot.Irc.Network.Laws.{IsFree-breaks, bytes, line_end, net_readline_whole}
use mx3bot.Irc.Parse.{filled, parseline, space}
use mx3bot.Irc.Parse.Laws.{parseline-line_of, received, to_target}
use mx3bot.Irc.Parse.Lines.{IsIdent, IsLine, ident_of, line_of}
use mx3bot.Irc.Queue.{Allocator}
use mx3bot.Strtok.{IsFree, IsFree-append, IsFree-both, IsFree-front, is_in}
use mx3bot.Connection.Child.{Child, line_to_parent}
use mx3bot.Connection.Child.Events.{handle_privmsg}
use mx3bot.Connection.Line.{◌⌢◌}
use mx3bot.Connection.Line.Words.{IsText, IsWord}
use mx3bot.Connection.Parent.{Parent, System}
use mx3bot.Connection.Parent.Dispatch.{connection_server}
use mx3bot.Connection.Parent.Messages.{msg_parts}
use mx3bot.Connection.Wire.{answer_line, newline}
use mx3bot.Connection.Wire.Says.{connection_server-handle_privmsg, msg_text}
use mx3bot.Connection.Words.{word_msg}

-- A message whose parts fit the fields of the records that they pass through.
pub record IsMessage (nick user host target text : Str) : Type 0 where
  pub ident : IsIdent nick user host
  pub target_some : target ≢ []
  pub target_free : IsFree space target
  pub text_some : text ≢ []
  pub line : IsLine (line_of (ident_of nick user host) word_privmsg (to_target target text))
  pub plain : (rest : Str) → text ≢ 1 ∷ rest
  pub nick_fits : length nick < 32
  pub user_fits : length user < 32
  pub host_fits : length host < 128
  pub target_fits : length target < 32
  pub text_fits : length text < 512

abbrev pub message_of : ℕ → Str → Str → Str → Str → Str → Info
message_of cid nick user host target text = record {
  type = cmd_privmsg;
  server = pos cid;
  nick = nick;
  user = user;
  host = host;
  target = target;
  param = text;
  param2 = [];
}

IsFree-IsWord : (s : Str) → s ≢ [] → IsFree space s → IsWord s
IsFree-IsWord [] h free = absurd (h refl)
IsFree-IsWord (c ∷ s) h free = free

some-IsText : (s : Str) → s ≢ [] → IsText s
some-IsText [] h = absurd (h refl)
some-IsText (c ∷ s) h = refl

strncpy_twice : (n : ℕ) (s : Str) → length s ≤ n → strncpy n (strncpy n s) ≡ s
unfolding strncpy
strncpy_twice n s h = rw (take_all n s h, take_all n s h) refl

module _ (nick user host target text : Str) (m : IsMessage nick user host target text) where
  info_of-received :
      (cid : ℕ)
      → info_of
          (pos cid)
          cmd_privmsg
          (received cmd_privmsg nick user host target (some text) none).1
        ≡ message_of cid nick user host target text
  unfolding info_of filled strncpy
  info_of-received cid =
      rw
        (
          strncpy_twice 32 nick (omega (arith, m.nick_fits)),
          strncpy_twice 32 user (omega (arith, m.user_fits)),
          strncpy_twice 128 host (omega (arith, m.host_fits)),
          strncpy_twice 32 target (omega (arith, m.target_fits)),
          strncpy_twice 512 text (omega (arith, m.text_fits)),
        )
        refl

  -- The parts have no line break, since the line has none.
  msg_text-IsFree :
      (cid : ℕ) → IsFree newline (msg_text (message_of cid nick user host target text))
  unfolding is_in
  msg_text-IsFree cid =
      let ident = ident_of nick user host in
      let whole = m.line.no_newline in
      let after = b' ' ∷ (word_privmsg ++ b' ' ∷ to_target target text) in
      let front = IsFree-front newline ident after whole.1 in
      let behind = (IsFree-append newline ident after whole.1).1 in
      let said = (IsFree-append newline word_privmsg (b' ' ∷ to_target target text) behind).1 in
      let told = (IsFree-append newline target (b' ' ∷ (b':' ∷ text)) said).1 in
      let named = (IsFree-append newline nick (b'!' ∷ (user ++ b'@' ∷ host)) front).1 in
      let last = (IsFree-append newline user (b'@' ∷ host) named).1 in
      IsFree-both newline target _ (IsFree-front newline target _ said) (
        refl,
        IsFree-both newline nick _ (IsFree-front newline nick _ front) (
          refl,
          IsFree-both newline user _ (IsFree-front newline user _ named)
              (refl, IsFree-both newline host _ last (refl, told.1)),
        ),
      )

  -- For a line `:nick!user@host PRIVMSG target :text` of the IRC server whose parts fit the fields
  -- of the records they pass through, as `parseline-line_of` asks for, and of whose text the line
  -- to the parent takes at most 510 bytes: where the next thing in the fifo of the child is the
  -- answer to a message, `_irc_parseline` and `handle_privmsg` return, and the child has read that
  -- answer and written one line; where this line is the next in the fifo of a parent that counts a
  -- connection, `connection_server` reads exactly the line and does to its state what `server_msg`
  -- does with these five parts.
  pub connection_server-parseline :
      (memory : Allocator) (now : ℕ) (sys : System) (cid : ℕ) (c : Child) (s : Parent)
      (later more : Str)
      → length (format_int (pos cid) ⌢ word_msg ⌢ target ⌢ nick ⌢ user ⌢ host ⌢ text) ≤ 510
      → c.input ≡ some (answer_line word_msg ++ later)
      → int_eq s.connections.count (pos 0) ≡ false
      → ((parseline (line_of (ident_of nick user host) word_privmsg (to_target target text))
            >>= λ (token, l). handle_privmsg memory now (info_of (pos cid) token l) c)
          ≡ some (
            record c {
              input = some later;
              output =
                  c.output
                  ++ line_to_parent (pos cid) (word_msg ⌢ target ⌢ nick ⌢ user ⌢ host ⌢ text);
            },
            irc_ok,
          ))
        × (connection_server sys
              (some
                (line_to_parent (pos cid) (word_msg ⌢ target ⌢ nick ⌢ user ⌢ host ⌢ text) ++ more))
              s
            ≡ (msg_parts sys cid (some target) (some nick) (some user) (some host) (some text) s
                >>= λ s'. some (s', more, pos 0)))
  unfolding handle_privmsg info_of
  connection_server-parseline memory now sys cid c s later more fits input count =
      let i = m.ident in
      let free = i.free in
      let behind = (IsFree-append space nick (b'!' ∷ (user ++ b'@' ∷ host)) free).1 in
      let sent =
        connection_server-handle_privmsg memory now sys cid
          (message_of cid nick user host target text) c s later more refl
          (IsFree-IsWord target m.target_some m.target_free)
          (IsFree-IsWord nick i.nick_some (IsFree-front space nick _ free))
          (IsFree-IsWord user i.user_some (IsFree-front space user _ behind))
          (IsFree-IsWord host i.host_some (IsFree-append space user (b'@' ∷ host) behind).1)
          (some-IsText text m.text_some) (msg_text-IsFree cid) fits input count in
      (
        ap (λ o. o >>= λ (token, l). handle_privmsg memory now (info_of (pos cid) token l) c)
              (parseline-line_of nick user host target i m.target_some m.target_free text m.line
                m.plain)
            ∙ ap (λ (info : Info). handle_privmsg memory now info c) (info_of-received cid)
            ∙ sent.0,
        sent.1,
      )

  -- For a line `:nick!user@host PRIVMSG target :text` of the IRC server of less than 512 bytes,
  -- with an ident of less than 256, a nick, a user and a target of less than 32 each and a host of
  -- less than 128, all of them words, no `!` in the nick, no `@` in the user, and a text that is no
  -- CTCP one, where the line to the parent has at most 510 bytes: where the line arrives at once
  -- and the next thing in the fifo of the child is the answer to a message, `_irc_net_readline`,
  -- `_irc_parseline` and `handle_privmsg` return, and the child has read that answer and written
  -- one line; where this line is the next in the fifo of a parent that counts a connection,
  -- `connection_server` reads exactly the line and does to its state what `server_msg` does with
  -- these five parts.
  pub connection_server-net_readline :
      (memory : Allocator) (now : ℕ) (sys : System) (cid : ℕ) (c : Child) (s : Parent)
      (arriving : List Recv) (later more : Str)
      → length (format_int (pos cid) ⌢ word_msg ⌢ target ⌢ nick ⌢ user ⌢ host ⌢ text) ≤ 510
      → c.input ≡ some (answer_line word_msg ++ later)
      → int_eq s.connections.count (pos 0) ≡ false
      → ((net_readline true 512 (
              bytes (line_of (ident_of nick user host) word_privmsg (to_target target text))
              ++ line_end
              ++ arriving)
            >>= λ (buffer, len, left). parseline buffer >>= λ (token, l).
                handle_privmsg memory now (info_of (pos cid) token l) c)
          ≡ some (
            record c {
              input = some later;
              output =
                  c.output
                  ++ line_to_parent (pos cid) (word_msg ⌢ target ⌢ nick ⌢ user ⌢ host ⌢ text);
            },
            irc_ok,
          ))
        × (connection_server sys
              (some
                (line_to_parent (pos cid) (word_msg ⌢ target ⌢ nick ⌢ user ⌢ host ⌢ text) ++ more))
              s
            ≡ (msg_parts sys cid (some target) (some nick) (some user) (some host) (some text) s
                >>= λ s'. some (s', more, pos 0)))
  connection_server-net_readline memory now sys cid c s arriving later more fits input count =
      let line = line_of (ident_of nick user host) word_privmsg (to_target target text) in
      let free = IsFree-breaks line m.line.no_return m.line.no_newline in
      let short : length line < 512 = m.line.fits in
      let sent = connection_server-parseline memory now sys cid c s later more fits input count in
      (
        ap
              (λ (o : Option (Str × ℤ × List Recv)). o >>= λ (buffer, len, left).
                parseline buffer >>= λ (token, l).
                handle_privmsg memory now (info_of (pos cid) token l) c)
              (net_readline_whole 512 line arriving free (omega (arith, short))
                (omega (arith, short)))
            ∙ sent.0,
        sent.1,
      )
