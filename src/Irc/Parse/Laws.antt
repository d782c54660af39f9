-- ===== src/Irc/Parse/Laws.antt =====
-- What the parser makes of a line that another user's client has sent.
use mx3bot.Base.{
  ℕ, ◌≡◌, ◌≢◌, refl, ap, ◌∙◌, false, Option, none, some, [], ◌∷◌, ◌++◌, ◌==◌, leb, arith, length,
  Bool-cases, inl, inr, ◌>>=◌,
}
use mx3bot.CString.{Str, str_eq}
use mx3bot.Strtok.{
  IsFree, cut_last-IsFree, cut_last_append, is_in, strtok, strtok-IsFree, are_free, are_free-IsFree,
  skip_delims, strtok_all, strtok_last,
}
use mx3bot.Irc.Events.{cmd_ctcp, cmd_privmsg, word_privmsg}
use mx3bot.Irc.Parse.{
  IrcLine, Source, Words, filled, parse_stripped, ctcp, next_byte, parseline, privmsg,
  starts_with_digit, with_source, with_first, with_command, server_command, space, words,
}
use mx3bot.Irc.Parse.Lines.{
  IsIdent, IsLine, ident_of, line_of, source_of-IsIdent, strtok_rest, strtok_until, user_source,
}

module _ (nick user host : Str) (h : IsIdent nick user host) where
  with_source-line_of :
      (command rest : Str)
      → command ≢ []
      → IsFree space command
      → with_source (line_of (ident_of nick user host) command rest) ≡ (
          server_command command rest >>= λ w. some (filled (user_source nick user host) command w))
  unfolding is_in with_source with_first with_command
  with_source-line_of command rest some_command free =
      let ident = ident_of nick user host in
      ap with_first
        (strtok-IsFree space b':' ident b' ' (command ++ b' ' ∷ rest) (refl, h.free) refl)
      ∙ ap (with_command (some (b':' ∷ ident)))
          (strtok_until space command b' ' rest some_command free refl)
      ∙ ap
          (λ (o : Option Source).
            server_command command rest >>= λ w. o >>= λ source. some (filled source command w))
          (source_of-IsIdent nick user host h)

  parseline-server_command :
      (command rest : Str)
      → command ≢ []
      → IsFree space command
      → IsLine (line_of (ident_of nick user host) command rest)
      → parseline (line_of (ident_of nick user host) command rest) ≡ (
          server_command command rest >>= λ w. some (filled (user_source nick user host) command w))
  unfolding parseline parse_stripped
  parseline-server_command command rest some_command free l =
      let line = line_of (ident_of nick user host) command rest in
      let fits : leb 512 (length line) ≡ false = ground (arith, l.fits) in
      rw (fits, cut_last-IsFree b'\r' line l.no_return, cut_last-IsFree b'\n' line l.no_newline)
        (with_source-line_of command rest some_command free)

-- `target :text`
abbrev pub to_target : Str → Str → Str
to_target target text = target ++ b' ' ∷ (b':' ∷ text)

server_command-to_target :
    (target text : Str)
    → target ≢ []
    → IsFree space target
    → server_command word_privmsg (to_target target text) ≡ privmsg (some target) (some text)
unfolding server_command starts_with_digit str_eq is_in
server_command-to_target target text h free =
    ap (λ (r : Option Str × Str). privmsg r.0 (next_byte (strtok r.1 []).0))
      (strtok_until space target b' ' (b':' ∷ text) h free refl)
    ∙ ap (λ (r : Option Str × Str). privmsg (some target) (next_byte r.0)) (strtok_all b':' text)

-- The fields that a message has in common with the line that carries it.
abbrev pub received : ℕ → Str → Str → Str → Str → Option Str → Option Str → ℕ × IrcLine
received type nick user host target param param2 =
    filled (user_source nick user host) word_privmsg (words type (some target) param param2)

privmsg_plain :
    (target text : Str)
    → ((rest : Str) → text ≢ 1 ∷ rest)
    → privmsg (some target) (some text) ≡ some (words cmd_privmsg (some target) (some text) none)
unfolding privmsg
privmsg_plain target [] plain = refl
privmsg_plain target (c ∷ text) plain = elim (Bool-cases (c == 1)) [
  | inl same ↦ absurd (plain text (ap (λ (d : ℕ). d ∷ text) (ground (arith, same))))
  | inr other ↦ rw other refl
]

-- A CTCP text `word argument` between two bytes of 1.
abbrev pub ctcp_text : Str → Str → Str
ctcp_text word argument = 1 ∷ ((word ++ b' ' ∷ argument) ++ 1 ∷ [])

privmsg_ctcp :
    (target word argument : Str)
    → word ≢ []
    → IsFree space word
    → argument ≢ []
    → privmsg (some target) (some (ctcp_text word argument))
      ≡ some (words cmd_ctcp (some target) (some word) (some argument))
unfolding privmsg ctcp is_in
privmsg_ctcp target word argument h free h' =
    ap (λ (s : Str). some (ctcp_words target (strtok s space)))
      (cut_last_append 1 (word ++ b' ' ∷ argument))
    ∙ ap (λ (r : Option Str × Str). some (ctcp_words target r))
        (strtok_until space word b' ' argument h free refl)
    ∙ ap (λ (r : Option Str × Str). some (words cmd_ctcp (some target) (some word) r.0))
        (strtok_rest argument h')
  where
    ctcp_words : Str → Option Str × Str → Words
    ctcp_words t r = words cmd_ctcp (some t) r.0 (strtok r.1 []).0

word_privmsg-IsFree : IsFree space word_privmsg
unfolding are_free
word_privmsg-IsFree = are_free-IsFree space word_privmsg refl

module _ (nick user host target : Str) (h : IsIdent nick user host) (named : target ≢ [])
    (free : IsFree space target) where
  parseline-privmsg :
      (text : Str)
      → IsLine (line_of (ident_of nick user host) word_privmsg (to_target target text))
      → parseline (line_of (ident_of nick user host) word_privmsg (to_target target text)) ≡ (
          privmsg (some target) (some text) >>= λ w.
          some (filled (user_source nick user host) word_privmsg w))
  parseline-privmsg text l =
      parseline-server_command nick user host h word_privmsg (to_target target text) (λ e. cc e)
        word_privmsg-IsFree l
      ∙ ap
          (λ (o : Option Words).
            o >>= λ w. some (filled (user_source nick user host) word_privmsg w))
          (server_command-to_target target text named free)

  -- A line `:nick!user@host PRIVMSG target :text` of less than 512 bytes, with an ident of less than
  -- 256, is parsed into these five parts, if no part but the text is empty, no part has the byte
  -- that ends it, the line has no CR or LF, and the text is not a CTCP one, which begins with a
  -- byte of 1.
  pub parseline-line_of :
      (text : Str)
      → IsLine (line_of (ident_of nick user host) word_privmsg (to_target target text))
      → ((rest : Str) → text ≢ 1 ∷ rest)
      → parseline (line_of (ident_of nick user host) word_privmsg (to_target target text))
        ≡ some (received cmd_privmsg nick user host target (some text) none)
  parseline-line_of text l plain =
      parseline-privmsg text l
      ∙ ap
          (λ (o : Option Words).
            o >>= λ w. some (filled (user_source nick user host) word_privmsg w))
          (privmsg_plain target text plain)

  -- Of a line `:nick!user@host PRIVMSG target :text` of less than 512 bytes, with an ident of less
  -- than 256, a nick, a user, a host and a target that are words, no `!` in the nick and no `@` in
  -- the user, and a text that is a CTCP one, a word and an argument between two bytes of 1,
  -- `_irc_parseline` returns: the line is parsed into the word and the argument.
  pub parseline-ctcp_text :
      (word argument : Str)
      → word ≢ []
      → IsFree space word
      → argument ≢ []
      → IsLine (
          line_of
            (ident_of nick user host)
            word_privmsg
            (to_target target (ctcp_text word argument)))
      → parseline (
          line_of
            (ident_of nick user host)
            word_privmsg
            (to_target target (ctcp_text word argument)))
        ≡ some (received cmd_ctcp nick user host target (some word) (some argument))
  parseline-ctcp_text word argument some_word one some_argument l =
      parseline-privmsg (ctcp_text word argument) l
      ∙ ap
          (λ (o : Option Words).
            o >>= λ w. some (filled (user_source nick user host) word_privmsg w))
          (privmsg_ctcp target word argument some_word one some_argument)

server_command_no_text :
    (target : Str) → target ≢ [] → IsFree space target → server_command word_privmsg target ≡ none
unfolding server_command starts_with_digit str_eq is_in privmsg strtok skip_delims
server_command_no_text [] h free = absurd (h refl)
server_command_no_text (c ∷ target) h free =
    ap (λ (r : Option Str × Str). privmsg r.0 (next_byte (strtok r.1 []).0))
      (strtok_last space c target free)

-- A PRIVMSG line that ends with its target makes the parser read through a null pointer.
pub parseline_no_text :
    (nick user host target : Str)
    → IsIdent nick user host
    → target ≢ []
    → IsFree space target
    → IsLine (line_of (ident_of nick user host) word_privmsg target)
    → parseline (line_of (ident_of nick user host) word_privmsg target) ≡ none
parseline_no_text nick user host target h named free l =
    parseline-server_command nick user host h word_privmsg target (λ e. cc e) word_privmsg-IsFree l
    ∙ ap
        (λ (o : Option Words). o >>= λ w. some (filled (user_source nick user host) word_privmsg w))
        (server_command_no_text target named free)
