-- ===== src/Irc/Parse/Tests.antt =====
-- Lines from a server, parsed.
use mx3bot.Base.{◌≡◌, refl, some, [], ◌∷◌, arith}
use mx3bot.CString.{Str}
use mx3bot.Strtok.{are_free, are_free-IsFree}
use mx3bot.Irc.Events.{cmd_ctcp, word_privmsg}
use mx3bot.Irc.Parse.{parseline, space}
use mx3bot.Irc.Parse.Lines.{IsIdent, IsLine, ident_of, line_of}
use mx3bot.Irc.Parse.Laws.{ctcp_text, parseline-ctcp_text, received, to_target}

abbrev nick : Str
nick = b'a' ∷ b'n' ∷ b'n' ∷ []

abbrev user : Str
user = b'~' ∷ b'a' ∷ []

abbrev host : Str
host = b'b' ∷ b'.' ∷ b'n' ∷ b'e' ∷ b't' ∷ []

abbrev target : Str
target = b'#' ∷ b'm' ∷ b'x' ∷ []

abbrev hello : Str
hello = b'h' ∷ b'i' ∷ b' ' ∷ b'@' ∷ b' ' ∷ b':' ∷ b'a' ∷ b'l' ∷ b'l' ∷ b'!' ∷ []

nick-IsIdent : IsIdent nick user host
unfolding are_free
nick-IsIdent = record {
  nick_some = λ e. cc e;
  user_some = λ e. cc e;
  host_some = λ e. cc e;
  nick_free = are_free-IsFree (b'!' ∷ []) nick refl;
  user_free = are_free-IsFree (b'@' ∷ []) user refl;
  free = are_free-IsFree space (ident_of nick user host) refl;
  fits = omega arith;
}

abbrev line : Str → Str
line rest = line_of (ident_of nick user host) word_privmsg rest

hello-IsLine : IsLine (line (to_target target hello))
unfolding are_free
hello-IsLine = record {
  no_return = are_free-IsFree (b'\r' ∷ []) (line (to_target target hello)) refl;
  no_newline = are_free-IsFree (b'\n' ∷ []) (line (to_target target hello)) refl;
  fits = omega arith;
}

-- \001PING 12\001
abbrev ping : Str
ping = ctcp_text (b'P' ∷ b'I' ∷ b'N' ∷ b'G' ∷ []) (b'1' ∷ b'2' ∷ [])

ping-IsLine : IsLine (line (to_target target ping))
unfolding are_free
ping-IsLine = record {
  no_return = are_free-IsFree (b'\r' ∷ []) (line (to_target target ping)) refl;
  no_newline = are_free-IsFree (b'\n' ∷ []) (line (to_target target ping)) refl;
  fits = omega arith;
}

parseline-ctcp_text_example :
    parseline (line (to_target target ping))
    ≡ some (
        received cmd_ctcp nick user host target
          (some (b'P' ∷ b'I' ∷ b'N' ∷ b'G' ∷ []))
          (some (b'1' ∷ b'2' ∷ [])))
unfolding are_free
parseline-ctcp_text_example =
    parseline-ctcp_text nick user host target nick-IsIdent (λ e. cc e)
      (are_free-IsFree space target refl) (b'P' ∷ b'I' ∷ b'N' ∷ b'G' ∷ []) (b'1' ∷ b'2' ∷ [])
      (λ e. cc e) (are_free-IsFree space (b'P' ∷ b'I' ∷ b'N' ∷ b'G' ∷ []) refl) (λ e. cc e)
      ping-IsLine
