-- ===== src/Irc/Parse.antt =====
-- src/irc/irc_parse.c: a line from the IRC server as a record.
-- A pointer is an `Option`, with `none` for NULL, until the record is filled. A result of `none` is
-- a line at which the source follows a null pointer, or reads an array on past its end.
pub mod Laws
pub mod Lines
mod Tests
use mx3bot.Base.{
  ℕ, Bool, true, false, Option, none, some, List, [], ◌∷◌, leb, ◌==◌, if◌then◌else◌, length, ◌>>=◌,
}
use mx3bot.CString.{Str, is_digit, is_empty, str_eq, strncpy}
use mx3bot.Strtok.{cut_last, strtok}
use mx3bot.Irc.Events.{
  cmd_ctcp, cmd_error, cmd_invite, cmd_join, cmd_kick, cmd_kill, cmd_mode, cmd_nick, cmd_notice,
  cmd_numeric, cmd_part, cmd_ping, cmd_pong, cmd_privmsg, cmd_quit, cmd_topic, cmd_unknown,
  word_error, word_invite, word_join, word_kick, word_kill, word_mode, word_nick, word_notice,
  word_part, word_ping, word_pong, word_privmsg, word_quit, word_topic,
}

-- struct irc_line
pub record IrcLine : Type 0 where
  pub server : Str
  pub nick : Str
  pub user : Str
  pub host : Str
  pub ident : Str
  pub command : Str
  pub target : Str
  pub param : Str
  pub param2 : Str

-- The variables that the command decides.
pub record Words : Type 0 where
  pub type : ℕ
  pub target : Option Str
  pub param : Option Str
  pub param2 : Option Str

-- The variables that the start of the line decides.
pub record Source : Type 0 where
  pub server : Option Str
  pub ident : Option Str
  pub nick : Option Str
  pub user : Option Str
  pub host : Option Str

abbrev pub space : Str
space = b' ' ∷ []

abbrev pub words : ℕ → Option Str → Option Str → Option Str → Words
words type target param param2 = record {
  type = type;
  target = target;
  param = param;
  param2 = param2;
}

-- `if(p) p++;` on the token of a call of strtok()
abbrev pub next_byte : Option Str → Option Str
next_byte none = none
next_byte (some []) = some []
next_byte (some (c ∷ s)) = some s

abbrev pub or_empty : Option Str → Str
or_empty none = []
or_empty (some s) = s

-- A target, and all that follows without its first byte.
target_text : ℕ → Str → Words
unfolding strtok
target_text type s =
    let (target, s1) = strtok s space in words type target (next_byte (strtok s1 []).0) none

ctcp : Option Str → Str → Words
unfolding cut_last strtok
ctcp target text =
    let (param, s) = strtok (cut_last 1 text) space in words cmd_ctcp target param (strtok s []).0

-- PRIVMSG, with `*param` read whether or not there is a `param`.
privmsg : Option Str → Option Str → Option Words
unfolding ctcp
privmsg target none = none
privmsg target (some []) = some (words cmd_privmsg target (some []) none)
privmsg target (some (c ∷ text)) =
    if c == 1
    then some (ctcp target text)
    else some (words cmd_privmsg target (some (c ∷ text)) none)

-- INVITE, with `param++` whether or not there is a `param`.
invite : Option Str → Option Str → Option Words
invite target none = none
invite target (some param) = some (words cmd_invite target (some param) none)

kick : Str → Words
unfolding strtok
kick s =
    let (target, s1) = strtok s space in
    let (param, s2) = strtok s1 space in words cmd_kick target param (next_byte (strtok s2 []).0)

mode : Str → Words
unfolding strtok
mode s =
    let (target, s1) = strtok s space in
    let (param, s2) = strtok s1 space in words cmd_mode target param (strtok s2 []).0

starts_with_digit : Str → Bool
starts_with_digit [] = false
starts_with_digit (c ∷ s) = is_digit c

-- The commands of a line that begins with its source; `s` is what follows the command.
unfoldable pub server_command : Str → Str → Option Words
unfolding starts_with_digit target_text privmsg invite kick mode str_eq strtok
server_command command s =
    let (target, s1) = strtok s space in
    let rest = (strtok s1 []).0 in
    if starts_with_digit command
    then some (words cmd_numeric target rest none)
    else if str_eq command word_privmsg
    then privmsg target (next_byte rest)
    else if str_eq command word_notice
    then some (target_text cmd_notice s)
    else if str_eq command word_part
    then some (target_text cmd_part s)
    else if str_eq command word_join
    then some (words cmd_join (next_byte target) none none)
    else if str_eq command word_nick
    then some (words cmd_nick none (next_byte target) none)
    else if str_eq command word_quit
    then some (words cmd_quit none (next_byte target) none)
    else if str_eq command word_kick
    then some (kick s)
    else if str_eq command word_mode
    then some (mode s)
    else if str_eq command word_topic
    then some (target_text cmd_topic s)
    else if str_eq command word_kill
    then some (words cmd_kill target rest none)
    else if str_eq command word_pong
    then some (target_text cmd_pong s)
    else if str_eq command word_invite
    then invite target (next_byte rest)
    else some (words cmd_unknown none none none)

-- The commands of a line without a source.
unfoldable pub plain_command : Str → Str → Words
unfolding str_eq strtok
plain_command command s =
    let rest = (strtok s []).0 in
    if str_eq command word_ping
    then words cmd_ping none (next_byte rest) none
    else if str_eq command word_error
    then words cmd_error none rest none
    else words cmd_unknown none none none

source_parts : Str → Option Str × Str → Source
unfolding strtok
source_parts ident (none, s) = record {
  server = some ident;
  ident = none;
  nick = none;
  user = none;
  host = none;
}
source_parts ident (some nick, s) =
    let (user, s1) = strtok s (b'@' ∷ []) in
    record {
      server = none;
      ident = some ident;
      nick = some nick;
      user = user;
      host = (strtok s1 []).0;
    }

-- `temp` has no end if `ident` does not fit.
unfoldable pub source_of : Str → Option Source
unfolding source_parts
source_of ident =
    if leb 256 (length ident) then none else some (source_parts ident (strtok ident (b'!' ∷ [])))

abbrev pub no_source : Source
no_source = record { server = none; ident = none; nick = none; user = none; host = none }

unfoldable pub filled : Source → Str → Words → ℕ × IrcLine
unfolding strncpy
filled source command w = (
  w.type,
  record {
    server = strncpy 128 (or_empty source.server);
    nick = strncpy 32 (or_empty source.nick);
    user = strncpy 32 (or_empty source.user);
    host = strncpy 128 (or_empty source.host);
    ident = strncpy 128 (or_empty source.ident);
    command = strncpy 128 command;
    target = strncpy 32 (or_empty w.target);
    param = strncpy 512 (or_empty w.param);
    param2 = strncpy 512 (or_empty w.param2);
  },
)

-- `first` is the word that begins with a colon.
with_command : Option Str → Option Str × Str → Option (ℕ × IrcLine)
unfolding server_command source_of filled
with_command first (second, s) =
    let command = or_empty second in
    server_command command s >>= λ w.
    source_of (or_empty (next_byte first)) >>= λ source. some (filled source command w)

with_first : Option Str × Str → Option (ℕ × IrcLine)
unfolding with_command strtok
with_first (first, s) = with_command first (strtok s space)

with_source : Str → Option (ℕ × IrcLine)
unfolding with_first strtok
with_source line = with_first (strtok line space)

without_source : Str → ℕ × IrcLine
unfolding strtok plain_command filled
without_source line =
    let (first, s) = strtok line space in
    let command = or_empty first in filled no_source command (plain_command command s)

parse_stripped : Str → Option (ℕ × IrcLine)
unfolding with_source without_source
parse_stripped [] = some (without_source [])
parse_stripped (c ∷ line) =
    if c == b':' then with_source (c ∷ line) else some (without_source (c ∷ line))

-- `line` has no end if `_line` does not fit.
unfoldable pub parseline : Str → Option (ℕ × IrcLine)
unfolding parse_stripped cut_last
parseline _line =
    if leb 512 (length _line) then none else parse_stripped (cut_last b'\n' (cut_last b'\r' _line))
