-- ===== src/Connection/Child/Replies.antt =====
-- src/connection.c: the CTCP requests that a child answers. The variable database and the version are
-- parameters.
use mx3bot.Base.{ℕ, Option, none, some, [], ◌∷◌, ◌++◌, ◌>>=◌, if◌then◌else◌, take}
use mx3bot.Base.Int.{ℤ, pos}
use mx3bot.CString.{Str, str_eq}
use mx3bot.Irc.Client.{irc_notice}
use mx3bot.Irc.Handler.{Info, irc_ok}
use mx3bot.Irc.Queue.{Allocator}
use mx3bot.Connection.Child.{Child}
use mx3bot.Connection.Child.Events.{ctcp_words, cut_token, tell}
use mx3bot.Connection.Line.{◌⌢◌}
use mx3bot.Connection.Words.{
  word_clientinfo, word_ctcp, word_ping, word_time, word_userinfo, word_version,
}

abbrev version_key : Str
version_key = b'v' ∷ b'e' ∷ b'r' ∷ b's' ∷ b'i' ∷ b'o' ∷ b'n' ∷ []

abbrev userinfo_key : Str
userinfo_key = b'u' ∷ b's' ∷ b'e' ∷ b'r' ∷ b'i' ∷ b'n' ∷ b'f' ∷ b'o' ∷ []

abbrev home_page : Str
home_page =
    b'h' ∷ b't' ∷ b't' ∷ b'p' ∷ b':' ∷ b'/' ∷ b'/' ∷ b'b' ∷ b'o' ∷ b't' ∷ b'.' ∷ b'm' ∷ b'x' ∷ b'3'
    ∷ b'.' ∷ b'o' ∷ b'r' ∷ b'g' ∷ []

abbrev program : Str
program = b'M' ∷ b'x' ∷ b'3' ∷ b'b' ∷ b'o' ∷ b't' ∷ []

abbrev requests : Str
requests =
    b'A' ∷ b'C' ∷ b'T' ∷ b'I' ∷ b'O' ∷ b'N' ∷ b' ' ∷ b'C' ∷ b'L' ∷ b'I' ∷ b'E' ∷ b'N' ∷ b'T' ∷ b'I'
    ∷ b'N' ∷ b'F' ∷ b'O' ∷ b' ' ∷ b'P' ∷ b'I' ∷ b'N' ∷ b'G' ∷ b' ' ∷ b'U' ∷ b'S' ∷ b'E' ∷ b'R'
    ∷ b'I' ∷ b'N' ∷ b'F' ∷ b'O' ∷ b' ' ∷ b'V' ∷ b'E' ∷ b'R' ∷ b'S' ∷ b'I' ∷ b'O' ∷ b'N' ∷ b' '
    ∷ b'T' ∷ b'I' ∷ b'M' ∷ b'E' ∷ []

-- What snprintf() makes of a reply between two bytes of 1.
abbrev marked : Str → Str
marked s = take 511 (1 ∷ (s ++ 1 ∷ []))

-- strtok() ends the text behind its word.
unfoldable pub request_of : Str → Str
unfolding cut_token
request_of [] = []
request_of (c ∷ s) = c ∷ cut_token (b' ' ∷ []) s

-- `var_get_def` takes the user, the name, the length and the default, `version` is VERSION, and
-- `time_text` what timestr() makes of the clock.
module _ (memory : Allocator) (now : ℕ) (var_get_def : ℤ → Str → ℕ → Str → Str)
    (version time_text : Str) where
  reply_text : Str → Str → Option Str
  reply_text request param2 =
      if str_eq request word_version
      then some (
          marked (
            word_version
            ⌢ program
            ⌢ (version ++ b':' ∷ [])
            ⌢ var_get_def (pos 0) version_key 512 home_page))
      else if str_eq request word_userinfo
      then some (marked (word_userinfo ⌢ var_get_def (pos 0) userinfo_key 512 []))
      else if str_eq request word_ping
      then some (marked (word_ping ⌢ param2))
      else if str_eq request word_clientinfo
      then some (marked (word_clientinfo ⌢ requests))
      else if str_eq request word_time
      then some (marked (word_time ⌢ time_text))
      else none

  reply : Str → Option Str → Child → Option Child
  unfolding irc_notice
  reply nick none c = some c
  reply nick (some text) c = irc_notice memory now nick text c.client >>= λ (client, r).
      some (record c { client = client })

  unfoldable pub handle_ctcp : Info → Child → Option (Child × ℤ)
  unfolding ctcp_words request_of tell reply_text reply
  handle_ctcp info c = ctcp_words info.param >>= λ words.
      (let request = request_of info.param in
        tell memory now info
          (word_ctcp ⌢ info.target ⌢ info.nick ⌢ info.user ⌢ info.host ⌢ request ⌢ info.param2) c
        >>= λ (c', r).
            reply info.nick (reply_text request info.param2) c' >>= λ c''. some (c'', irc_ok))
