-- ===== src/Irc/Events.antt =====
-- src/irc.h: the kinds of events, and the words of the IRC protocol that stand for some of them.
use mx3bot.Base.{ℕ, [], ◌∷◌}
use mx3bot.CString.{Str}

abbrev pub cmd_unknown : ℕ
cmd_unknown = 0

abbrev pub cmd_privmsg : ℕ
cmd_privmsg = 1

abbrev pub cmd_ctcp : ℕ
cmd_ctcp = 2

abbrev pub cmd_notice : ℕ
cmd_notice = 3

abbrev pub cmd_join : ℕ
cmd_join = 4

abbrev pub cmd_part : ℕ
cmd_part = 5

abbrev pub cmd_nick : ℕ
cmd_nick = 6

abbrev pub cmd_mode : ℕ
cmd_mode = 7

abbrev pub cmd_kick : ℕ
cmd_kick = 8

abbrev pub cmd_quit : ℕ
cmd_quit = 9

abbrev pub cmd_ping : ℕ
cmd_ping = 10

abbrev pub cmd_error : ℕ
cmd_error = 11

abbrev pub cmd_kill : ℕ
cmd_kill = 12

abbrev pub cmd_numeric : ℕ
cmd_numeric = 13

abbrev pub cmd_timer : ℕ
cmd_timer = 14

abbrev pub cmd_connect : ℕ
cmd_connect = 15

abbrev pub cmd_topic : ℕ
cmd_topic = 16

abbrev pub cmd_dcc : ℕ
cmd_dcc = 17

abbrev pub cmd_pong : ℕ
cmd_pong = 18

abbrev pub cmd_invite : ℕ
cmd_invite = 19

abbrev pub cmd_log : ℕ
cmd_log = 20

abbrev pub cmd_max : ℕ
cmd_max = 24

-- The words.
abbrev pub word_privmsg : Str
word_privmsg = b'P' ∷ b'R' ∷ b'I' ∷ b'V' ∷ b'M' ∷ b'S' ∷ b'G' ∷ []

abbrev pub word_notice : Str
word_notice = b'N' ∷ b'O' ∷ b'T' ∷ b'I' ∷ b'C' ∷ b'E' ∷ []

abbrev pub word_part : Str
word_part = b'P' ∷ b'A' ∷ b'R' ∷ b'T' ∷ []

abbrev pub word_join : Str
word_join = b'J' ∷ b'O' ∷ b'I' ∷ b'N' ∷ []

abbrev pub word_nick : Str
word_nick = b'N' ∷ b'I' ∷ b'C' ∷ b'K' ∷ []

abbrev pub word_quit : Str
word_quit = b'Q' ∷ b'U' ∷ b'I' ∷ b'T' ∷ []

abbrev pub word_kick : Str
word_kick = b'K' ∷ b'I' ∷ b'C' ∷ b'K' ∷ []

abbrev pub word_mode : Str
word_mode = b'M' ∷ b'O' ∷ b'D' ∷ b'E' ∷ []

abbrev pub word_topic : Str
word_topic = b'T' ∷ b'O' ∷ b'P' ∷ b'I' ∷ b'C' ∷ []

abbrev pub word_kill : Str
word_kill = b'K' ∷ b'I' ∷ b'L' ∷ b'L' ∷ []

abbrev pub word_pong : Str
word_pong = b'P' ∷ b'O' ∷ b'N' ∷ b'G' ∷ []

abbrev pub word_invite : Str
word_invite = b'I' ∷ b'N' ∷ b'V' ∷ b'I' ∷ b'T' ∷ b'E' ∷ []

abbrev pub word_ping : Str
word_ping = b'P' ∷ b'I' ∷ b'N' ∷ b'G' ∷ []

abbrev pub word_error : Str
word_error = b'E' ∷ b'R' ∷ b'R' ∷ b'O' ∷ b'R' ∷ []

abbrev pub word_who : Str
word_who = b'W' ∷ b'H' ∷ b'O' ∷ []

abbrev pub word_user : Str
word_user = b'U' ∷ b'S' ∷ b'E' ∷ b'R' ∷ []
