-- ===== src/Connection/Words.antt =====
-- src/connection.c: the words that the parent and its children write to each other, and the names of
-- the events and their arguments that scripts see.
use mx3bot.Base.{[], ◌∷◌}
use mx3bot.CString.{Str}

abbrev pub word_hello : Str
word_hello = b'H' ∷ b'E' ∷ b'L' ∷ b'L' ∷ b'O' ∷ []

abbrev pub word_msg : Str
word_msg = b'M' ∷ b'S' ∷ b'G' ∷ []

abbrev pub word_ctcp : Str
word_ctcp = b'C' ∷ b'T' ∷ b'C' ∷ b'P' ∷ []

abbrev pub word_notice : Str
word_notice = b'N' ∷ b'O' ∷ b'T' ∷ b'I' ∷ b'C' ∷ b'E' ∷ []

abbrev pub word_snotice : Str
word_snotice = b'S' ∷ b'N' ∷ b'O' ∷ b'T' ∷ b'I' ∷ b'C' ∷ b'E' ∷ []

abbrev pub word_ctcpr : Str
word_ctcpr = b'C' ∷ b'T' ∷ b'C' ∷ b'P' ∷ b'R' ∷ []

abbrev pub word_join : Str
word_join = b'J' ∷ b'O' ∷ b'I' ∷ b'N' ∷ []

abbrev pub word_part : Str
word_part = b'P' ∷ b'A' ∷ b'R' ∷ b'T' ∷ []

abbrev pub word_nick : Str
word_nick = b'N' ∷ b'I' ∷ b'C' ∷ b'K' ∷ []

abbrev pub word_quit : Str
word_quit = b'Q' ∷ b'U' ∷ b'I' ∷ b'T' ∷ []

abbrev pub word_connect : Str
word_connect = b'C' ∷ b'O' ∷ b'N' ∷ b'N' ∷ b'E' ∷ b'C' ∷ b'T' ∷ []

abbrev pub word_update : Str
word_update = b'U' ∷ b'P' ∷ b'D' ∷ b'A' ∷ b'T' ∷ b'E' ∷ []

abbrev pub word_send : Str
word_send = b'S' ∷ b'E' ∷ b'N' ∷ b'D' ∷ []

abbrev pub word_topic : Str
word_topic = b'T' ∷ b'O' ∷ b'P' ∷ b'I' ∷ b'C' ∷ []

abbrev pub word_note : Str
word_note = b'N' ∷ b'O' ∷ b'T' ∷ b'E' ∷ []

abbrev pub word_dcc : Str
word_dcc = b'D' ∷ b'C' ∷ b'C' ∷ []

abbrev pub word_invite : Str
word_invite = b'I' ∷ b'N' ∷ b'V' ∷ b'I' ∷ b'T' ∷ b'E' ∷ []

abbrev pub word_who : Str
word_who = b'W' ∷ b'H' ∷ b'O' ∷ []

abbrev pub word_ok : Str
word_ok = b'O' ∷ b'K' ∷ []

abbrev pub word_fail : Str
word_fail = b'F' ∷ b'A' ∷ b'I' ∷ b'L' ∷ []

abbrev pub word_disconnect : Str
word_disconnect = b'D' ∷ b'I' ∷ b'S' ∷ b'C' ∷ b'O' ∷ b'N' ∷ b'N' ∷ b'E' ∷ b'C' ∷ b'T' ∷ []

abbrev pub word_reconnect : Str
word_reconnect = b'R' ∷ b'E' ∷ b'C' ∷ b'O' ∷ b'N' ∷ b'N' ∷ b'E' ∷ b'C' ∷ b'T' ∷ []

abbrev pub word_mode : Str
word_mode = b'M' ∷ b'O' ∷ b'D' ∷ b'E' ∷ []

abbrev pub word_kick : Str
word_kick = b'K' ∷ b'I' ∷ b'C' ∷ b'K' ∷ []

abbrev pub word_irc : Str
word_irc = b'I' ∷ b'R' ∷ b'C' ∷ []

abbrev pub word_nickinuse : Str
word_nickinuse = b'N' ∷ b'I' ∷ b'C' ∷ b'K' ∷ b'I' ∷ b'N' ∷ b'U' ∷ b'S' ∷ b'E' ∷ []

abbrev pub word_joinfailure : Str
word_joinfailure = b'J' ∷ b'O' ∷ b'I' ∷ b'N' ∷ b'F' ∷ b'A' ∷ b'I' ∷ b'L' ∷ b'U' ∷ b'R' ∷ b'E' ∷ []

abbrev pub word_version : Str
word_version = b'V' ∷ b'E' ∷ b'R' ∷ b'S' ∷ b'I' ∷ b'O' ∷ b'N' ∷ []

abbrev pub word_userinfo : Str
word_userinfo = b'U' ∷ b'S' ∷ b'E' ∷ b'R' ∷ b'I' ∷ b'N' ∷ b'F' ∷ b'O' ∷ []

abbrev pub word_ping : Str
word_ping = b'P' ∷ b'I' ∷ b'N' ∷ b'G' ∷ []

abbrev pub word_clientinfo : Str
word_clientinfo = b'C' ∷ b'L' ∷ b'I' ∷ b'E' ∷ b'N' ∷ b'T' ∷ b'I' ∷ b'N' ∷ b'F' ∷ b'O' ∷ []

abbrev pub word_time : Str
word_time = b'T' ∷ b'I' ∷ b'M' ∷ b'E' ∷ []

abbrev pub event_msg : Str
event_msg = b'_' ∷ b'm' ∷ b's' ∷ b'g' ∷ []

abbrev pub event_ctcp : Str
event_ctcp = b'_' ∷ b'c' ∷ b't' ∷ b'c' ∷ b'p' ∷ []

abbrev pub event_notice : Str
event_notice = b'_' ∷ b'n' ∷ b'o' ∷ b't' ∷ b'i' ∷ b'c' ∷ b'e' ∷ []

abbrev pub event_server_notice : Str
event_server_notice =
    b'_' ∷ b's' ∷ b'e' ∷ b'r' ∷ b'v' ∷ b'e' ∷ b'r' ∷ b'_' ∷ b'n' ∷ b'o' ∷ b't' ∷ b'i' ∷ b'c' ∷ b'e'
    ∷ []

abbrev pub event_ctcp_reply : Str
event_ctcp_reply = b'_' ∷ b'c' ∷ b't' ∷ b'c' ∷ b'p' ∷ b'_' ∷ b'r' ∷ b'e' ∷ b'p' ∷ b'l' ∷ b'y' ∷ []

abbrev pub event_join : Str
event_join = b'_' ∷ b'j' ∷ b'o' ∷ b'i' ∷ b'n' ∷ []

abbrev pub event_part : Str
event_part = b'_' ∷ b'p' ∷ b'a' ∷ b'r' ∷ b't' ∷ []

abbrev pub event_connect : Str
event_connect = b'_' ∷ b'c' ∷ b'o' ∷ b'n' ∷ b'n' ∷ b'e' ∷ b'c' ∷ b't' ∷ []

abbrev pub event_topic : Str
event_topic = b'_' ∷ b't' ∷ b'o' ∷ b'p' ∷ b'i' ∷ b'c' ∷ []

abbrev pub event_invite : Str
event_invite = b'_' ∷ b'i' ∷ b'n' ∷ b'v' ∷ b'i' ∷ b't' ∷ b'e' ∷ []

abbrev pub arg_nick : Str
arg_nick = b'S' ∷ b'n' ∷ b'i' ∷ b'c' ∷ b'k' ∷ []

abbrev pub arg_user : Str
arg_user = b'S' ∷ b'u' ∷ b's' ∷ b'e' ∷ b'r' ∷ []

abbrev pub arg_host : Str
arg_host = b'S' ∷ b'h' ∷ b'o' ∷ b's' ∷ b't' ∷ []

abbrev pub arg_target : Str
arg_target = b'S' ∷ b't' ∷ b'a' ∷ b'r' ∷ b'g' ∷ b'e' ∷ b't' ∷ []

abbrev pub arg_param : Str
arg_param = b'S' ∷ b'p' ∷ b'a' ∷ b'r' ∷ b'a' ∷ b'm' ∷ []

abbrev pub arg_botnick : Str
arg_botnick = b'S' ∷ b'b' ∷ b'o' ∷ b't' ∷ b'n' ∷ b'i' ∷ b'c' ∷ b'k' ∷ []

abbrev pub arg_uid : Str
arg_uid = b'I' ∷ b'u' ∷ b'i' ∷ b'd' ∷ []

abbrev pub arg_reply : Str
arg_reply = b'S' ∷ b'r' ∷ b'e' ∷ b'p' ∷ b'l' ∷ b'y' ∷ []

abbrev pub arg_cp : Str
arg_cp = b'C' ∷ b'c' ∷ b'p' ∷ []

abbrev pub arg_ctcp : Str
arg_ctcp = b'S' ∷ b'c' ∷ b't' ∷ b'c' ∷ b'p' ∷ []

abbrev pub arg_server : Str
arg_server = b'S' ∷ b's' ∷ b'e' ∷ b'r' ∷ b'v' ∷ b'e' ∷ b'r' ∷ []

abbrev pub arg_chan : Str
arg_chan = b'S' ∷ b'c' ∷ b'h' ∷ b'a' ∷ b'n' ∷ []

abbrev pub dcc_nick : Str
dcc_nick = b'=' ∷ b'd' ∷ b'c' ∷ b'c' ∷ []
