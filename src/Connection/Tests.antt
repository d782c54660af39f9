-- ===== src/Connection/Tests.antt =====
-- What ann does in sight of a bot.
use mx3bot.Base.{
  ◌&&◌, not, ◌==◌, if◌then◌else◌, ◌≡◌, refl, true, none, some, [], ◌∷◌, ◌++◌, ◌>>=◌, Yields, arith,
  load, List,
}
use mx3bot.Base.Int.{ℤ, pos}
use mx3bot.CString.{Str, str_eq, str_case_eq}
use mx3bot.CString.Number.{digits, format_int}
use mx3bot.Strtok.{are_free, are_free-IsFree}
use mx3bot.Table.{first_index, tally}
use mx3bot.Irc.Handler.{irc_ok}
use mx3bot.User.{user_find}
use mx3bot.User.Session.{user_update}
use mx3bot.User.Keys.{AreDistinct}
use mx3bot.Connection.{Connections, connection_close, connection_init, connection_open}
use mx3bot.Connection.Child.{line_to_parent}
use mx3bot.Connection.Child.Events.{handle_join, handle_privmsg}
use mx3bot.Connection.Count.{HasCount, Reachable-HasCount, closes, goes_on, opens, starts}
use mx3bot.Connection.Line.{◌⌢◌}
use mx3bot.Connection.Parent.{Parent, TclCall}
use mx3bot.Connection.Queue.{add_sent}
use mx3bot.Script.Runs.{scripts}
use mx3bot.Connection.Parent.Dispatch.{connection_server}
use mx3bot.Connection.Parent.Messages.{first_byte, msg_parts, server_msg}
use mx3bot.Connection.Parent.Messages.Commands.{Agrees, Exec, server_msg-Agrees}
use mx3bot.Connection.Parent.Presence.{join_parts, server_connect, server_quit}
use mx3bot.Connection.Parent.Presence.Gone.{
  IsPurged, user_find-server_connect, user_find-server_quit,
}
use mx3bot.Irc.Events.{word_privmsg}
use mx3bot.Irc.Loop.Pass.{info_of}
use mx3bot.Irc.Network.{net_readline}
use mx3bot.Irc.Network.Laws.{bytes, line_end}
use mx3bot.Irc.Parse.{parseline, space}
use mx3bot.Irc.Parse.Laws.{to_target}
use mx3bot.Irc.Parse.Lines.{ident_of, line_of}
use mx3bot.Connection.Wire.Chain.{IsMessage, connection_server-net_readline}
use mx3bot.Connection.Wire.Joins.{connection_server-handle_join, join_text}
use mx3bot.Connection.Wire.Says.{connection_server-from_server, from_server, msg_text}
use mx3bot.Connection.Words.{event_msg, word_join, word_msg}
use mx3bot.Connection.Samples.{ann, child_told, connected, mx, net, no_memory, parent, said, system}

connection_server-handle_join_example :
    (handle_join no_memory 0 said (child_told word_join)
      ≡ some (
        record (child_told word_join) {
          input = some [];
          output = [] ++ line_to_parent (pos 0) (word_join ⌢ join_text said);
        },
        irc_ok,
      ))
    × (connection_server system
          (some (line_to_parent (pos 0) (word_join ⌢ join_text said) ++ []))
          parent
        ≡ (join_parts system 0 (some mx) (some ann) (some ann) (some net) (some word_join) parent
            >>= λ s'. some (s', [], pos 0)))
unfolding are_free str_case_eq digits format_int
connection_server-handle_join_example =
    connection_server-handle_join no_memory 0 system 0 said (child_told word_join) parent [] [] refl
      (are_free-IsFree (b' ' ∷ []) mx refl) (are_free-IsFree (b' ' ∷ []) ann refl)
      (are_free-IsFree (b' ' ∷ []) ann refl) (are_free-IsFree (b' ' ∷ []) net refl)
      (are_free-IsFree (b'\n' ∷ []) (join_text said) refl) (omega arith) refl refl refl

abbrev hi : Str
hi = b'h' ∷ b'i' ∷ []

abbrev hi_line : Str
hi_line = line_of (ident_of ann ann net) word_privmsg (to_target mx hi)

hi-IsMessage : IsMessage ann ann net mx hi
unfolding are_free
hi-IsMessage = record {
  ident = record {
    nick_some = λ e. cc e;
    user_some = λ e. cc e;
    host_some = λ e. cc e;
    nick_free = are_free-IsFree (b'!' ∷ []) ann refl;
    user_free = are_free-IsFree (b'@' ∷ []) ann refl;
    free = are_free-IsFree space (ident_of ann ann net) refl;
    fits = omega arith;
  };
  target_some = λ e. cc e;
  target_free = are_free-IsFree space mx refl;
  text_some = λ e. cc e;
  line = record {
    no_return = are_free-IsFree (b'\r' ∷ []) hi_line refl;
    no_newline = are_free-IsFree (b'\n' ∷ []) hi_line refl;
    fits = omega arith;
  };
  plain = λ rest e. cc e;
  nick_fits = omega arith;
  user_fits = omega arith;
  host_fits = omega arith;
  target_fits = omega arith;
  text_fits = omega arith;
}

connection_server-net_readline_example :
    ((net_readline true 512 (bytes hi_line ++ line_end ++ []) >>= λ (buffer, len, left).
    parseline buffer >>= λ (token, l).
    handle_privmsg no_memory 0 (info_of (pos 0) token l) (child_told word_msg))
      ≡ some (
        record (child_told word_msg) {
          input = some [];
          output = [] ++ line_to_parent (pos 0) (word_msg ⌢ mx ⌢ ann ⌢ ann ⌢ net ⌢ hi);
        },
        irc_ok,
      ))
    × (connection_server system
          (some (line_to_parent (pos 0) (word_msg ⌢ mx ⌢ ann ⌢ ann ⌢ net ⌢ hi) ++ []))
          parent
        ≡ (msg_parts system 0 (some mx) (some ann) (some ann) (some net) (some hi) parent >>= λ s'.
            some (s', [], pos 0)))
unfolding digits format_int
connection_server-net_readline_example =
    connection_server-net_readline ann ann net mx hi hi-IsMessage no_memory 0 system 0
      (child_told word_msg) parent [] [] [] (omega arith) refl refl

-- The first two words of what a server says are taken for a user and a host.
connection_server-from_server_example :
    (handle_privmsg no_memory 0 (from_server said ann net mx) (child_told word_msg)
      ≡ some (
        record (child_told word_msg) {
          input = some [];
          output = [] ++ line_to_parent (pos 0) (word_msg ⌢ msg_text (from_server said ann net mx));
        },
        irc_ok,
      ))
    × (connection_server system
          (some (line_to_parent (pos 0) (word_msg ⌢ msg_text (from_server said ann net mx)) ++ []))
          parent
        ≡ (msg_parts system 0 (some mx) (some ann) (some ann) (some net) (some mx) parent >>= λ s'.
            some (s', [], pos 0)))
unfolding are_free digits format_int
connection_server-from_server_example =
    connection_server-from_server no_memory 0 system 0 said ann net mx (child_told word_msg) parent
      [] [] refl (are_free-IsFree (b' ' ∷ []) mx refl) (are_free-IsFree (b' ' ∷ []) ann refl)
      (are_free-IsFree (b' ' ∷ []) ann refl) (are_free-IsFree (b' ' ∷ []) net refl) refl
      (are_free-IsFree (b'\n' ∷ []) (msg_text (from_server said ann net mx)) refl) (omega arith)
      refl refl

-- The script joins a channel, which is told to the child.
abbrev joins : List TclCall → Str → Parent → Parent × ℤ × Str
joins t file r = (record r { connections = add_sent (some (5, mx)) r.connections }, pos 0, [])

user_find-server_connect_example : Yields (IsPurged 0 parent) (
    server_connect
      (record system { script_exec = scripts joins (λ fd text. true) (λ file. true) [] })
      0
      (some net)
      parent)
unfolding load are_free
user_find-server_connect_example =
    user_find-server_connect system 0 parent connected refl joins (λ fd text. true) (λ file. true)
      [] net (are_free-IsFree (b' ' ∷ []) net refl) (λ u r. (refl, λ c e. (c, e)))

ann_alone : AreDistinct parent.users.user
unfolding tally
ann_alone k h = ground arith

user_find-server_quit_example :
    Yields
      (λ (s' : Parent). user_find (pos 0) ann (user_update 200 10 s'.users).user ≡ none)
      (server_quit system 0 (some ann) parent)
unfolding load are_free user_find first_index str_case_eq
user_find-server_quit_example =
    user_find-server_quit system 0 parent connected refl ann 0 200 10
      (are_free-IsFree (b' ' ∷ []) ann refl) ann_alone refl refl (omega arith)

-- Scripts of names that begin with `_`, but for that of the event, forget who is in sight.
abbrev forgetful : Exec
forgetful cid name user args s =
    if (first_byte name == b'_') && not (str_eq name event_msg)
    then some (record s { users = record s.users { user = [] } })
    else some s

forgetful-Agrees : Agrees system forgetful
unfolding str_eq
forgetful-Agrees = (λ cid name user args s h. rw h refl, λ cid user args s. refl)

abbrev command_line : Str
command_line = mx ⌢ ann ⌢ ann ⌢ net ⌢ b'!' ∷ b'_' ∷ b'x' ∷ []

server_msg-Agrees_example :
    server_msg (record system { script_exec = forgetful }) 0 (some command_line) parent
    ≡ server_msg system 0 (some command_line) parent
server_msg-Agrees_example =
    server_msg-Agrees system forgetful forgetful-Agrees 0 (some command_line) parent

abbrev opened_closed : Connections
opened_closed =
    (connection_close (some 7)
      (connection_open net net 6667 ann b'!' (some 7)
        (connection_init true parent.connections).0).0).0

Reachable-HasCount_example : HasCount opened_closed
Reachable-HasCount_example = Reachable-HasCount opened_closed (
    goes_on (goes_on (starts parent.connections) (opens net net 6667 ann b'!' 7)) (closes (some 7)))
