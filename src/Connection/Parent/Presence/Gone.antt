-- ===== src/Connection/Parent/Presence/Gone.antt =====
-- src/connection.c: who is in sight after a user has left IRC, and after the bot has connected again.
use mx3bot.Base.{
  Yields, yields, Yields-bind, ◌≡◌, ◌<◌, ◌+◌, refl, arith, ℕ, Bool, false, some, none, load, List,
  [], ◌∷◌,
}
use mx3bot.Base.Int.{ℤ, int_eq, pos}
use mx3bot.CString.{Str, is_empty}
use mx3bot.Script.{is_allowed, script_file, set_vars, value_text}
use mx3bot.Script.Keeps.{IsKept, scripts-IsKept}
use mx3bot.Script.Runs.{scripts}
use mx3bot.Strtok.{are_free}
use mx3bot.User.{at, user_find, user_part}
use mx3bot.User.Gone.{
  user_find-user_part_all, user_find-user_part_other, user_find-user_update_left,
}
use mx3bot.User.Keys.{AreDistinct}
use mx3bot.User.Session.{user_update}
use mx3bot.Connection.{Conn}
use mx3bot.Connection.Line.Words.{IsWord, IsWord-is_empty, next_word_last}
use mx3bot.Connection.Parent.{Parent, System, TclCall, answer, connection_of, ok, text}
use mx3bot.Connection.Words.{arg_botnick, arg_server, event_connect, word_connect}
use mx3bot.Connection.Parent.Presence.{server_connect, server_quit, with_users}

-- Nobody on this server is in sight, and everybody else is who was.
abbrev pub IsPurged : ℕ → Parent → Parent → Type 0
IsPurged cid s s' =
    ((nick : Str) → is_empty nick ≡ false → user_find (pos cid) nick s'.users.user ≡ none)
    × ((cid' : ℕ) (nick : Str)
        → int_eq (pos cid') (pos cid) ≡ false
        → is_empty nick ≡ false
        → user_find (pos cid') nick s'.users.user ≡ user_find (pos cid') nick s.users.user)

module _ (sys : System) (cid : ℕ) (s : Parent) (c : Conn)
    (there : load s.connections.conns cid ≡ some c) where
  ok-IsPurged :
      (word : Str) (t : Parent)
      → (c' : Conn) → load t.connections.conns cid ≡ some c'
      → t.users ≡ (user_part sys.now (pos cid) none none s.users).0
      → Yields (IsPurged cid s) (ok cid word t)
  unfolding ok answer connection_of
  ok-IsPurged word t c' still users =
      rw (still, users)
        (yields (
          λ nick h. user_find-user_part_all sys.now (pos cid) nick s.users h,
          λ cid' nick d h. user_find-user_part_other sys.now (pos cid) (pos cid') nick s.users d h,
        ))

  -- Where the connection exists, the name of its server is a word, `script_exec` is that of
  -- src/script.c, and what Tcl_EvalFile() makes of the file of `_connect`, whatever it sends,
  -- leaves the users as they are and the entry of the connection in the table: `server_connect`
  -- returns, after which nobody on its server is in sight and everybody on the servers of the other
  -- connections is found where they were.
  pub user_find-server_connect :
      (eval_file : List TclCall → Str → Parent → Parent × ℤ × Str) (write : ℕ → Str → Bool)
      (readable : Str → Bool) (path server : Str)
      → IsWord server
      → ((u : List TclCall) (r : Parent)
          → IsKept cid r (eval_file u (script_file path event_connect) r).0)
      → Yields (IsPurged cid s) (
          server_connect
            (record sys { script_exec = scripts eval_file write readable path })
            cid
            (some server)
            s)
  unfolding server_connect connection_of with_users set_vars value_text are_free is_allowed
  user_find-server_connect eval_file write readable path server word keeps =
      let gone = record s { users = (user_part sys.now (pos cid) none none s.users).0 } in
      rw (next_word_last server word, there)
        (Yields-bind
          (scripts-IsKept eval_file write readable path cid event_connect
            ((arg_server, text (some server)) ∷ (arg_botnick, text (some c.nick)) ∷ []) gone _ refl
            (omega arith) refl keeps)
          (λ t (users, still).
            ok-IsPurged word_connect t (still c there).0 (still c there).1 users))

  -- Where the connection exists, the nick is a word, `user_find` finds the user under it at an
  -- entry with a nick, and no two entries are of one user: `server_quit` returns, and a
  -- `user_update` at a time above the delay and 1 second leaves nobody in sight under that nick on
  -- that server.
  pub user_find-server_quit :
      (nick : Str) (i now' delay : ℕ)
      → IsWord nick
      → AreDistinct s.users.user
      → user_find (pos cid) nick s.users.user ≡ some i
      → is_empty (at s.users.user i).nick ≡ false
      → 1 + delay < now'
      → Yields
          (λ (s' : Parent). user_find (pos cid) nick (user_update now' delay s'.users).user ≡ none)
          (server_quit sys cid (some nick) s)
  unfolding server_quit ok answer with_users connection_of
  user_find-server_quit nick i now' delay word distinct found named late =
      rw (next_word_last nick word, there)
        (yields (
          user_find-user_update_left sys.now now' delay (pos cid) nick s.users i
            (IsWord-is_empty nick word) distinct found named late))
