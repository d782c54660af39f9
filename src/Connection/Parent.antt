-- ===== src/Connection/Parent.antt =====
-- src/connection.c: what the functions of the parent that answer its children have in common.
-- The parent runs scripts, which call back into it: script_exec() is a parameter, on the state of the
-- parent and of the interpreter.
-- `none` is an access outside an array or through NULL. Debug messages and warnings are left out.
pub mod Messages
pub mod Presence
pub mod Notes
pub mod Dispatch
use mx3bot.Base.{
  ℕ, Bool, true, false, ◌&&◌, Option, none, some, List, [], ◌∷◌, ◌++◌, if◌then◌else◌, load, ◌>>=◌,
}
use mx3bot.Base.Int.{ℤ, int_eq, pos}
use mx3bot.CString.{Str}
use mx3bot.Log.{Logs, log_add}
use mx3bot.Misc.Create.{ischan}
use mx3bot.Table.{first_index}
use mx3bot.User.{User, UserDb, Users, user_find, user_join}
use mx3bot.User.Session.{user_get_id, user_set_seen}
use mx3bot.Connection.{Conn, Connections}
use mx3bot.Connection.Queue.{add_sent, written}
use mx3bot.Connection.Line.{or_empty, ◌⌢◌}
use mx3bot.Connection.Words.{word_ok}

-- An argument of script_exec(), by the letter before its name: S, I and C.
pub data Value : Type 0 where
  text : Option Str → Value
  number : ℤ → Value
  char : ℕ → Value

-- What the Tcl interpreter has been told: Tcl_SetVar() and Tcl_UnsetVar() with the name, Tcl_Eval() and
-- Tcl_EvalFile(). Its state is what it makes of all these calls.
pub data TclCall : Type 0 where
  tcl_set_var : Str → Str → TclCall
  tcl_unset_var tcl_eval tcl_eval_file : Str → TclCall

-- What the files that the parent consists of keep; `interp` is that of script.c.
pub record Parent : Type 0 where
  pub connections : Connections
  pub users : Users
  pub logs : Logs
  pub interp : List TclCall

-- What is not in connection.c, user.c and log.c. script_exec() takes the connection, the event, the
-- nick of whom to answer to, if any, and the arguments; what it returns is not looked at, and the one
-- of src/script.c is `scripts` of Script/Runs.antt. `now` is the clock, `stamp` what a log makes
-- of it, `memory` says whether malloc() and realloc() succeed, and the arrays without a value hold
-- `junk` and `unset`.
pub record System : Type 0 where
  pub script_exec : ℕ → Str → Option Str → List (Str × Value) → Parent → Option Parent
  pub db : UserDb
  pub now : ℕ
  pub stamp : Str
  pub purge_delay : ℕ
  pub memory : Bool
  pub junk : User
  pub unset : Str
  pub fopen : Str → Bool
  pub open_fifo : Option Str → Option ℕ

abbrev pub connection_of : ℕ → Parent → Option Conn
unfolding load
connection_of cid s = load s.connections.conns cid

-- send_to_child() of `OK` or `FAIL` with the word that is answered; its result is not looked at.
unfoldable pub answer : Str → ℕ → Str → Parent → Option Parent
unfolding written
answer verdict cid word s = connection_of cid s >>= λ c.
    some (record s { connections = add_sent (written c (verdict ++ b' ' ∷ word)) s.connections })

unfoldable pub ok : ℕ → Str → Parent → Option Parent
unfolding answer
ok cid word s = answer word_ok cid word s

is_of : ℕ → User → Bool
is_of cid u = int_eq u.server (pos cid)

-- user_get_id(); with a null nick it reads through NULL if anyone is in sight on that server.
unfoldable pub get_id : ℕ → Option Str → Users → Option ℤ
unfolding first_index is_of
get_id cid none users = elim (first_index (is_of cid) users.user) [
  | none ↦ some (pos 0)
  | some i ↦ none
]
get_id cid (some nick) users = some (user_get_id (pos cid) nick users)

module _ (sys : System) where
  open sys use {db, now, stamp, memory, junk}

  -- user_join() where the nick, the user or the host may be null. Who is not in sight yet needs all
  -- of them.
  join_as : ℕ → Option Str → Str → Option Str → Option Str → Users → Option ℕ → Option Users
  join_as cid target nick user host users (some i) =
      some (
        (user_join db now memory junk (pos cid) nick (or_empty user) (or_empty host) target
          users).0)
  join_as cid target nick user host users none = user >>= λ u.
      host >>= λ h. some ((user_join db now memory junk (pos cid) nick u h target users).0)

  unfoldable pub joined :
      ℕ → Option Str → Option Str → Option Str → Option Str → Users → Option Users
  unfolding join_as
  joined cid target nick user host users =
      nick >>= λ n. join_as cid target n user host users (user_find (pos cid) n users.user)

  seen : ℕ → Option Str → Users → ℤ → Users × ℤ
  seen cid none users id = (users, id)
  seen cid (some nick) users id =
      (if int_eq id (pos 0) then users else (user_set_seen now (pos cid) nick users).0, id)

  unfoldable pub user_status :
      ℕ → Bool → Option Str → Option Str → Option Str → Users → Option (Users × ℤ)
  unfolding get_id joined seen
  user_status cid add nick user host users = get_id cid nick users >>= λ id.
      if int_eq id (pos 0) && add
      then (joined cid none nick user host users >>= λ users'.
          get_id cid nick users' >>= λ id'. some (seen cid nick users' id'))
      else some (seen cid nick users id)

  unfoldable pub with_status :
      ℕ → Bool → Option Str → Option Str → Option Str → Parent → Option (Parent × ℤ)
  unfolding user_status
  with_status cid add nick user host s =
      user_status cid add nick user host s.users >>= λ (users, uid).
      some (record s { users = users }, uid)

  -- log_add()
  unfoldable pub logged : ℕ → Option Str → ℕ → Str → Parent → Option Parent
  unfolding log_add
  logged cid target type line s =
      log_add stamp (pos cid) target type line s.logs >>= λ logs. some (record s { logs = logs })

  unfoldable pub logged_if_channel : ℕ → Option Str → ℕ → Str → Parent → Option Parent
  unfolding logged
  logged_if_channel cid target type line s =
      if ischan target then logged cid target type line s else some s
