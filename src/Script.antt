-- ===== src/Script.antt =====
-- src/script.c: running the script of an event or a command. The Tcl interpreter is a parameter: it has
-- a state of its own, and what it makes of a file can call back into the bot.
-- `none` is an access through NULL or outside an array.
pub mod Laws
pub mod Runs
pub mod Keeps
mod Tests
use mx3bot.Base.{
  ℕ, Bool, true, false, ◌||◌, ◌&&◌, not, Option, none, some, List, [], ◌∷◌, ◌++◌, ◌==◌,
  if◌then◌else◌, leb, length, map, take, ◌>>=◌,
}
use mx3bot.Base.Int.{ℤ, int_eq, negsuc, pos}
use mx3bot.CString.{Str, is_empty, strncpy, to_lower}
use mx3bot.CString.Number.{format_int}
use mx3bot.Strtok.{are_free, cut_last}
use mx3bot.Connection.{connection_set_target}
use mx3bot.Connection.Queue.{connection_send}
use mx3bot.Connection.Line.{◌⌢◌}
use mx3bot.Connection.Parent.{Parent, Value, char, number, text}
use mx3bot.Connection.Words.{word_notice}

-- Of the library of Tcl: Tcl_SetVar(), Tcl_UnsetVar(), Tcl_Eval() of a text of script.c, and
-- Tcl_EvalFile() with its result, of which 0 is TCL_OK, and Tcl_GetStringResult().
pub record Tcl (T : Type 0) : Type 0 where
  pub set_var : Str → Str → T → T
  pub unset_var : Str → T → T
  pub eval : Str → T → T
  pub eval_file : Str → T → Parent → T × Parent × ℤ × Str

abbrev pre_exec : Str
pre_exec =
    b's' ∷ b'e' ∷ b't' ∷ b' ' ∷ b'p' ∷ b'a' ∷ b'r' ∷ b'a' ∷ b'm' ∷ b' ' ∷ b'[' ∷ b's' ∷ b'p' ∷ b'l'
    ∷ b'i' ∷ b't' ∷ b' ' ∷ b'[' ∷ b's' ∷ b't' ∷ b'r' ∷ b'i' ∷ b'n' ∷ b'g' ∷ b' ' ∷ b't' ∷ b'r'
    ∷ b'i' ∷ b'm' ∷ b' ' ∷ b'$' ∷ b'p' ∷ b'a' ∷ b'r' ∷ b'a' ∷ b'm' ∷ b']' ∷ b']' ∷ b'\n' ∷ b's'
    ∷ b'e' ∷ b't' ∷ b' ' ∷ b'a' ∷ b'r' ∷ b'g' ∷ b's' ∷ b' ' ∷ b'[' ∷ b'l' ∷ b'l' ∷ b'e' ∷ b'n'
    ∷ b'g' ∷ b't' ∷ b'h' ∷ b' ' ∷ b'$' ∷ b'p' ∷ b'a' ∷ b'r' ∷ b'a' ∷ b'm' ∷ b']' ∷ b'\n' ∷ []

abbrev post_exec : Str
post_exec = b'\n' ∷ []

abbrev extension : Str
extension = b'.' ∷ b't' ∷ b'c' ∷ b'l' ∷ []

abbrev prefix_of_error : Str
prefix_of_error = b'T' ∷ b'c' ∷ b'l' ∷ b':' ∷ b' ' ∷ []

-- A slash at the end is cut off. `memory` says whether there is an interpreter. A path that is empty is
-- read in front of its array, and one that fills the array has no end.
last_slash : Str → Str
last_slash [] = []
last_slash (c ∷ []) = if c == b'/' then [] else c ∷ []
last_slash (c ∷ d ∷ s) = c ∷ last_slash (d ∷ s)

unfoldable pub script_init : Bool → Option Str → Option (Str × Bool)
unfolding last_slash strncpy
script_init memory none = some (b'.' ∷ [], memory)
script_init memory (some path) =
    if is_empty path || leb 256 (length path)
    then none
    else some (last_slash (strncpy 256 path), memory)

unfoldable pub is_allowed : Str → Bool
unfolding are_free
is_allowed name = are_free (b'.' ∷ []) name && are_free (b'/' ∷ []) name

unfoldable pub script_file : Str → Str → Str
unfolding strncpy
script_file script_path name =
    take 255 (script_path ++ b'/' ∷ (map to_lower (strncpy 256 name) ++ extension))

-- The name of a variable is behind the letter of its type.
variable : Str → Str
variable [] = []
variable (c ∷ s) = s

unfoldable pub value_text : Value → Option Str
unfolding format_int
value_text (text s) = s
value_text (number n) = some (format_int n)
value_text (char c) = some (if c == 0 then [] else c ∷ [])

module _ {T : Type 0} (tcl : Tcl T) where
  open tcl use {set_var, unset_var, eval, eval_file}

  unfoldable pub set_vars : List (Str × Value) → T → Option T
  unfolding variable value_text
  set_vars [] t = some t
  set_vars ((name, value) ∷ args) t =
      value_text value >>= λ v. set_vars args (set_var (variable name) v t)

  -- Here the names stand with their letters.
  unfoldable pub unset_vars : List (Str × Value) → T → T
  unset_vars [] t = t
  unset_vars ((name, value) ∷ args) t = unset_vars args (unset_var name t)

  module _ (write : ℕ → Str → Bool) (readable : Str → Bool) (script_path : Str) where
    -- An error is told to whom the bot answers.
    tell_error : Option Str → Str → ℤ → Str → Parent → Option Parent
    unfolding connection_send
    tell_error none name ret message s = some s
    tell_error (some nick) name ret message s =
        let error_text = take 255 (prefix_of_error ++ (name ++ b':' ∷ b' ' ∷ message)) in
        let told : Option Parent =
          connection_send write (word_notice ⌢ nick ⌢ error_text) s.connections >>= λ (c, r).
          some (record s { connections = c }) in
        if int_eq ret (pos 0) then some s else told

    aimed : ℕ → Parent → Parent
    unfolding connection_set_target
    aimed cid s = record s { connections = connection_set_target (some cid) s.connections }

    run_file : ℕ → Str → Option Str → List (Str × Value) → T → Parent → Option (T × Parent × ℤ)
    unfolding set_vars unset_vars tell_error aimed script_file
    run_file cid name reply args t s = set_vars args t >>= λ t'.
        (let (t'', s', ret, message) =
            eval_file (script_file script_path name) (eval pre_exec t') (aimed cid s) in
          tell_error reply name ret message s' >>= λ s''.
          some (unset_vars args (eval post_exec t''), s'', ret))

    unfoldable pub script_exec :
        ℕ → Str → Option Str → List (Str × Value) → T → Parent → Option (T × Parent × ℤ)
    unfolding is_allowed run_file script_file
    script_exec cid name reply args t s =
        let ran = run_file cid name reply args t s in
        if not (is_allowed name)
        then some (t, s, negsuc 0)
        else if leb 256 (length name)
        then none
        else if readable (script_file script_path name)
        then ran
        else some (t, s, negsuc 0)
