-- ===== src/Script/Runs.antt =====
-- src/script.c: script_exec() as the functions of src/connection.c call it, on the state of the parent.
-- What Tcl_EvalFile() makes of a file depends on what the interpreter has been told before; the result is
-- the parent after the file has called back into it, with the result and its text.
use mx3bot.Base.{ℕ, Bool, Option, some, List, [], ◌∷◌, ◌++◌, ◌>>=◌}
use mx3bot.Base.Int.{ℤ}
use mx3bot.CString.{Str}
use mx3bot.Connection.Parent.{
  Parent, TclCall, Value, tcl_eval, tcl_eval_file, tcl_set_var, tcl_unset_var,
}
use mx3bot.Script.{Tcl, script_exec}

module _ (eval_file : List TclCall → Str → Parent → Parent × ℤ × Str) where
  abbrev pub interpreter : Tcl (List TclCall)
  interpreter = record {
    set_var = λ name value t. t ++ tcl_set_var name value ∷ [];
    unset_var = λ name t. t ++ tcl_unset_var name ∷ [];
    eval = λ program t. t ++ tcl_eval program ∷ [];
    eval_file = λ file t s. (
      t ++ tcl_eval_file file ∷ [],
      (eval_file t file s).0,
      (eval_file t file s).1,
      (eval_file t file s).2,
    );
  }

  unfoldable pub scripts :
      (ℕ → Str → Bool)
      → (Str → Bool)
      → Str
      → ℕ
      → Str
      → Option Str
      → List (Str × Value)
      → Parent
      → Option Parent
  unfolding script_exec
  scripts write readable script_path cid name reply args s =
      script_exec interpreter write readable script_path cid name reply args s.interp s
      >>= λ (t, s', r). some (record s' { interp = t })
