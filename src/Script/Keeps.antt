-- ===== src/Script/Keeps.antt =====
-- src/script.c: what a script leaves as it was.
use mx3bot.Base.{
  ℕ, ◌≡◌, ◌<◌, refl, Bool, true, false, Bool-cases, inl, inr, some, none, List, Yields, yields,
  arith, length, leb, load,
}
use mx3bot.Base.Int.{ℤ}
use mx3bot.CString.{Str}
use mx3bot.Connection.{Conn}
use mx3bot.Connection.Parent.{Parent, TclCall, Value}
use mx3bot.Script.{aimed, is_allowed, run_file, script_exec, script_file, set_vars, tell_error}
use mx3bot.Script.Runs.{interpreter, scripts}

-- The users are who they were, and the connection still has an entry.
abbrev pub IsKept : ℕ → Parent → Parent → Type 0
IsKept cid s s' =
    (s'.users ≡ s.users)
    × ((c : Conn)
        → load s.connections.conns cid ≡ some c
        → (c' : Conn) × (load s'.connections.conns cid ≡ some c'))

pub scripts-IsKept :
    (eval_file : List TclCall → Str → Parent → Parent × ℤ × Str) (write : ℕ → Str → Bool)
    (readable : Str → Bool) (path : Str) (cid : ℕ) (name : Str) (args : List (Str × Value))
    (s : Parent) (t : List TclCall)
    → is_allowed name ≡ true
    → length name < 256
    → set_vars (interpreter eval_file) args s.interp ≡ some t
    → ((u : List TclCall) (r : Parent) → IsKept cid r (eval_file u (script_file path name) r).0)
    → Yields (IsKept cid s) (scripts eval_file write readable path cid name none args s)
unfolding scripts script_exec run_file aimed tell_error
scripts-IsKept eval_file write readable path cid name args s t allowed short set keeps =
    let fits : leb 256 (length name) ≡ false = ground (arith, short) in
    elim (Bool-cases (readable (script_file path name))) [
      | inl there ↦
          rw (allowed, fits, there, set)
            (yields (keeps _ (aimed (interpreter eval_file) write readable path cid s)))
      | inr missing ↦ rw (allowed, fits, missing) (yields (refl, λ c e. (c, e)))
    ]
