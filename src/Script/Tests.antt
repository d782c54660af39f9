-- ===== src/Script/Tests.antt =====
-- A script of a user, with an interpreter that counts.
use mx3bot.Base.{◌≡◌, refl, ℕ, suc, true, some, [], ◌∷◌, arith}
use mx3bot.Base.Int.{ℤ, pos}
use mx3bot.CString.{Str}
use mx3bot.Connection.Parent.{Parent, text}
use mx3bot.Connection.Samples.{ann, parent}
use mx3bot.Script.{Tcl, script_exec}
use mx3bot.Script.Laws.{IsInside, script_exec-IsInside, with_eval_file}

abbrev dir : Str
dir = b's' ∷ []

abbrev hello : Str
hello = b'H' ∷ b'i' ∷ []

abbrev counting : Tcl ℕ
counting = record {
  set_var = λ name value t. suc t;
  unset_var = λ name t. t;
  eval = λ program t. t;
  eval_file = λ file t s. (t, s, pos 0, []);
}

-- An interpreter that fails without a file.
abbrev fails : Str → ℕ → Parent → ℕ × Parent × ℤ × Str
fails [] t s = (t, s, pos 1, [])
fails (c ∷ file) t s = (t, s, pos 0, [])

works_inside :
    (file : Str) → IsInside dir file → (t : ℕ) (s : Parent) → fails file t s ≡ (t, s, pos 0, [])
works_inside file (base, e, free) t s = rw e refl

script_exec-IsInside_example :
    script_exec
      (with_eval_file counting fails)
      (λ n s. true)
      (λ file. true)
      dir
      0
      hello
      (some ann)
      ((b'S' ∷ b'n' ∷ [], text (some ann)) ∷ [])
      4
      parent
    ≡ script_exec counting
        (λ n s. true)
        (λ file. true)
        dir
        0
        hello
        (some ann)
        ((b'S' ∷ b'n' ∷ [], text (some ann)) ∷ [])
        4
        parent
script_exec-IsInside_example =
    script_exec-IsInside counting fails (λ n s. true) (λ file. true) dir (omega arith) works_inside
      0 hello (some ann) ((b'S' ∷ b'n' ∷ [], text (some ann)) ∷ []) 4 parent
