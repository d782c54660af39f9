-- ===== src/Script/Laws.antt =====
-- src/script.c: which files a script can be.
use mx3bot.Base.{
  ◌≡◌, refl, ◌∙◌, ap, ◌≤◌, ◌<◌, ◌-◌, ℕ, zero, suc, Bool, true, Bool-cases, Option-cases, inl, inr,
  Option, List, [], ◌∷◌, ◌++◌, arith, length, map, take,
}
use mx3bot.Base.Int.{ℤ}
use mx3bot.CString.{Str, strncpy, to_lower}
use mx3bot.Strtok.{IsFree, IsFree-both, are_free-IsFree, is_in}
use mx3bot.Connection.Parent.{Parent, Value}
use mx3bot.Script.{
  Tcl, aimed, extension, is_allowed, post_exec, pre_exec, run_file, script_exec, script_file,
  set_vars, unset_vars, value_text, variable,
}

abbrev slash : Str
slash = b'/' ∷ []

-- A file that stands in the directory, and not below it.
abbrev pub IsInside : Str → Str → Type 0
IsInside path file = (base : Str) × (file ≡ path ++ b'/' ∷ base) × IsFree (b'/' ∷ []) base

take_append : (n : ℕ) (a b : Str) → length a ≤ n → take n (a ++ b) ≡ a ++ take (n - length a) b
take_append n [] b h = ap (λ k. take k b) (omega arith)
take_append zero (c ∷ a) b h = absurd (omega arith)
take_append (suc n) (c ∷ a) b h =
    ap (λ s. c ∷ s) (take_append n a b (omega arith) ∙ ap (λ k. a ++ take k b) (omega arith))

IsFree-take : (n : ℕ) (s : Str) → IsFree slash s → IsFree slash (take n s)
IsFree-take zero s h = tt
IsFree-take (suc n) [] h = tt
IsFree-take (suc n) (c ∷ s) h = (h.0, IsFree-take n s h.1)

IsFree-to_lower : (s : Str) → IsFree slash s → IsFree slash (map to_lower s)
unfolding is_in
IsFree-to_lower [] h = tt
IsFree-to_lower (c ∷ s) h = (ground (arith, h.0), IsFree-to_lower s h.1)

script_file-IsInside :
    (path name : Str)
    → is_allowed name ≡ true
    → length path < 255
    → IsInside path (script_file path name)
unfolding script_file is_allowed strncpy is_in
script_file-IsInside path name h e =
    let free = are_free-IsFree slash name (ground (arith, h)) in
    let base = map to_lower (take 256 name) ++ extension in
    let base_free : IsFree slash base =
      IsFree-both slash (map to_lower (take 256 name)) extension
        (IsFree-to_lower (take 256 name) (IsFree-take 256 name free))
        (refl, (refl, (refl, (refl, tt)))) in
    let room : 255 - length path ≡ suc (254 - length path) = omega (arith, e) in
    (
      take (254 - length path) base,
      take_append 255 path (b'/' ∷ base) (omega (arith, e))
          ∙ ap (λ k. path ++ take k (b'/' ∷ base)) room,
      IsFree-take (254 - length path) base base_free,
    )

module _ {T : Type 0} (tcl : Tcl T) (eval_file' : Str → T → Parent → T × Parent × ℤ × Str) where
  abbrev pub with_eval_file : Tcl T
  with_eval_file = record tcl { eval_file = eval_file' }

  set_vars_same :
      (args : List (Str × Value)) (t : T) → set_vars with_eval_file args t ≡ set_vars tcl args t
  unfolding set_vars
  set_vars_same [] t = refl
  set_vars_same ((name, value) ∷ args) t = elim (Option-cases (value_text value)) [
    | inl e ↦ rw e refl
    | inr (v, e) ↦ rw e (set_vars_same args (tcl.set_var (variable name) v t))
  ]

  unset_vars_same :
      (args : List (Str × Value)) (t : T) → unset_vars with_eval_file args t ≡ unset_vars tcl args t
  unfolding unset_vars
  unset_vars_same [] t = refl
  unset_vars_same ((name, value) ∷ args) t = unset_vars_same args (tcl.unset_var name t)

  run_file_same :
      (write : ℕ → Str → Bool) (readable : Str → Bool) (path : Str) (cid : ℕ) (name : Str)
      (reply : Option Str) (args : List (Str × Value)) (t : T) (s : Parent)
      → ((u : T) (r : Parent)
          → eval_file' (script_file path name) u r ≡ tcl.eval_file (script_file path name) u r)
      → run_file with_eval_file write readable path cid name reply args t s
        ≡ run_file tcl write readable path cid name reply args t s
  unfolding run_file aimed
  run_file_same write readable path cid name reply args t s same =
      elim (Option-cases (set_vars tcl args t)) [
        | inl e ↦ rw (set_vars_same args t, e) refl
        | inr (u, e) ↦
            let run =
              tcl.eval_file (script_file path name) (tcl.eval pre_exec u)
                (aimed tcl write readable path cid s) in
            rw
              (
                set_vars_same args t,
                e,
                same (tcl.eval pre_exec u) (aimed tcl write readable path cid s),
                unset_vars_same args (tcl.eval post_exec run.0),
              )
              refl
      ]

  -- With a path of the scripts of less than 255 bytes, `script_exec` evaluates no file but those
  -- that stand in that directory, and not below it, whatever the name that it is given: two
  -- interpreters that do the same with these files give the same result for every name.
  pub script_exec-IsInside :
      (write : ℕ → Str → Bool) (readable : Str → Bool) (path : Str)
      → length path < 255
      → ((file : Str)
          → IsInside path file
          → (u : T) (r : Parent) → eval_file' file u r ≡ tcl.eval_file file u r)
      → (cid : ℕ) (name : Str) (reply : Option Str) (args : List (Str × Value)) (t : T) (s : Parent)
      → script_exec with_eval_file write readable path cid name reply args t s
        ≡ script_exec tcl write readable path cid name reply args t s
  unfolding script_exec
  script_exec-IsInside write readable path e same cid name reply args t s =
      elim (Bool-cases (is_allowed name)) [
        | inl allowed ↦
            let file = script_file path name in
            let inside = script_file-IsInside path name allowed e in
            rw
              (
                allowed,
                run_file_same write readable path cid name reply args t s (same file inside),
              )
              refl
        | inr refused ↦ rw refused refl
      ]
