-- ===== src/Db/Text/Var.antt =====
-- src/db/text/var.c: rows of `uid name value`.
use mx3bot.Base.{
  ℕ, ◌-◌, Bool, true, false, ◌&&◌, Option, none, some, List, [], ◌∷◌, ◌++◌, if◌then◌else◌, take,
  ◌>>=◌,
}
use mx3bot.Base.Int.{ℤ, pos, int_eq}
use mx3bot.CString.{Str, str_case_eq}
use mx3bot.CString.Number.{atoi, format_int}
use mx3bot.Config.{File, Status, error, okay, done, not_found, config_get_str}
use mx3bot.Config.Rows.{config_rows}
use mx3bot.Config.Write.{config_add_row, config_set_row, or_null}
use mx3bot.Db.Text.{first_row, is_okay, unset_rows, word}
use mx3bot.Strtok.{strtok}

abbrev vars : Str
vars = b'v' ∷ b'a' ∷ b'r' ∷ b's' ∷ []

-- The row is of that user and that name.
is_var : ℤ → Str → Str → Bool
unfolding strtok atoi str_case_eq
is_var uid name r =
    let (u, s1) = word r in
    let n = (word s1).0 in
    elim u [
      | none ↦ false
      | some u' ↦ elim n [ none ↦ false | some n' ↦ int_eq (atoi u') uid && str_case_eq n' name ]
    ]

abbrev var_text : ℤ → Str → Option Str → Str
var_text uid name val = take 511 (format_int uid ++ b'\t' ∷ (name ++ b'\t' ∷ or_null val))

-- The row that replaces the one that was found: a value of NULL takes it away.
abbrev pub new_row : ℤ → Str → Option Str → Option Str
new_row uid name none = none
new_row uid name (some val) = some (var_text uid name (some val))

put_var : File → ℤ → Str → Option Str → Option ℕ → Option (File × Bool)
unfolding config_set_row config_add_row format_int
put_var file uid name val (some line) =
    let (file', r) = config_set_row file line (new_row uid name val) in some (file', is_okay r)
put_var file uid name val none =
    config_add_row file vars (var_text uid name val) >>= λ (file', r). some (file', is_okay r)

unfoldable pub var_set : File → ℤ → Option Str → Option Str → Option (File × Bool)
unfolding put_var first_row is_var config_rows
var_set file uid none val = some (file, false)
var_set file uid (some name) val =
    put_var file uid name val (first_row (is_var uid name) (config_rows file vars))

-- The value of a row that has one, and that is of that user and that name.
var_value : ℤ → Str → Str → Option Str
unfolding strtok atoi str_case_eq
var_value uid name r =
    let (u, s1) = word r in
    let (n, s2) = word s1 in
    (strtok s2 []).0 >>= λ v.
    u >>= λ u'. n >>= λ n'. if int_eq (atoi u') uid && str_case_eq name n' then some v else none

first_value : ℤ → Str → List (ℕ × Str) → Option Str
unfolding var_value
first_value uid name [] = none
first_value uid name ((line, r) ∷ rows) = elim (var_value uid name r) [
  | none ↦ first_value uid name rows
  | some v ↦ some v
]

-- `none` is -1.
unfoldable pub var_get : File → ℤ → Str → ℕ → Option Str
unfolding first_value config_rows
var_get file uid name len =
    first_value uid name (config_rows file vars) >>= λ v. some (take (len - 1) v)

unfoldable pub var_get_def : File → ℤ → Str → ℕ → Str → Str
unfolding var_get
var_get_def file uid name len def = elim (var_get file uid name len) [
  | some v ↦ v
  | none ↦ take (len - 1) def
]

-- One pass of the loop of text_var_set_unique(), on what config_get_str() returns for `num`.
unique_num : ℕ → Option (ℕ × Bool) → Status × Option Str → Option (ℕ × Bool)
unique_num num rest (error, s) = some (0, false)
unique_num num rest (not_found, s) = some (num, true)
unique_num num rest (okay, s) = rest
unique_num num rest (done, s) = rest

-- The numbers are those of `rand() & 0x7fffffff`; `none` where they are not enough, or for a crash.
find_unique : File → List ℕ → Option (ℕ × Bool)
unfolding unique_num config_get_str format_int
find_unique file [] = none
find_unique file (num ∷ nums) =
    config_get_str file vars (format_int (pos num)) 0 >>= unique_num num (find_unique file nums)

-- The number, and 0 for a failure.
unfoldable pub var_set_unique : File → ℤ → Option Str → List ℕ → Option (File × ℕ)
unfolding find_unique var_set format_int
var_set_unique file uid val nums = find_unique file nums >>= λ (num, found).
    (let stored : Option (File × ℕ) =
        var_set file uid (some (format_int (pos num))) val >>= λ (file', r). some (file', num) in
      if found then stored else some (file, 0))

unfoldable pub var_deluser : ℤ → ℕ → File → Option File
unfolding unset_rows format_int
var_deluser uid fuel file = unset_rows vars (format_int uid) fuel file
