-- ===== src/Db/Text.antt =====
-- src/db/text/: what the files below it share. Each database is one file of src/config.c, and a
-- loop over its rows is a recursion on the rows that config_get_row() returns.
pub mod Auth
pub mod Ban
pub mod Delete
pub mod Endless
pub mod Mode
pub mod Note
mod Tests
pub mod Users
pub mod Var
use mx3bot.Base.{
  ℕ, zero, suc, ◌+◌, ◌-◌, Bool, true, false, Option, none, some, List, [], ◌∷◌, ◌++◌, ltb,
  if◌then◌else◌, take, length, ◌>>=◌,
}
use mx3bot.Base.Int.{ℤ, pos, negsuc, int_lt}
use mx3bot.CString.{Str}
use mx3bot.CString.Number.{atoi}
use mx3bot.Config.{File, Status, error, okay, done, not_found, blanks}
use mx3bot.Config.Rows.{config_rows}
use mx3bot.Config.Write.{config_set_row, config_set_str}
use mx3bot.Misc.Mask.{mask_match}
use mx3bot.Strtok.{strtok}

-- `strtok(s, " \t")`
abbrev pub word : Str → Option Str × Str
word s = strtok s blanks

-- mask_match() returns on every mask and value.
unfoldable pub matches : (Str → Str → Bool) → Str → Str → Bool
unfolding mask_match
matches regex mask val = elim (mask_match regex mask val) [ none ↦ false | some b ↦ b ]

-- `config_line` of the first row that is to be deleted.
unfoldable pub first_row : (Str → Bool) → List (ℕ × Str) → Option ℕ
first_row test [] = none
first_row test ((line, r) ∷ rows) = if test r then some line else first_row test rows

-- The loop that closes the file, deletes a row and opens the file again, as long as there is a row
-- to delete. It does not look at what config_set_row() returns.
unfoldable pub delete_rows : (Str → Bool) → Str → ℕ → File → Option File
unfolding first_row config_rows config_set_row
delete_rows test section zero file = none
delete_rows test section (suc fuel) file = elim (first_row test (config_rows file section)) [
  | none ↦ some file
  | some line ↦ delete_rows test section fuel (config_set_row file line none).0
]

abbrev pub is_okay : Status → Bool
is_okay error = false
is_okay okay = true
is_okay done = false
is_okay not_found = false

again : (File → Option File) → Option (File × Status) → Option File
again rest none = none
again rest (some (file, error)) = some file
again rest (some (file, okay)) = rest file
again rest (some (file, done)) = some file
again rest (some (file, not_found)) = some file

-- `while(config_set_str(cfgname, section, name, NULL) == CONFIG_OK);`
unfoldable pub unset_rows : Str → Str → ℕ → File → Option File
unfolding again config_set_str
unset_rows section name zero file = none
unset_rows section name (suc fuel) file =
    again (unset_rows section name fuel) (config_set_str file section (some name) none)

-- The greatest id of the rows, each the first word of its row; atoi() of no word reads through NULL.
unfoldable pub greatest_id : ℤ → List (ℕ × Str) → Option ℤ
unfolding atoi
greatest_id id [] = some id
greatest_id id ((line, r) ∷ rows) = elim (word r).0 [
  | none ↦ none
  | some w ↦ greatest_id (if int_lt id (atoi w) then atoi w else id) rows
]

-- `id++`
abbrev pub int_suc : ℤ → ℤ
int_suc (pos n) = pos (n + 1)
int_suc (negsuc zero) = pos 0
int_suc (negsuc (suc n)) = negsuc n

unfoldable pub select : (Str → Option Str) → List (ℕ × Str) → List Str
select choose [] = []
select choose ((line, r) ∷ rows) = elim (choose r) [
  | none ↦ select choose rows
  | some w ↦ w ∷ select choose rows
]

-- A list of words with a space behind each. It ends before the word that would make it longer than
-- `limit`, that word's space not counted.
gather : ℕ → Str → List Str → Str
gather limit list [] = list
gather limit list (w ∷ ws) =
    let rest = gather limit (list ++ (w ++ b' ' ∷ [])) ws in
    if ltb limit (length list + length w) then list else rest

-- The last space is cut off.
unfoldable pub id_list : ℕ → List Str → Str
unfolding gather
id_list limit ws = let list = gather limit [] ws in take (length list - 1) list
