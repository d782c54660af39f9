-- ===== src/Config/Rows.antt =====
-- src/config.c: config_get_row(), which finds a section and then returns one row at each call.
-- The static variable `cfg` is the lines that fgets() has still to return, and `config_line` a
-- count of those it has returned.
pub mod Delete
use mx3bot.Base.{
  ℕ, ◌+◌, ◌-◌, ◌≡◌, refl, Bool, true, false, Option, none, some, List, [], ◌∷◌, ◌==◌, if◌then◌else◌,
  take, Bool-cases, inl, inr,
}
use mx3bot.CString.{Str, str_eq}
use mx3bot.Strtok.{strtok}
use mx3bot.Config.{File, fgets_lines, newlines, section_name}

-- What config_get_row() takes a line for.
pub data Line : Type 0 where
  ignored : Line
  header : Option Str → Line
  row : Str → Line

line_of_token : Option Str → Line
unfolding section_name
line_of_token none = ignored
line_of_token (some []) = ignored
line_of_token (some (c ∷ p)) =
    if c == b'#' then ignored else if c == b'[' then header (section_name p) else row (c ∷ p)

unfoldable pub line_of : Str → Line
unfolding line_of_token strtok
line_of buffer = line_of_token (strtok buffer newlines).0

unfoldable pub is_section : Str → Line → Bool
unfolding str_eq
is_section section ignored = false
is_section section (row p) = false
is_section section (header none) = false
is_section section (header (some p)) = str_eq p section

-- A call with a file and a section, on its lines: `config_line` and the lines behind the section's
-- header, or `none` for CONFIG_DONE.
unfoldable pub open_rows : Str → ℕ → List Str → Option (ℕ × List Str)
unfolding is_section line_of
open_rows section line [] = none
open_rows section line (l ∷ ls) =
    if is_section section (line_of l) then some (line + 1, ls) else open_rows section (line + 1) ls

next_of : ℕ → ℕ → List Str → Option (Str × ℕ × List Str) → Line → Option (Str × ℕ × List Str)
next_of len line ls rest ignored = rest
next_of len line ls rest (header p) = none
next_of len line ls rest (row p) = some (take (len - 1) p, line, ls)

-- A call with neither, and with a buffer of `len` bytes: the row, `config_line` and the lines that
-- are left, or `none` for CONFIG_DONE.
unfoldable pub next_row : ℕ → ℕ → List Str → Option (Str × ℕ × List Str)
unfolding line_of next_of
next_row len line [] = none
next_row len line (l ∷ ls) = next_of len (line + 1) ls (next_row len (line + 1) ls) (line_of l)

collect : ℕ → List (ℕ × Str) → Line → List (ℕ × Str)
collect line rest ignored = rest
collect line rest (header p) = []
collect line rest (row p) = (line, take 511 p) ∷ rest

-- The rows that `while(config_get_row(NULL, NULL, row, 512) == CONFIG_OK)` goes through, each with
-- its `config_line`.
unfoldable pub rows_from : ℕ → List Str → List (ℕ × Str)
unfolding line_of collect
rows_from line [] = []
rows_from line (l ∷ ls) = collect (line + 1) (rows_from (line + 1) ls) (line_of l)

rows_behind : Option (ℕ × List Str) → List (ℕ × Str)
unfolding rows_from
rows_behind none = []
rows_behind (some (line, ls)) = rows_from line ls

rows_of_bytes : Str → Option Str → List (ℕ × Str)
unfolding rows_behind open_rows fgets_lines
rows_of_bytes section none = []
rows_of_bytes section (some bytes) = rows_behind (open_rows section 0 (fgets_lines bytes))

-- The rows of a section, from a call with the file and the section on; none where that call does
-- not return CONFIG_OK.
unfoldable pub config_rows : File → Str → List (ℕ × Str)
unfolding rows_of_bytes
config_rows file section = rows_of_bytes section file.bytes

abbrev looped : Option (Str × ℕ × List Str) → List (ℕ × Str)
looped none = []
looped (some (p, line, ls)) = (line, p) ∷ rows_from line ls

collect-next_of :
    (line : ℕ) (ls : List Str) (rest : Option (Str × ℕ × List Str)) (k : Line)
    → rows_from line ls ≡ looped rest
    → collect line (rows_from line ls) k ≡ looped (next_of 512 line ls rest k)
unfolding collect next_of
collect-next_of line ls rest ignored h = h
collect-next_of line ls rest (header p) h = refl
collect-next_of line ls rest (row p) h = refl

-- rows_from() is the loop over next_row().
rows_from-next_row : (line : ℕ) (ls : List Str) → rows_from line ls ≡ looped (next_row 512 line ls)
unfolding rows_from next_row
rows_from-next_row line [] = refl
rows_from-next_row line (l ∷ ls) =
    collect-next_of (line + 1) ls (next_row 512 (line + 1) ls) (line_of l)
      (rows_from-next_row (line + 1) ls)
