-- ===== src/Config/Write.antt =====
-- src/config.c: changing a file. The file is read whole, and written again from the bytes before the
-- change, the new row, and the bytes behind it.
-- fwrite() and fprintf() write all of what they are given, and malloc() gives memory.
pub mod Delete
pub mod Laws
pub mod Put
pub mod Splice
use mx3bot.Base.{
  ℕ, zero, suc, ◌+◌, ◌-◌, Bool, true, false, ◌||◌, Option, none, some, List, [], ◌∷◌, ◌++◌, ◌==◌,
  if◌then◌else◌, take, drop, length, map,
}
use mx3bot.CString.{Str, is_empty, str_case_eq}
use mx3bot.Strtok.{skip_delims, strtok}
use mx3bot.Config.{File, Status, error, okay, blanks}

-- The lines that the loop of config_set_str() reads, each with its offset and its text. Where the
-- file does not end in a line break the last one is read past the end of the buffer.
pub data Lines : Type 0 where
  done overrun : Lines
  line : ℕ → Str → Lines → Lines

abbrev pub push : ℕ → Lines → Lines
push c done = done
push c overrun = overrun
push c (line start l ls) = line start (c ∷ l) ls

abbrev pub is_break : ℕ → Bool
is_break c = c == b'\r' || c == b'\n'

-- `line_start` is where the text that is read began, `j` how much of it has been read, and `i` the
-- place in the buffer. read_break() is between two lines.
unfoldable pub read_lines : Bool → ℕ → ℕ → ℕ → Str → Lines
read_lines true line_start j i [] = done
read_lines false line_start j i [] = overrun
read_lines true line_start j i (c ∷ s) =
    let next = push c (read_lines false i 1 (i + 1) s) in
    let skip = read_lines true line_start j (i + 1) s in if is_break c then skip else next
read_lines false line_start j i (c ∷ s) =
    let ended = line line_start [] (read_lines true line_start j (i + 1) s) in
    let full = line line_start [] (push c (read_lines false i 1 (i + 1) s)) in
    let going = push c (read_lines false line_start (j + 1) (i + 1) s) in
    if is_break c then ended else if j == 1023 then full else going

-- `while(i < length)`
unfoldable pub set_lines : Str → Lines
unfolding read_lines
set_lines [] = done
set_lines (c ∷ s) = read_lines false 0 0 0 (c ∷ s)

-- What the loop has found: the end of the section's header, and the range to replace.
pub record Place : Type 0 where
  pub sect : Option ℕ
  pub replace : Option (ℕ × ℕ)

-- A header: `id` is what stands in the brackets. A second one ends the loop.
set_header :
    (Place → Option Place) → Str → Option Str → ℕ → Place → Option ℕ → Option Str → Option Place
unfolding str_case_eq
set_header rest section name finish place (some sect) id = some place
set_header rest section name finish place none none = none
set_header rest section none finish place none (some id) =
    if str_case_eq id section
    then some (record place { replace = some (finish + 1, finish + 1) })
    else rest place
set_header rest section (some name) finish place none (some id) =
    if str_case_eq id section then rest (record place { sect = some finish }) else rest place

abbrev is_row_name : Option Str → Str → Bool
is_row_name none id = false
is_row_name (some name) id = str_case_eq id name

set_row_line : (Place → Option Place) → Option Str → ℕ → ℕ → Str → Place → Option ℕ → Option Place
unfolding str_case_eq
set_row_line rest name start finish id place none = rest place
set_row_line rest name start finish id place (some sect) =
    if is_row_name name id
    then rest (record place { replace = some (start, finish + 1) })
    else rest place

set_line :
    (Place → Option Place) → Str → Option Str → ℕ → ℕ → Place → Option Str × Str → Option Place
unfolding set_header set_row_line strtok
set_line rest section name start finish place (none, s) = rest place
set_line rest section name start finish place (some [], s) = rest place
set_line rest section name start finish place (some (c ∷ id), s) =
    if c == b'['
    then set_header rest section name finish place place.sect (strtok id (b']' ∷ [])).0
    else set_row_line rest name start finish (c ∷ id) place place.sect

-- A line that begins with `#`, or has nothing but blanks, is passed over.
past_comment : (Place → Option Place) → (Str → Option Place) → Place → Str → Option Place
past_comment rest parse place [] = rest place
past_comment rest parse place (c ∷ p) = if c == b'#' then rest place else parse (c ∷ p)

unfoldable pub set_loop : Str → Option Str → Place → Lines → Option Place
unfolding past_comment set_line strtok skip_delims
set_loop section name place done = some place
set_loop section name place overrun = none
set_loop section name place (line start text ls) =
    past_comment (λ place'. set_loop section name place' ls)
      (λ p.
        set_line (λ place'. set_loop section name place' ls) section name start
          (start + length text) place (strtok p blanks))
      place (skip_delims blanks text)

abbrev pub or_null : Option Str → Str
or_null none = b'(' ∷ b'n' ∷ b'u' ∷ b'l' ∷ b'l' ∷ b')' ∷ []
or_null (some s) = s

-- The row that is written: printf() writes a null pointer as `(null)`.
abbrev pub row_text : Option Str → Option Str → Str
row_text none val = take 1023 (or_null val)
row_text (some name) val = take 1023 (name ++ b'\t' ∷ or_null val)

config_write : File → Str → ℕ → ℕ → Option Str → File × Status
config_write file buf start finish none =
    if file.writable
    then (record file { bytes = some (take start buf ++ drop finish buf) }, okay)
    else (file, error)
config_write file buf start finish (some row) =
    if file.writable
    then (record file { bytes = some (take start buf ++ (row ++ b'\n' ∷ drop finish buf)) }, okay)
    else (file, error)

-- Where the row was not found it is put behind the header of the section.
behind_header : Option Str → Option ℕ → Option (ℕ × ℕ)
behind_header none sect = none
behind_header (some val) none = none
behind_header (some val) (some sect) = some (sect + 1, sect + 1)

range : Option Str → Place → Option (ℕ × ℕ) → Option (ℕ × ℕ)
unfolding behind_header
range val place none = behind_header val place.sect
range val place (some r) = some r

set_range : File → Str → Option Str → Option Str → Option (ℕ × ℕ) → File × Status
unfolding config_write
set_range file buf name val none = (file, error)
set_range file buf name val (some (start, finish)) =
    config_write file buf start finish (some (row_text name val))

set_place : File → Str → Option Str → Option Str → Option Place → Option (File × Status)
unfolding set_range range
set_place file buf name val none = none
set_place file buf name val (some place) =
    some (set_range file buf name val (range val place place.replace))

set_bytes : File → Str → Option Str → Option Str → Option Str → Option (File × Status)
unfolding set_place set_loop set_lines
set_bytes file section name val none = some (file, error)
set_bytes file section name val (some buf) =
    set_place file buf name val
      (set_loop section name (record { sect = none; replace = none }) (set_lines buf))

unfoldable pub config_set_str : File → Str → Option Str → Option Str → Option (File × Status)
unfolding set_bytes
config_set_str file section name val = set_bytes file section name val file.bytes

unfoldable pub config_add_row : File → Str → Str → Option (File × Status)
unfolding config_set_str
config_add_row file section row = config_set_str file section none (some row)

-- The bytes before the line that is `n` line breaks further on, and those from there on.
unfoldable pub row_start : ℕ → Str → Option (Str × Str)
row_start zero s = some ([], s)
row_start (suc n) [] = none
row_start (suc n) (c ∷ s) = elim (row_start (if c == b'\n' then n else suc n) s) [
  | none ↦ none
  | some (before, from) ↦ some (c ∷ before, from)
]

unfoldable pub after_row : Str → Str
after_row [] = []
after_row (c ∷ s) = if c == b'\n' then s else after_row s

set_row_at : File → Option Str → Str → Option (Str × Str) → File × Status
unfolding config_write after_row
set_row_at file row buf none = (file, error)
set_row_at file row buf (some (before, from)) =
    config_write file buf (length before) (length buf - length (after_row from)) row

set_row_bytes : File → ℕ → Option Str → Option Str → File × Status
unfolding set_row_at row_start
set_row_bytes file rownum row none = (file, error)
set_row_bytes file zero row (some buf) = (file, error)
set_row_bytes file (suc n) row (some buf) = set_row_at file row buf (row_start n buf)

-- Rows are counted from 1.
unfoldable pub config_set_row : File → ℕ → Option Str → File × Status
unfolding set_row_bytes
config_set_row file rownum row = set_row_bytes file rownum row file.bytes
