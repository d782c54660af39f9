-- ===== src/Config.antt =====
-- src/config.c: reading from a text file of sections and rows.
-- A file is its bytes, none of them 0; `none` is a file that cannot be opened. A FILE that is read
-- by fgets() is the list of the texts that fgets() has still to return. A result of `none`, outside
-- that of the function, is a read through NULL or past the end of a buffer.
pub mod Lines
pub mod Read
pub mod RoundTrip
pub mod Rows
mod Tests
pub mod Write
use mx3bot.Base.{
  ℕ, zero, suc, ◌+◌, ◌-◌, Bool, true, false, ◌&&◌, ◌||◌, Option, none, some, List, [], ◌∷◌, ◌++◌,
  ◌==◌, if◌then◌else◌, take,
}
use mx3bot.Base.Int.{ℤ, pos, negsuc, int_eq}
use mx3bot.CString.{Str, is_digit, is_empty, str_case_eq, str_eq}
use mx3bot.CString.Number.{atoi}
use mx3bot.Strtok.{skip_delims, strtok}

-- CONFIG_*
pub data Status : Type 0 where
  error okay done not_found : Status

-- A file of the file system: `writable` says whether fopen() opens it for writing.
pub record File : Type 0 where
  pub bytes : Option Str
  pub writable : Bool

abbrev pub push : ℕ → List Str → List Str
push c [] = (c ∷ []) ∷ []
push c (l ∷ ls) = (c ∷ l) ∷ ls

-- The texts that fgets() returns: up to a newline, or as much as fits; `room` is what is left of
-- the buffer for the text that is read.
unfoldable pub split_lines : ℕ → Str → List Str
split_lines room [] = []
split_lines room (c ∷ s) =
    let ended = (c ∷ []) ∷ split_lines 1023 s in
    let going = push c (split_lines (room - 1) s) in
    if c == b'\n' || room == 1 then ended else going

-- All that `fgets(buffer, 1024, cfg)` returns.
unfoldable pub fgets_lines : Str → List Str
unfolding split_lines
fgets_lines s = split_lines 1023 s

abbrev pub blanks : Str
blanks = b' ' ∷ b'\t' ∷ []

abbrev pub newlines : Str
newlines = b'\r' ∷ b'\n' ∷ []

abbrev pub blanks_newlines : Str
blanks_newlines = b' ' ∷ b'\t' ∷ b'\r' ∷ b'\n' ∷ []

abbrev closing : Str
closing = b']' ∷ []

-- What stands in brackets, behind the first: `p++; p = strtok(p, "]")`.
unfoldable pub section_name : Str → Option Str
unfolding strtok
section_name p = (strtok p closing).0

names_section : Str → Option Str → Bool
unfolding str_eq
names_section section none = false
names_section section (some p) = str_eq p section

value_of : Option Str → Option (Option Str)
unfolding skip_delims
value_of none = none
value_of (some p) = some (some (skip_delims blanks p))

-- One pass of the loop of config_get_str(), on the first token of the line and what is behind it;
-- `rest` are the passes that follow, by `sect`.
get_str_line :
    (Bool → Option (Option Str)) → Str → Str → Bool → Option Str × Str → Option (Option Str)
unfolding section_name names_section value_of str_eq strtok
get_str_line rest section name sect (none, s) = rest sect
get_str_line rest section name sect (some [], s) = rest sect
get_str_line rest section name sect (some (c ∷ p), s) =
    if c == b'#'
    then rest sect
    else if c == b'['
    then rest (names_section section (section_name p))
    else if sect && str_eq (c ∷ p) name
    then value_of (strtok s newlines).0
    else rest sect

unfoldable pub get_str_loop : Str → Str → Bool → List Str → Option (Option Str)
unfolding get_str_line strtok
get_str_loop section name sect [] = some none
get_str_loop section name sect (l ∷ ls) =
    get_str_line (λ sect'. get_str_loop section name sect' ls) section name sect
      (strtok l blanks_newlines)

found_str : ℕ → Option Str → Status × Option Str
found_str maxlen none = (not_found, none)
found_str maxlen (some p) = (okay, some (take (maxlen - 1) p))

found_at_all : ℕ → Option (Option Str) → Option (Status × Option Str)
unfolding found_str
found_at_all maxlen none = none
found_at_all maxlen (some r) = some (found_str maxlen r)

get_str_bytes : Str → Str → ℕ → Option Str → Option (Status × Option Str)
unfolding found_at_all get_str_loop fgets_lines
get_str_bytes section name maxlen none = some (error, none)
get_str_bytes section name maxlen (some bytes) =
    found_at_all maxlen (get_str_loop section name false (fgets_lines bytes))

-- The text is what `buf` is set to, of `maxlen` bytes with its terminator, where the status is
-- `okay`.
unfoldable pub config_get_str : File → Str → Str → ℕ → Option (Status × Option Str)
unfolding get_str_bytes
config_get_str file section name maxlen = get_str_bytes section name maxlen file.bytes

int_of : Option (Status × Option Str) → Option (Status × Option ℤ)
unfolding atoi
int_of none = none
int_of (some (r, none)) = some (r, none)
int_of (some (r, some buf)) = some (okay, some (atoi buf))

unfoldable pub config_get_int : File → Str → Str → Option (Status × Option ℤ)
unfolding int_of config_get_str
config_get_int file section name = int_of (config_get_str file section name 64)

-- `isdigit(buf[0])`
begins_with_digit : Str → Bool
begins_with_digit [] = false
begins_with_digit (c ∷ s) = is_digit c

abbrev true_words : List Str
true_words =
    (b't' ∷ b'r' ∷ b'u' ∷ b'e' ∷ [])
    ∷ (b't' ∷ [])
    ∷ (b'y' ∷ b'e' ∷ b's' ∷ [])
    ∷ (b'y' ∷ [])
    ∷ (b'o' ∷ b'n' ∷ [])
    ∷ []

abbrev false_words : List Str
false_words =
    (b'f' ∷ b'a' ∷ b'l' ∷ b's' ∷ b'e' ∷ [])
    ∷ (b'f' ∷ [])
    ∷ (b'n' ∷ b'o' ∷ [])
    ∷ (b'n' ∷ [])
    ∷ (b'o' ∷ b'f' ∷ b'f' ∷ [])
    ∷ []

any_case_eq : Str → List Str → Bool
unfolding str_case_eq
any_case_eq buf [] = false
any_case_eq buf (w ∷ ws) = str_case_eq buf w || any_case_eq buf ws

bool_value : Str → Option Bool
unfolding any_case_eq atoi begins_with_digit
bool_value buf =
    if any_case_eq buf true_words || int_eq (atoi buf) (pos 1)
    then some true
    else if any_case_eq buf false_words || (begins_with_digit buf && int_eq (atoi buf) (pos 0))
    then some false
    else none

bool_found : Option Bool → Status × Option Bool
bool_found none = (error, none)
bool_found (some b) = (okay, some b)

bool_of : Option (Status × Option Str) → Option (Status × Option Bool)
unfolding bool_value bool_found
bool_of none = none
bool_of (some (r, none)) = some (r, none)
bool_of (some (r, some buf)) = some (bool_found (bool_value buf))

unfoldable pub config_get_bool : File → Str → Str → Option (Status × Option Bool)
unfolding bool_of config_get_str
config_get_bool file section name = bool_of (config_get_str file section name 64)

unfoldable pub config_bool_str : ℤ → Str
config_bool_str val =
    if int_eq val (pos 0)
    then b'f' ∷ b'a' ∷ b'l' ∷ b's' ∷ b'e' ∷ []
    else if int_eq val (pos 1)
    then (b't' ∷ b'r' ∷ b'u' ∷ b'e' ∷ [])
    else b'i' ∷ b'n' ∷ b'v' ∷ b'a' ∷ b'l' ∷ b'i' ∷ b'd' ∷ []
