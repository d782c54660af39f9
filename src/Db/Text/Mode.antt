-- ===== src/Db/Text/Mode.antt =====
-- src/db/text/mode.c: rows of `uid network channel mode parameter`. A network or channel of NULL is
-- written as `-`.
use mx3bot.Base.{
  ℕ, ◌-◌, Bool, true, false, ◌&&◌, ◌||◌, Option, none, some, List, [], ◌∷◌, ◌++◌, ◌==◌, leb,
  if◌then◌else◌, take, ◌>>=◌,
}
use mx3bot.Base.Int.{ℤ, pos, int_eq}
use mx3bot.CString.{Str, str_case_eq, str_eq, to_lower}
use mx3bot.CString.Number.{atoi, format_int}
use mx3bot.Config.{File}
use mx3bot.Config.Rows.{config_rows}
use mx3bot.Config.Write.{config_add_row, config_set_row}
use mx3bot.Db.Text.{id_list, select, unset_rows, word}
use mx3bot.Strtok.{strtok}

abbrev pub modes : Str
modes = b'm' ∷ b'o' ∷ b'd' ∷ b'e' ∷ b's' ∷ []

abbrev pub dash : Str
dash = b'-' ∷ []

abbrev is_alpha : ℕ → Bool
is_alpha c = (leb b'A' c && leb c b'Z') || (leb b'a' c && leb c b'z')

-- Whether a word is the network or channel that is meant.
abbrev meant : Option Str → Str → Bool
meant none w = str_eq w dash
meant (some x) w = str_case_eq w x

-- `mode[0]`
abbrev letter : Str → ℕ
letter [] = 0
letter (c ∷ s) = c

-- text_mode_set() on a row: the words are compared whether or not they are there.
set_here : ℤ → Option Str → Option Str → ℕ → Str → Option Bool
unfolding strtok str_eq str_case_eq atoi
set_here uid net chan c r =
    let (u, s1) = word r in
    let (n, s2) = word s1 in
    let (ch, s3) = word s2 in
    let (m, s4) = word s3 in
    n >>= λ n'. ch >>= λ ch'. u >>= λ u'.
    (let found : Option Bool = m >>= λ m'. some (c == letter m') in
      if int_eq (atoi u') uid && (meant net n' && meant chan ch') then found else some false)

found_row : Option (Option ℕ) → ℕ → Option Bool → Option (Option ℕ)
found_row rest line none = none
found_row rest line (some true) = some (some line)
found_row rest line (some false) = rest

-- `config_line` of the row to replace.
row_to_replace : ℤ → Option Str → Option Str → ℕ → List (ℕ × Str) → Option (Option ℕ)
unfolding found_row set_here
row_to_replace uid net chan c [] = some none
row_to_replace uid net chan c ((line, r) ∷ rows) =
    found_row (row_to_replace uid net chan c rows) line (set_here uid net chan c r)

without_row : File → Option ℕ → File
unfolding config_set_row
without_row file none = file
without_row file (some line) = (config_set_row file line none).0

abbrev or_dash : Option Str → Str
or_dash none = dash
or_dash (some s) = s

abbrev or_nothing : Option Str → Str
or_nothing none = []
or_nothing (some s) = s

abbrev mode_row_text : ℤ → Option Str → Option Str → ℕ → Option Str → Str
mode_row_text uid net chan c param = take 511 (
    format_int uid
    ++ b'\t' ∷ (or_dash net ++ b'\t' ∷ (or_dash chan ++ b'\t' ∷ c ∷ b'\t' ∷ or_nothing param)))

-- The mode `c` is taken away, and put back with `add`.
set_mode : File → ℤ → Option Str → Option Str → Bool → ℕ → Option Str → Option File
unfolding row_to_replace without_row config_add_row config_rows format_int
set_mode file uid net chan add c param =
    row_to_replace uid net chan c (config_rows file modes) >>= λ line.
    (let file' = without_row file line in
      let added : Option File =
        config_add_row file' modes (mode_row_text uid net chan c param) >>= λ (file'', r).
        some file'' in
      if add then added else some file')

unfoldable pub mode_set : File → ℤ → Option Str → Option Str → Str → Option Str → Option File
unfolding set_mode
mode_set file uid net chan [] param = some file
mode_set file uid net chan (sign ∷ []) param = some file
mode_set file uid net chan (sign ∷ c ∷ s) param =
    let changed = set_mode file uid net chan (sign == b'+') c param in
    if (sign == b'+' || sign == b'-') && is_alpha c then changed else some file

-- A row that has the first four words, and what is behind them.
pub record ModeWords : Type 0 where
  pub uid : Str
  pub net : Str
  pub chan : Str
  pub flag : Str
  pub param : Option Str

mode_words : Str → Option ModeWords
unfolding strtok
mode_words r =
    let (u, s1) = word r in
    let (n, s2) = word s1 in
    let (ch, s3) = word s2 in
    let (m, s4) = word s3 in
    u >>= λ u'. n >>= λ n'. ch >>= λ ch'. m >>= λ m'.
    some (record { uid = u'; net = n'; chan = ch'; flag = m'; param = (strtok s4 []).0 })

is_mode_of : ℤ → Option Str → Option Str → ModeWords → Bool
unfolding atoi str_eq str_case_eq
is_mode_of uid net chan w = int_eq (atoi w.uid) uid && (meant net w.net && meant chan w.chan)

letter_of : (ModeWords → Bool) → Option ModeWords → Option Str
letter_of test none = none
letter_of test (some w) = if test w then some (to_lower (letter w.flag) ∷ []) else none

abbrev concat : List Str → Str
concat [] = []
concat (s ∷ ss) = s ++ concat ss

-- At most 62 letters are listed.
unfoldable pub mode_get : File → ℤ → Option Str → Option Str → Str
unfolding letter_of is_mode_of mode_words select config_rows
mode_get file uid net chan = take 62 (
    concat
      (select (λ r. letter_of (is_mode_of uid net chan) (mode_words r)) (config_rows file modes)))

-- The parameter of the first row of that mode.
first_mode : (ModeWords → Bool) → ℕ → List (ℕ × Str) → Option ModeWords
unfolding mode_words
first_mode test c [] = none
first_mode test c ((line, r) ∷ rows) = elim (mode_words r) [
  | none ↦ first_mode test c rows
  | some w ↦ if test w && (to_lower (letter w.flag) == c) then some w else first_mode test c rows
]

-- 1 with what `_param` is set to, up to `len`, or 0.
unfoldable pub mode_check : File → ℤ → Option Str → Option Str → ℕ → ℕ → Option Str
unfolding first_mode is_mode_of config_rows
mode_check file uid net chan c len =
    first_mode (is_mode_of uid net chan) c (config_rows file modes) >>= λ w.
    some (take (len - 1) (or_nothing w.param))

chan_of : Str → ℕ → Option ModeWords → Option Str
unfolding str_case_eq atoi
chan_of net c none = none
chan_of net c (some w) =
    if str_case_eq net w.net && ((to_lower (letter w.flag) == c) && int_eq (atoi w.uid) (pos 0))
    then some w.chan
    else none

unfoldable pub mode_get_chan_list : File → Str → ℕ → Str
unfolding chan_of mode_words select id_list config_rows
mode_get_chan_list file net c =
    id_list 4092 (select (λ r. chan_of net c (mode_words r)) (config_rows file modes))

unfoldable pub mode_deluser : ℤ → ℕ → File → Option File
unfolding unset_rows format_int
mode_deluser uid fuel file = unset_rows modes (format_int uid) fuel file
