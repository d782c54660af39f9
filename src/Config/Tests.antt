-- ===== src/Config/Tests.antt =====
-- A file with two users, read and written.
use mx3bot.Base.{◌-◌, ◌≡◌, refl, true, some, List, [], ◌∷◌, ◌++◌, arith, take}
use mx3bot.CString.{Str, str_case_eq, str_eq}
use mx3bot.Strtok.{are_free, are_free-IsFree, strtok}
use mx3bot.Config.{File, okay, blanks_newlines, config_get_str, newlines}
use mx3bot.Config.Lines.{IsSection, Section, are_lines, are_lines-AreLines, kind_of, render, text}
use mx3bot.Config.Read.Row.{row_of}
use mx3bot.Config.RoundTrip.{
  IsOnce, config_get_str-config_set_str, config_get_str-config_set_str_other, present,
}
use mx3bot.Config.Write.{config_set_str}

abbrev users : Str
users = b'u' ∷ b's' ∷ b'e' ∷ b'r' ∷ b's' ∷ []

-- # all
-- [users]
abbrev around : Section
around = record {
  before = (b'#' ∷ b' ' ∷ b'a' ∷ b'l' ∷ b'l' ∷ []) ∷ [];
  header = b'[' ∷ b'u' ∷ b's' ∷ b'e' ∷ b'r' ∷ b's' ∷ b']' ∷ [];
  title = users;
  after =
      (b'[' ∷ b'm' ∷ b'a' ∷ b's' ∷ b'k' ∷ b's' ∷ b']' ∷ [])
      ∷ (b'1' ∷ b'\t' ∷ b'2' ∷ b'\t' ∷ b'a' ∷ b'n' ∷ b'n' ∷ b'!' ∷ b'*' ∷ [])
      ∷ [];
}

abbrev ann : Str
ann = b'1' ∷ b'\t' ∷ b'a' ∷ b'n' ∷ b'n' ∷ []

abbrev bob : Str
bob = b'2' ∷ b'\t' ∷ b'b' ∷ b'o' ∷ b'b' ∷ []

-- The two rows, and a blank line behind them.
abbrev rows : List Str
rows = (ann ∷ []) ++ bob ∷ [] ∷ []

abbrev users_conf : File
users_conf = record { bytes = some (render (text around rows)); writable = true }

abbrev two : Str
two = b'2' ∷ []

rows-IsOnce : IsOnce two rows
unfolding kind_of strtok str_case_eq
rows-IsOnce = present (ann ∷ []) bob two ([] ∷ []) (refl, tt) refl refl (refl, tt)

around-IsSection : IsSection users around
unfolding kind_of strtok str_case_eq
around-IsSection = ((refl, tt), refl, refl, (some (b'm' ∷ b'a' ∷ b's' ∷ b'k' ∷ b's' ∷ []), refl))

abbrev eve : Str
eve = b'e' ∷ b'v' ∷ b'e' ∷ []

config_get_str-config_set_str_example :
    (file' : File) × (config_set_str users_conf users (some two) (some eve) ≡ some (file', okay))
    × (config_get_str file' users two 4 ≡ some (okay, some (take (4 - 1) eve)))
unfolding are_free are_lines str_eq
config_get_str-config_set_str_example =
    config_get_str-config_set_str users two eve around users_conf 4 rows rows-IsOnce
      around-IsSection refl (are_free-IsFree blanks_newlines two refl, refl, refl)
      (are_free-IsFree newlines eve refl, refl)
      (are_free-IsFree newlines (row_of two eve) refl, omega arith) refl
      (are_lines-AreLines (text around rows) refl) refl

config_get_str-config_set_str_other_example :
    (file' : File) × (config_set_str users_conf users (some two) (some eve) ≡ some (file', okay))
    × (config_get_str file' users (b'1' ∷ []) 64 ≡ config_get_str users_conf users (b'1' ∷ []) 64)
unfolding are_free are_lines str_case_eq
config_get_str-config_set_str_other_example =
    config_get_str-config_set_str_other users two eve around users_conf users (b'1' ∷ []) 64 rows
      rows-IsOnce refl around-IsSection (are_free-IsFree blanks_newlines two refl, refl, refl)
      (are_free-IsFree newlines (row_of two eve) refl, omega arith) refl
      (are_lines-AreLines (text around rows) refl) refl
