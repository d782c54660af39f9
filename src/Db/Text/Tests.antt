-- ===== src/Db/Text/Tests.antt =====
-- Databases of one user each.
use mx3bot.Base.{ℕ, ◌≡◌, refl, true, none, some, List, [], ◌∷◌, ◌++◌, arith, take}
use mx3bot.Base.Int.{pos}
use mx3bot.CString.{Str, str_case_eq, str_eq}
use mx3bot.CString.Number.{digits, format_int}
use mx3bot.Strtok.{are_free, are_free-IsFree, strtok}
use mx3bot.Db.Text.Auth.{text_db, user_auth-userdb_set_password}
use mx3bot.Table.{first_index}
use mx3bot.User.{Users, user_find}
use mx3bot.User.Session.{user_auth}
use mx3bot.Config.{File, blanks_newlines, newlines}
use mx3bot.Config.Lines.{
  IsSection, Section, are_lines, are_lines-AreLines, kind_of, render, text, upto,
}
use mx3bot.Config.Read.Row.{row_of}
use mx3bot.Config.Write.{or_null}
use mx3bot.Db.Text.Endless.{userdb_del-mode_deluser}
use mx3bot.Db.Text.Mode.{modes}
use mx3bot.Db.Text.Note.{note_deluser, note_get_list}
use mx3bot.Db.Text.Note.Laws.{note_get_list-note_deluser}
use mx3bot.Db.Text.Users.{Files, userdb_del, userdb_find_bymask3, users}
use mx3bot.Db.Text.Users.Laws.{HasUser, changed, user_line}
use mx3bot.Db.Text.Users.Password.{new_hash, salt, userdb_set_password}

abbrev around_modes : Section
around_modes = record {
  before = [];
  header = b'[' ∷ b'm' ∷ b'o' ∷ b'd' ∷ b'e' ∷ b's' ∷ b']' ∷ [];
  title = modes;
  after = [];
}

-- User 5 is an operator.
abbrev mode_row : Str
mode_row =
    b'5' ∷ b'\t' ∷ b'n' ∷ b'e' ∷ b't' ∷ b'\t' ∷ b'#' ∷ b'm' ∷ b'x' ∷ b'\t' ∷ b'o' ∷ b'\t' ∷ []

abbrev five : Str
five = b'5' ∷ []

abbrev missing : File
missing = record { bytes = none; writable = true }

abbrev files : Files
files = record {
  ban_file = missing;
  mode_file = record {
    bytes = some (render (text around_modes ([] ++ mode_row ∷ [])));
    writable = true;
  };
  note_file = missing;
  var_file = missing;
  user_file = missing;
}

around_modes-IsSection : IsSection modes around_modes
unfolding kind_of strtok str_case_eq
around_modes-IsSection = (tt, refl, refl, tt)

userdb_del-mode_deluser_example : userdb_del files (pos 5) 7 ≡ none
unfolding kind_of strtok str_case_eq are_free are_lines format_int digits
userdb_del-mode_deluser_example =
    userdb_del-mode_deluser files 5 around_modes 7 [] mode_row five [] (omega arith)
      around_modes-IsSection
      (are_free-IsFree newlines (row_of five (or_null none)) refl, omega arith) tt refl refl tt refl
      (are_lines-AreLines (text around_modes (mode_row ∷ [])) refl) refl

-- [users], and a blank line before [masks] with a mask of user 5.
abbrev around_users : Section
around_users = record {
  before = [];
  header = b'[' ∷ b'u' ∷ b's' ∷ b'e' ∷ b'r' ∷ b's' ∷ b']' ∷ [];
  title = users;
  after =
      (b'[' ∷ b'm' ∷ b'a' ∷ b's' ∷ b'k' ∷ b's' ∷ b']' ∷ [])
      ∷ (b'1' ∷ b'\t' ∷ b'5' ∷ b'\t' ∷ b'*' ∷ [])
      ∷ [];
}

abbrev ann : Str
ann = b'a' ∷ b'n' ∷ b'n' ∷ []

abbrev no_word : Str
no_word = b'-' ∷ []

abbrev users_conf : File
users_conf = record {
  bytes = some (
      render (
        upto around_users []
        ++ (five ++ b'\t' ∷ ann ++ b'\t' ∷ b'-' ∷ b'\t' ∷ no_word)
          ∷ (([] ∷ []) ++ around_users.after)));
  writable = true;
}

ann-HasUser : HasUser users_conf around_users [] ([] ∷ []) 5 ann no_word no_word
unfolding kind_of strtok str_case_eq str_eq are_free are_lines format_int digits user_line
ann-HasUser = record {
  is_section = (tt, refl, refl, (some (b'm' ∷ b'a' ∷ b's' ∷ b'k' ∷ b's' ∷ []), refl));
  is_title = refl;
  others = tt;
  others' = (refl, tt);
  is_name = are_free-IsFree blanks_newlines ann refl;
  is_level = are_free-IsFree blanks_newlines no_word refl;
  is_pass = are_free-IsFree blanks_newlines no_word refl;
  fits = omega arith;
  are_lines =
      are_lines-AreLines
        (upto around_users []
          ++ user_line 5 ann no_word no_word ∷ (([] ∷ []) ++ around_users.after))
        refl;
  is_file = refl;
}

-- A hash that keeps the salt and the password.
abbrev plain : Str → Str → Str
plain key setting = take 11 setting ++ key

abbrev rands : List ℕ
rands = 0 ∷ 1 ∷ 26 ∷ 53 ∷ 54 ∷ 5 ∷ 6 ∷ 7 ∷ []

abbrev stored : Str
stored =
    b'$' ∷ b'1' ∷ b'$' ∷ b'A' ∷ b'B' ∷ b'a' ∷ b'/' ∷ b'A' ∷ b'F' ∷ b'G' ∷ b'H' ∷ b'a' ∷ b'n' ∷ b'n'
    ∷ []

-- The file with the password, and ann in sight.
abbrev masked : File
masked = changed ann-HasUser stored

abbrev sight : Users
sight = record {
  user =
      record {
        nick = ann;
        user = five;
        host = five;
        server = pos 1;
        chan = [];
        id = pos 0;
        lost = 0;
      }
      ∷ [];
  n_grow = 1;
  channel = [];
}

user_auth-userdb_set_password_example :
    (userdb_set_password plain users_conf (pos 5) rands (some ann) ≡ some (masked, true))
    × ((user_auth (text_db str_eq plain masked) (pos 1) ann five sight).1
        ≡ str_eq (take 63 (plain five stored)) stored)
unfolding str_eq str_case_eq are_free new_hash salt format_int digits user_line user_find
    userdb_find_bymask3 first_index changed
user_auth-userdb_set_password_example =
    user_auth-userdb_set_password str_eq plain ann-HasUser (some ann) rands stored five (pos 1) ann
      sight 0 refl (are_free-IsFree blanks_newlines stored refl) refl refl (omega arith)
      (are_free-IsFree newlines (user_line 5 ann no_word stored) refl, omega arith) refl
      (omega arith) refl refl

-- A note from user 5 to user 6, and one that is not theirs.
abbrev note_lines : List Str
note_lines =
    (b'[' ∷ b'n' ∷ b'o' ∷ b't' ∷ b'e' ∷ b's' ∷ b']' ∷ [])
    ∷ (b'1' ∷ b'\t' ∷ b'5' ∷ b'\t' ∷ b'6' ∷ b'\t' ∷ b'0' ∷ b'\t' ∷ b'h' ∷ b'i' ∷ [])
    ∷ (b'2' ∷ b'\t' ∷ b'7' ∷ b'\t' ∷ b'8' ∷ b'\t' ∷ b'0' ∷ b'\t' ∷ b'h' ∷ b'i' ∷ [])
    ∷ []

abbrev notes_conf : File
notes_conf = record { bytes = some (render note_lines); writable = true }

note_get_list-note_deluser_example :
    (file' : File) × (note_deluser (pos 5) 4 notes_conf ≡ some file')
    × (note_get_list file' (pos 5) (pos 0) ≡ [])
    × (note_get_list file' (pos 0) (pos 5) ≡ [])
unfolding are_free are_lines
note_get_list-note_deluser_example =
    note_get_list-note_deluser (pos 5) (λ e. cc e) 4 notes_conf note_lines refl refl
      (are_lines-AreLines note_lines refl) (omega arith)
