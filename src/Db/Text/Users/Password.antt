-- ===== src/Db/Text/Users/Password.antt =====
-- src/db/text/userdb.c: the passwords, the last words of the users' rows. crypt() is a parameter, and
-- so are the values of rand().
use mx3bot.Base.{
  ℕ, ◌%◌, Bool, true, false, ◌||◌, not, Option, none, some, List, [], ◌∷◌, ◌++◌, if◌then◌else◌,
  get_or, map, take, ◌>>=◌,
}
use mx3bot.Base.Int.{ℤ}
use mx3bot.CString.{Str, is_empty, str_eq}
use mx3bot.CString.Number.{format_int}
use mx3bot.Config.{File}
use mx3bot.Config.Write.{config_set_str}
use mx3bot.Db.Text.{is_okay}
use mx3bot.Db.Text.Mode.{dash}
use mx3bot.Db.Text.Users.{on_row, user_row, users, words4}

-- The word of the password.
unfoldable pub pass_of : Str → Option Str
unfolding words4
pass_of row = let (name, level, pass, rest) = words4 row in pass

has_pass : Option Str → Bool
unfolding str_eq
has_pass none = false
has_pass (some p) = not (str_eq p dash)

unfoldable pub userdb_has_password : File → ℤ → Option Bool
unfolding user_row pass_of has_pass
userdb_has_password file id = user_row file id 512 >>= λ row. some (has_pass (row >>= pass_of))

abbrev chars : Str
chars =
    b'A' ∷ b'B' ∷ b'C' ∷ b'D' ∷ b'E' ∷ b'F' ∷ b'G' ∷ b'H' ∷ b'I' ∷ b'J' ∷ b'K' ∷ b'L' ∷ b'M' ∷ b'N'
    ∷ b'O' ∷ b'P' ∷ b'Q' ∷ b'R' ∷ b'S' ∷ b'T' ∷ b'U' ∷ b'V' ∷ b'W' ∷ b'X' ∷ b'Y' ∷ b'Z' ∷ b'a'
    ∷ b'b' ∷ b'c' ∷ b'd' ∷ b'e' ∷ b'f' ∷ b'g' ∷ b'h' ∷ b'i' ∷ b'j' ∷ b'k' ∷ b'l' ∷ b'm' ∷ b'n'
    ∷ b'o' ∷ b'p' ∷ b'q' ∷ b'r' ∷ b's' ∷ b't' ∷ b'u' ∷ b'v' ∷ b'w' ∷ b'x' ∷ b'y' ∷ b'z' ∷ b'.'
    ∷ b'/' ∷ []

-- Eight values of rand() make the salt.
unfoldable pub salt : List ℕ → Str
salt rands = b'$' ∷ b'1' ∷ b'$' ∷ map (λ r. get_or chars (r % 54) 0) rands

module _ (crypt : Str → Str → Str) where
  -- A password that is NULL or empty is none.
  unfoldable pub is_right : Option Str → Str → Bool
  unfolding str_eq
  is_right none p = false
  is_right (some pass) p = if is_empty pass then false else str_eq (take 63 (crypt pass p)) p

  unfoldable pub pass_right : Option Str → Option Str → Bool
  unfolding is_right str_eq
  pass_right pass none = true
  pass_right pass (some p) = if is_empty p || str_eq p dash then true else is_right pass p

  unfoldable pub row_right : Option Str → Option Str → Bool
  unfolding pass_right pass_of
  row_right pass none = false
  row_right pass (some row) = pass_right pass (pass_of row)

  unfoldable pub userdb_check_password : File → ℤ → Option Str → Option Bool
  unfolding user_row row_right
  userdb_check_password file id pass = user_row file id 512 >>= λ row. some (row_right pass row)

  unfoldable pub new_hash : List ℕ → Option Str → Str
  unfolding salt
  new_hash rands none = dash
  new_hash rands (some pass) = if is_empty pass then dash else take 63 (crypt pass (salt rands))

  unfoldable pub with_hash :
      File → Str → Str → Option Str × Option Str × Option Str × Option Str → Option (File × Bool)
  unfolding config_set_str
  with_hash file idstr hash (none, level, pass, rest) = some (file, false)
  with_hash file idstr hash (some name, none, pass, rest) = some (file, false)
  with_hash file idstr hash (some name, some level, pass, rest) =
      config_set_str file users (some idstr)
        (some (take 511 (name ++ b'\t' ∷ (level ++ b'\t' ∷ hash))))
      >>= λ (file', r). some (file', is_okay r)

  unfoldable pub userdb_set_password : File → ℤ → List ℕ → Option Str → Option (File × Bool)
  unfolding user_row on_row with_hash words4 new_hash format_int
  userdb_set_password file id rands pass =
      user_row file id 512
      >>= on_row file (λ row. with_hash file (format_int id) (new_hash rands pass) (words4 row))
