-- ===== src/Db/Text/Auth.antt =====
-- src/user.c on the databases in text files: user_auth() with the functions of src/db/text/userdb.c.
use mx3bot.Base.{
  ℕ, ◌<◌, ◌≤◌, ◌≡◌, ap, ◌∙◌, Bool, true, false, Option, none, some, List, length, take, arith,
}
use mx3bot.Base.Int.{ℤ, pos, int_eq}
use mx3bot.CString.{Str, is_empty, str_eq}
use mx3bot.Config.{File}
use mx3bot.Config.Lines.{IsLine, Section}
use mx3bot.Db.Text.Mode.{dash}
use mx3bot.Db.Text.Users.{userdb_find_bymask3}
use mx3bot.Db.Text.Users.Laws.{
  HasUser, IsWord, changed, fields, user_line, userdb_set_password-changed,
}
use mx3bot.Db.Text.Users.Password.{new_hash, userdb_check_password, userdb_set_password}
use mx3bot.User.Ids.{user_auth_found}
use mx3bot.User.{UserDb, Users, at, user_find}
use mx3bot.User.Session.{user_auth}

-- A row that has nothing behind its id is not looked at: the source reads through NULL there.
abbrev answer : Option Bool → Bool
answer none = false
answer (some b) = b

-- The database of a file.
unfoldable pub text_db : (Str → Str → Bool) → (Str → Str → Str) → File → UserDb
unfolding userdb_find_bymask3 userdb_check_password
text_db regex crypt file = record {
  userdb_find_bymask3 = userdb_find_bymask3 regex file;
  userdb_check_password = λ id pw. answer (userdb_check_password crypt file id pw);
}

positive_id : (id : ℕ) → 0 < id → int_eq (pos id) (pos 0) ≡ false
positive_id id h = ground arith

module _ (regex : Str → Str → Bool) (crypt : Str → Str → Str) {file : File} {sect : Section}
    {rows rows' : List Str} {id : ℕ} {name level old : Str}
    (u : HasUser file sect rows rows' id name level old) where
  -- For a user whose row is the only one of its id in a file of lines of at most 1022 bytes that
  -- can be written, `text_userdb_set_password` returns 0, if what is stored is a word other than
  -- `-` and the row fits; then `user_auth` of src/user.c on that database, for a user in sight with
  -- a mask of that id, and with a password that is not empty, returns 0 exactly if crypt() makes
  -- what is stored of it.
  pub user_auth-userdb_set_password :
      (pass : Option Str) (rands : List ℕ) (hash given : Str) (server : ℤ) (nick : Str) (s : Users)
      (i : ℕ)
      → new_hash crypt rands pass ≡ hash
      → IsWord hash
      → str_eq hash dash ≡ false
      → is_empty given ≡ false
      → length (fields name level hash) ≤ 511
      → IsLine (user_line id name level hash)
      → file.writable ≡ true
      → 0 < id
      → user_find server nick s.user ≡ some i
      → userdb_find_bymask3 regex
          (changed u hash)
          (at s.user i).nick
          (at s.user i).user
          (at s.user i).host
        ≡ pos id
      → (userdb_set_password crypt file (pos id) rands pass ≡ some (changed u hash, true))
        × ((user_auth (text_db regex crypt (changed u hash)) server nick given s).1
            ≡ str_eq (take 63 (crypt given hash)) hash)
  unfolding text_db
  user_auth-userdb_set_password pass rands hash given server nick s i m p d g k l w positive e f =
      let (stored, checked) =
        userdb_set_password-changed crypt u pass rands hash given m p d g k l w in
      (
        stored,
        user_auth_found (text_db regex crypt (changed u hash)) server nick given s i (pos id) e f
              (positive_id id positive)
            ∙ ap answer checked,
      )
