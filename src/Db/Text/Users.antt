-- ===== src/Db/Text/Users.antt =====
-- src/db/text/userdb.c: rows of `id name level password` in one section, and rows of `id uid mask`
-- in another.
pub mod Laws
pub mod Password
use mx3bot.Base.{
  ℕ, suc, zero, ◌+◌, ◌-◌, ◌%◌, Bool, true, false, ◌&&◌, ◌||◌, not, Option, none, some, List, [],
  ◌∷◌, ◌++◌, if◌then◌else◌, get_or, length, take, ◌>>=◌,
}
use mx3bot.Base.Int.{ℤ, pos, int_eq, int_lt}
use mx3bot.CString.{Str, is_empty, str_case_eq, str_eq}
use mx3bot.CString.Number.{atoi, format_int}
use mx3bot.Config.{File, Status, config_get_str}
use mx3bot.Config.Rows.{config_rows}
use mx3bot.Config.Write.{config_set_str}
use mx3bot.Db.Text.{delete_rows, greatest_id, id_list, int_suc, is_okay, matches, select, word}
use mx3bot.Db.Text.Ban.{ban_deluser, is_second}
use mx3bot.Db.Text.Mode.{dash, mode_deluser}
use mx3bot.Db.Text.Note.{note_deluser}
use mx3bot.Db.Text.Var.{var_deluser}
use mx3bot.Strtok.{strtok, token}
use mx3bot.Config.{blanks}

abbrev pub users : Str
users = b'u' ∷ b's' ∷ b'e' ∷ b'r' ∷ b's' ∷ []

abbrev pub masks : Str
masks = b'm' ∷ b'a' ∷ b's' ∷ b'k' ∷ b's' ∷ []

-- The next id of a section, and the file with a row of it.
add_row : File → Str → Str → Option (File × ℤ × Bool)
unfolding greatest_id config_rows config_set_str format_int
add_row file section row = greatest_id (pos 0) (config_rows file section) >>= λ id.
    config_set_str file section (some (format_int (int_suc id))) (some row) >>= λ (file', r).
    some (file', int_suc id, is_okay r)

unfoldable pub userdb_addmask : File → ℤ → Str → Option (File × Bool)
unfolding add_row format_int
userdb_addmask file uid mask =
    add_row file masks (take 511 (format_int uid ++ b'\t' ∷ mask)) >>= λ (file', mid, r).
    some (file', r)

-- The id of the user, and 0 for a failure.
unfoldable pub userdb_add : File → Str → Str → Option (File × ℤ)
unfolding add_row userdb_addmask
userdb_add file name mask =
    add_row file users (take 511 (name ++ b'\t' ∷ b'-' ∷ b'\t' ∷ b'-' ∷ [])) >>= λ (file', uid, r).
    (let masked : Option (File × ℤ) =
        userdb_addmask file' uid mask >>= λ (file'', r'). some (file'', uid) in
      if r then masked else some (file', pos 0))

-- The files of the five databases.
pub record Files : Type 0 where
  pub ban_file : File
  pub mode_file : File
  pub note_file : File
  pub var_file : File
  pub user_file : File

unfoldable pub userdb_del : Files → ℤ → ℕ → Option (Files × Bool)
unfolding ban_deluser mode_deluser note_deluser var_deluser delete_rows is_second config_set_str
    format_int
userdb_del files id fuel =
    let rows : Option (Files × Bool) = ban_deluser id fuel files.ban_file >>= λ b.
    mode_deluser id fuel files.mode_file >>= λ m. note_deluser id fuel files.note_file >>= λ n.
    var_deluser id fuel files.var_file >>= λ v.
    delete_rows (is_second id) masks fuel files.user_file >>= λ u.
    config_set_str u users (some (format_int id)) none >>= λ (u', r). some (
      record { ban_file = b; mode_file = m; note_file = n; var_file = v; user_file = u' },
      is_okay r,
    ) in
    if int_lt id (pos 1) then some (files, false) else rows

-- The id, and 0 where no row is of that name.
byname_in : Str → List (ℕ × Str) → ℤ
unfolding str_case_eq atoi strtok
byname_in name [] = pos 0
byname_in name ((line, r) ∷ rows) =
    let (id, s1) = word r in
    let n = (word s1).0 in
    elim id [
      | none ↦ byname_in name rows
      | some id' ↦ elim n [
        | none ↦ byname_in name rows
        | some n' ↦ if str_case_eq n' name then atoi id' else byname_in name rows
      ]
    ]

unfoldable pub userdb_find_byname : File → Str → ℤ
unfolding byname_in config_rows
userdb_find_byname file name = byname_in name (config_rows file users)

module _ (regex : Str → Str → Bool) where
  bymask_in : Str → List (ℕ × Str) → ℤ
  unfolding matches atoi strtok
  bymask_in ident [] = pos 0
  bymask_in ident ((line, r) ∷ rows) =
      let (mid, s1) = word r in
      let (uid, s2) = word s1 in
      let mask = (word s2).0 in
      elim uid [
        | none ↦ bymask_in ident rows
        | some uid' ↦ elim mask [
          | none ↦ bymask_in ident rows
          | some m ↦ if matches regex m ident then atoi uid' else bymask_in ident rows
        ]
      ]

  unfoldable pub userdb_find_bymask : File → Str → ℤ
  unfolding bymask_in config_rows
  userdb_find_bymask file ident = bymask_in ident (config_rows file masks)

  unfoldable pub userdb_find_bymask3 : File → Str → Str → Str → ℤ
  unfolding userdb_find_bymask
  userdb_find_bymask3 file nick user host =
      userdb_find_bymask file (take 255 (nick ++ b'!' ∷ (user ++ b'@' ∷ host)))

unfoldable pub user_row : File → ℤ → ℕ → Option (Option Str)
unfolding config_get_str format_int
user_row file id len = config_get_str file users (format_int id) len >>= λ (r, row). some row

-- The name is cut at its first blank; it does not start with one.
unfoldable pub userdb_get_name : File → ℤ → Option (Option Str)
unfolding user_row token
userdb_get_name file id = user_row file id 256 >>= λ row. some (row >>= λ s. some (token blanks s))

-- The first four words of a row.
unfoldable pub words4 : Str → Option Str × Option Str × Option Str × Option Str
unfolding strtok
words4 row =
    let (a, s1) = word row in
    let (b, s2) = word s1 in let (c, s3) = word s2 in (a, b, c, (word s3).0)

unfoldable pub renamed :
    File → Str → Option Str × Option Str × Option Str × Option Str → Option (File × Bool)
unfolding config_set_str
renamed file name (none, b, c, pass) = some (file, false)
renamed file name (some uid, b, c, none) = some (file, false)
renamed file name (some uid, b, c, some pass) =
    config_set_str file users (some uid) (some (take 511 (name ++ b'\t' ∷ b'-' ∷ b'\t' ∷ pass)))
    >>= λ (file', r). some (file', is_okay r)

unfoldable pub on_row : File → (Str → Option (File × Bool)) → Option Str → Option (File × Bool)
on_row file f none = some (file, false)
on_row file f (some row) = f row

unfoldable pub userdb_set_name : File → ℤ → Str → Option (File × Bool)
unfolding user_row on_row renamed words4
userdb_set_name file id name =
    user_row file id 512 >>= on_row file (λ row. renamed file name (words4 row))

-- Every row of the user's is deleted: the mask is not looked at.
unfoldable pub userdb_delmask : ℤ → Str → ℕ → File → Option File
unfolding is_second delete_rows
userdb_delmask user mask fuel file = delete_rows (is_second user) masks fuel file

mask_in_row : Option Str → Option (Option Str)
unfolding strtok
mask_in_row none = some none
mask_in_row (some row) = (word (word row).1).0 >>= λ m. some (some (take 255 m))

-- A row of no mask is copied from NULL.
unfoldable pub userdb_getmask : File → ℤ → Option (Option Str)
unfolding mask_in_row config_get_str format_int
userdb_getmask file mid =
    config_get_str file masks (format_int mid) 512 >>= λ (r, row). mask_in_row row

mask_listed : ℤ → Str → Option Str
unfolding strtok atoi
mask_listed uid r =
    let (mid, s1) = word r in (word s1).0 >>= λ user. if int_eq (atoi user) uid then mid else none

unfoldable pub userdb_getmasklist : File → ℤ → Str
unfolding mask_listed select id_list config_rows
userdb_getmasklist file uid = id_list 1019 (select (mask_listed uid) (config_rows file masks))

unfoldable pub userdb_count : File → ℕ
unfolding config_rows
userdb_count file = length (config_rows file users)
