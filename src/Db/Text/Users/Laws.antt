-- ===== src/Db/Text/Users/Laws.antt =====
-- src/db/text/userdb.c: what setting a password, and a name, does to the row of a user.
use mx3bot.Base.{
  ℕ, ◌≤◌, ◌≡◌, refl, ap, ◌∙◌, sym, subst, true, false, Option, none, some, List, [], ◌∷◌, ◌++◌,
  length, take, take_all, arith,
}
use mathlib.Core.Bool.{true≢false}
use mx3bot.Base.Int.{pos}
use mx3bot.CString.{Str, is_empty, str_case_eq_refl, str_eq}
use mx3bot.CString.Number.{format_int}
use mx3bot.Strtok.{IsFree, IsFree-append, strtok-IsFree, strtok_end}
use mx3bot.Config.{File, blanks, blanks_newlines, newlines, okay}
use mx3bot.Config.Lines.{
  All, AreLines, AreLines-append, AreLines-replace, IsLine, IsSection, Section, inside, render,
  text-upto, upto,
}
use mx3bot.Config.Read.Row.{IsFree-blanks, IsValue, config_get_str-row, kind_of-row_of, row_of}
use mx3bot.Config.Write.{config_set_str, row_text}
use mx3bot.Config.Write.Laws.{config_set_str-found}
use mx3bot.Db.Text.Endless.{format_int-IsName}
use mx3bot.Db.Text.Mode.{dash}
use mx3bot.Db.Text.Users.{on_row, renamed, user_row, userdb_set_name, users, words4}
use mx3bot.Db.Text.Users.Password.{
  is_right, new_hash, pass_of, pass_right, row_right, userdb_check_password, userdb_set_password,
  with_hash,
}

-- A word of a row: it is not empty and has no blank or line break.
abbrev pub IsWord : Str → Type 0
IsWord [] = true ≡ false
IsWord (c ∷ w) = IsFree blanks_newlines (c ∷ w)

-- What stands behind the id.
abbrev pub fields : Str → Str → Str → Str
fields name level pass = name ++ b'\t' ∷ (level ++ b'\t' ∷ pass)

words4-fields :
    (name level pass : Str)
    → IsWord name
    → IsWord level
    → IsWord pass
    → words4 (fields name level pass) ≡ (some name, some level, some pass, none)
unfolding words4
words4-fields [] level pass n l p = absurd (true≢false n)
words4-fields (a ∷ name) [] pass n l p = absurd (true≢false l)
words4-fields (a ∷ name) (b ∷ level) [] n l p = absurd (true≢false p)
words4-fields (a ∷ name) (b ∷ level) (c ∷ pass) n l p =
    rw
      (
        strtok-IsFree blanks a name b'\t' ((b ∷ level) ++ b'\t' ∷ c ∷ pass)
            (IsFree-blanks (a ∷ name) n) refl,
        strtok-IsFree blanks b level b'\t' (c ∷ pass) (IsFree-blanks (b ∷ level) l) refl,
        strtok_end blanks c pass (IsFree-blanks (c ∷ pass) p),
      )
      refl

pass_of-fields :
    (name level pass : Str)
    → IsWord name
    → IsWord level
    → IsWord pass
    → pass_of (fields name level pass) ≡ some pass
unfolding pass_of
pass_of-fields name level pass n l p = ap (λ t. t.2) (words4-fields name level pass n l p)

fields-IsValue :
    (idstr name level pass : Str)
    → IsWord name
    → IsLine (row_of idstr (fields name level pass))
    → IsValue (fields name level pass)
fields-IsValue idstr [] level pass n l = absurd (true≢false n)
fields-IsValue idstr (c ∷ name) level pass n l = (
  (IsFree-append newlines idstr (b'\t' ∷ fields (c ∷ name) level pass) l.0).1,
  (IsFree-blanks (c ∷ name) n).0,
)

-- The row of a user with that id in a file of lines that fit the buffers.
unfoldable pub user_line : ℕ → Str → Str → Str → Str
unfolding format_int
user_line id name level pass = row_of (format_int (pos id)) (fields name level pass)

-- The rows before it and behind it are of other ids.
pub record HasUser (file : File) (s : Section) (rows rows' : List Str) (id : ℕ)
    (name level pass : Str) : Type 0 where
  pub is_section : IsSection users s
  pub is_title : str_eq s.title users ≡ true
  pub others : All (inside (format_int (pos id))) rows
  pub others' : All (inside (format_int (pos id))) rows'
  pub is_name : IsWord name
  pub is_level : IsWord level
  pub is_pass : IsWord pass
  pub fits : length (fields name level pass) ≤ 511
  pub are_lines : AreLines (upto s rows ++ user_line id name level pass ∷ (rows' ++ s.after))
  pub is_file :
      file.bytes ≡ some (render (upto s rows ++ user_line id name level pass ∷ (rows' ++ s.after)))

module _ {file : File} {s : Section} {rows rows' : List Str} {id : ℕ} {name level pass : Str}
    (u : HasUser file s rows rows' id name level pass) where
  -- The user's row, when it is read.
  user_row-HasUser : user_row file (pos id) 512 ≡ some (some (fields name level pass))
  unfolding user_row user_line
  user_row-HasUser =
      let (front, back) =
        AreLines-append (upto s rows) (user_line id name level pass ∷ (rows' ++ s.after))
          u.are_lines in
      rw
        (
          config_get_str-row users (format_int (pos id)) s file 512 rows (fields name level pass)
              (rows' ++ s.after) u.is_section u.is_title front u.others (format_int-IsName id)
              (fields-IsValue (format_int (pos id)) name level pass u.is_name back.0) back.0
              u.is_file,
          take_all 511 (fields name level pass) u.fits,
        )
        refl

  -- The file with another password in that row.
  module _ (pass' : Str) where
    unfoldable pub changed : File
    unfolding user_line
    changed = record file {
      bytes = some (render (upto s rows ++ user_line id name level pass' ∷ (rows' ++ s.after)));
    }

    set_fields :
        IsLine (user_line id name level pass')
        → file.writable ≡ true
        → config_set_str file users (some (format_int (pos id))) (some (fields name level pass'))
          ≡ some (changed, okay)
    unfolding user_line changed
    set_fields l w =
        config_set_str-found users (format_int (pos id)) s file (some (fields name level pass'))
          rows (user_line id name level pass) (format_int (pos id)) rows' u.others
          (kind_of-row_of (format_int (pos id)) _ (format_int-IsName id))
          (str_case_eq_refl (format_int (pos id))) u.others' u.is_section w
          (subst AreLines (sym (text-upto s rows (user_line id name level pass ∷ rows')))
            u.are_lines)
          (u.is_file
            ∙ ap (λ t. some (render t))
                (sym (text-upto s rows (user_line id name level pass ∷ rows'))))
        ∙ ap (λ t. some (record file { bytes = some (render t) }, okay))
            (text-upto s rows
                (row_text (some (format_int (pos id))) (some (fields name level pass')) ∷ rows')
              ∙ ap (λ t. upto s rows ++ t ∷ (rows' ++ s.after))
                  (take_all 1023 _ (omega (arith, l.1))))

    HasUser-set_fields :
        IsWord pass'
        → length (fields name level pass') ≤ 511
        → IsLine (user_line id name level pass')
        → HasUser changed s rows rows' id name level pass'
    unfolding changed
    HasUser-set_fields p k l = record {
      is_section = u.is_section;
      is_title = u.is_title;
      others = u.others;
      others' = u.others';
      is_name = u.is_name;
      is_level = u.is_level;
      is_pass = p;
      fits = k;
      are_lines =
          AreLines-replace (upto s rows) (user_line id name level pass)
            (user_line id name level pass') (rows' ++ s.after) u.are_lines l;
      is_file = refl;
    }

module _ (crypt : Str → Str → Str) {file : File} {s : Section} {rows rows' : List Str} {id : ℕ}
    {name level old : Str} (u : HasUser file s rows rows' id name level old) where
  -- What is stored for a new password, and which passwords are accepted then.
  pub userdb_set_password-changed :
      (pass : Option Str) (rands : List ℕ) (hash given : Str)
      → new_hash crypt rands pass ≡ hash
      → IsWord hash
      → str_eq hash dash ≡ false
      → is_empty given ≡ false
      → length (fields name level hash) ≤ 511
      → IsLine (user_line id name level hash)
      → file.writable ≡ true
      → (userdb_set_password crypt file (pos id) rands pass ≡ some (changed u hash, true))
        × (userdb_check_password crypt (changed u hash) (pos id) (some given)
            ≡ some (str_eq (take 63 (crypt given hash)) hash))
  unfolding userdb_set_password userdb_check_password on_row with_hash row_right pass_right is_right
  userdb_set_password-changed pass rands [] given m p d g k l w = absurd (true≢false p)
  userdb_set_password-changed pass rands (c ∷ hash) given m p d g k l w = (
    rw
        (
          user_row-HasUser u,
          words4-fields name level old u.is_name u.is_level u.is_pass,
          m,
          take_all 511 (fields name level (c ∷ hash)) k,
          set_fields u (c ∷ hash) l w,
        )
        refl,
    rw (user_row-HasUser (HasUser-set_fields u (c ∷ hash) p k l)) (
        ap some (
          ap (pass_right crypt (some given))
            (pass_of-fields name level (c ∷ hash) u.is_name u.is_level p)
          ∙ rw (d, g) refl)),
  )

module _ (file : File) (s : Section) (rows rows' : List Str) (id : ℕ) (name level old : Str) where
  -- `text_userdb_set_name` returns -1 and changes nothing for every user whose row has a name, a
  -- level and a password and no more, in a file of lines of at most 1022 bytes.
  pub userdb_set_name_refused :
      (name' : Str)
      → HasUser file s rows rows' id name level old
      → userdb_set_name file (pos id) name' ≡ some (file, false)
  unfolding userdb_set_name on_row renamed
  userdb_set_name_refused name' u =
      rw (user_row-HasUser u, words4-fields name level old u.is_name u.is_level u.is_pass) refl
