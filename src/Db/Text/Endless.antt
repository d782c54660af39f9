-- ===== src/Db/Text/Endless.antt =====
-- src/db/text/mode.c, var.c, userdb.c: the loops that delete a user's rows by config_set_str() with
-- NULL.
use mx3bot.Base.{
  ℕ, zero, suc, ◌<◌, ◌≡◌, refl, ap, ◌∙◌, sym, subst, true, false, ◌==◌, Option, none, some, List,
  [], ◌∷◌, ◌++◌, take_all, arith, ◌>>=◌,
}
use mx3bot.Base.Int.{pos, int_lt}
use mx3bot.CString.{Str, is_digit, str_case_eq, str_case_eq_refl}
use mx3bot.CString.Number.{AreDigits, digits-AreDigits, format_int}
use mx3bot.Strtok.{IsFree, is_in}
use mx3bot.Config.{File, blanks_newlines}
use mx3bot.Config.Lines.{
  All, AreLines, AreLines-replace, IsLine, IsSection, Section, entry, inside, kind_of, render, text,
  text-upto, upto,
}
use mx3bot.Config.Read.Row.{IsName, kind_of-row_of, row_of}
use mx3bot.Config.Write.{or_null, row_text}
use mx3bot.Config.Write.Laws.{config_set_str-found}
use mx3bot.Db.Text.{unset_rows}
use mx3bot.Db.Text.Mode.{mode_deluser, modes}
use mx3bot.Db.Text.Users.{Files, userdb_del}
use mx3bot.Db.Text.Ban.{ban_deluser}

is_digit-is_in : (c : ℕ) → is_digit c ≡ true → is_in blanks_newlines c ≡ false
unfolding is_in
is_digit-is_in c h = ground arith

digits-IsFree : (s : Str) → AreDigits s → IsFree blanks_newlines s
digits-IsFree [] h = tt
digits-IsFree (c ∷ []) h = (is_digit-is_in c h, tt)
digits-IsFree (c ∷ d ∷ s) h = (is_digit-is_in c h.0, digits-IsFree (d ∷ s) h.1)

not_hash : (c : ℕ) → is_digit c ≡ true → (c == b'#') ≡ false
not_hash c h = ground arith

not_bracket : (c : ℕ) → is_digit c ≡ true → (c == b'[') ≡ false
not_bracket c h = ground arith

digits-IsName : (s : Str) → AreDigits s → IsName s
digits-IsName [] h = h
digits-IsName (c ∷ []) h = (digits-IsFree (c ∷ []) h, not_hash c h, not_bracket c h)
digits-IsName (c ∷ d ∷ s) h = (digits-IsFree (c ∷ d ∷ s) h, not_hash c h.0, not_bracket c h.0)

-- The text of an id names a row.
pub format_int-IsName : (n : ℕ) → IsName (format_int (pos n))
unfolding format_int
format_int-IsName n = digits-IsName _ (digits-AreDigits (suc n) n (omega arith))

module _ (section name : Str) (s : Section) (h : IsSection section s) (n : IsName name)
    (l : IsLine (row_of name (or_null none))) where
  null_row : row_text (some name) none ≡ row_of name (or_null none)
  null_row = take_all 1023 (row_of name (or_null none)) (omega (arith, l.1))

  unset_rows_endless :
      (fuel : ℕ) (file : File) (rows : List Str) (row id : Str) (rows' : List Str)
      → All (inside name) rows
      → kind_of row ≡ entry id
      → str_case_eq id name ≡ true
      → All (inside name) rows'
      → file.writable ≡ true
      → AreLines (text s (rows ++ row ∷ rows'))
      → file.bytes ≡ some (render (text s (rows ++ row ∷ rows')))
      → unset_rows section name fuel file ≡ none
  unfolding unset_rows
  unset_rows_endless zero file rows row id rows' r k e r' w lines b = refl
  unset_rows_endless (suc fuel) file rows row id rows' r k e r' w lines b =
      rw (config_set_str-found section name s file none rows row id rows' r k e r' h w lines b) (
        unset_rows_endless fuel _ rows (row_text (some name) none) name rows' r
          (ap kind_of null_row ∙ kind_of-row_of name (or_null none) n) (str_case_eq_refl name) r' w
          (subst AreLines (sym (text-upto s rows (row_text (some name) none ∷ rows'))) (
            AreLines-replace (upto s rows) row (row_text (some name) none) (rows' ++ s.after)
              (subst AreLines (text-upto s rows (row ∷ rows')) lines)
              (subst IsLine (sym null_row) l)))
          refl)

positive : (id : ℕ) → 0 < id → int_lt (pos id) (pos 1) ≡ false
positive id h = ground arith

bind_none {ℓ κ} :
    {A : Type ℓ} {B : Type κ} (o : Option A) (f : A → Option B)
    → ((a : A) → f a ≡ none)
    → (o >>= f) ≡ none
bind_none none f h = refl
bind_none (some a) f h = h a

module _ (files : Files) (id : ℕ) (s : Section) (fuel : ℕ) where
  -- `text_userdb_del` never returns for a user, of an id above 0, with exactly one row under that
  -- id in the database of modes, in a file of lines of at most 1022 bytes that can be written: the
  -- loop of `text_mode_deluser` writes the row again instead of deleting it.
  pub userdb_del-mode_deluser :
      (rows : List Str) (row word : Str) (rows' : List Str)
      → 0 < id
      → IsSection modes s
      → IsLine (row_of (format_int (pos id)) (or_null none))
      → All (inside (format_int (pos id))) rows
      → kind_of row ≡ entry word
      → str_case_eq word (format_int (pos id)) ≡ true
      → All (inside (format_int (pos id))) rows'
      → files.mode_file.writable ≡ true
      → AreLines (text s (rows ++ row ∷ rows'))
      → files.mode_file.bytes ≡ some (render (text s (rows ++ row ∷ rows')))
      → userdb_del files (pos id) fuel ≡ none
  unfolding userdb_del mode_deluser
  userdb_del-mode_deluser rows row word rows' p h l r k e r' w lines b = rw (positive id p) (
      bind_none (ban_deluser (pos id) fuel files.ban_file) _ (λ f.
        rw
          (unset_rows_endless modes (format_int (pos id)) s h (format_int-IsName id) l fuel
            files.mode_file rows row word rows' r k e r' w lines b)
          refl))
