-- ===== src/Db/Text/Delete.antt =====
-- src/db/text/: the loops that delete the rows of a user by config_set_row().
use mx3bot.Base.{ℕ, zero, suc, ◌<◌, ◌≡◌, refl, Bool, true, Option, none, some, List, length, arith}
use mx3bot.CString.{Str}
use mx3bot.Config.{File}
use mx3bot.Config.Lines.{AreLines, AreLines-remove, length-remove, remove, render}
use mx3bot.Config.Rows.{config_rows}
use mx3bot.Config.Rows.Delete.{config_rows-Within}
use mx3bot.Config.Write.Delete.{config_set_row-remove}
use mx3bot.Db.Text.{delete_rows, first_row}

module _ (test : Str → Bool) (section : Str) where
  -- The loop ends, and no row that is to be deleted is left.
  abbrev pub Ends : ℕ → File → Type 0
  Ends fuel file =
      (file' : File) × (delete_rows test section fuel file ≡ some file')
      × (first_row test (config_rows file' section) ≡ none)

  -- What is known of a file of lines, for some amount of fuel.
  abbrev pub AllEnd : ℕ → Type 0
  AllEnd fuel =
      (file : File) (ls : List Str)
      → file.bytes ≡ some (render ls)
      → file.writable ≡ true
      → AreLines ls
      → length ls < fuel
      → Ends fuel file

  after_one :
      (fuel : ℕ) (rest : AllEnd fuel) (file : File) (ls : List Str)
      → file.bytes ≡ some (render ls)
      → file.writable ≡ true
      → AreLines ls
      → length ls < suc fuel
      → (o : Option ℕ) → first_row test (config_rows file section) ≡ o
      → Ends (suc fuel) file
  unfolding delete_rows
  after_one fuel rest file ls b w h k none e = (file, rw (delete_rows, e) refl, e)
  after_one fuel rest file ls b w h k (some zero) e =
      absurd (omega (arith, (config_rows-Within test file section ls 0 b h e).0))
  after_one fuel rest file ls b w h k (some (suc n)) e =
      let inside : n < length ls =
        omega (arith, (config_rows-Within test file section ls (suc n) b h e).1) in
      let (file', ended, gone) =
        rest (record file { bytes = some (render (remove n ls)) }) (remove n ls) refl w
          (AreLines-remove n ls h) (omega (arith, length-remove n ls inside)) in
      (file', rw (delete_rows, e, config_set_row-remove file n ls b w h inside) ended, gone)

  pub delete_rows-Ends : (fuel : ℕ) → AllEnd fuel
  delete_rows-Ends zero file ls b w h k = absurd (omega arith)
  delete_rows-Ends (suc fuel) file ls b w h k =
      after_one fuel (delete_rows-Ends fuel) file ls b w h k
        (first_row test (config_rows file section)) refl
