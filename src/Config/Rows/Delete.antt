-- ===== src/Config/Rows/Delete.antt =====
-- src/config.c: the lines of the rows that config_get_row() returns.
use mx3bot.Base.{
  ℕ, suc, ◌+◌, ◌<◌, ◌≤◌, ◌≡◌, refl, ap, ◌∙◌, sym, subst, Bool, true, false, Option, some, List, [],
  ◌∷◌, if◌then◌else◌, length, take, arith, some_eq,
}
use mx3bot.CString.{Str}
use mx3bot.Config.{File, fgets_lines, split_lines}
use mx3bot.Config.Lines.{AreLines, render, split_lines-append}
use mx3bot.Config.Rows.{
  Line, header, ignored, row, collect, config_rows, is_section, line_of, open_rows, rows_behind,
  rows_from, rows_of_bytes,
}
use mx3bot.Db.Text.{first_row}

length-fgets_lines : (ls : List Str) → AreLines ls → length (fgets_lines (render ls)) ≡ length ls
unfolding fgets_lines split_lines
length-fgets_lines [] h = refl
length-fgets_lines (l ∷ ls) h =
    rw (split_lines-append 1023 l (render ls) h.0.0 (omega (arith, h.0.1)))
      (ap suc (length-fgets_lines ls h.1))

-- The line is behind `line`, and not more than `n` lines.
abbrev pub Within : ℕ → ℕ → ℕ → Type 0
Within line n m = (line < m) × (m ≤ line + n)

module _ (test : Str → Bool) where
  -- The line of a row is one of those that are read.
  Bounded : ℕ → ℕ → List (ℕ × Str) → Type 0
  Bounded line n rows = (m : ℕ) → first_row test rows ≡ some m → Within line n m

  first-Within :
      (b : Bool) (line n : ℕ) (o : Option ℕ)
      → ((m : ℕ) → o ≡ some m → Within (line + 1) n m)
      → (m : ℕ) → (if b then some (line + 1) else o) ≡ some m
      → Within line (suc n) m
  first-Within true line n o h m e = (omega (arith, some_eq e), omega (arith, some_eq e))
  first-Within false line n o h m e = let (a, b) = h m e in (omega arith, omega arith)

  collect-Bounded :
      (line n : ℕ) (rows : List (ℕ × Str)) (k : Line)
      → Bounded (line + 1) n rows
      → Bounded line (suc n) (collect (line + 1) rows k)
  unfolding Bounded collect first_row
  collect-Bounded line n rows ignored h m e = let (a, b) = h m e in (omega arith, omega arith)
  collect-Bounded line n rows (header p) h m e = cc
  collect-Bounded line n rows (row p) h m e =
      first-Within (test (take 511 p)) line n (first_row test rows) h m e

  rows_from-Bounded : (line : ℕ) (ls : List Str) → Bounded line (length ls) (rows_from line ls)
  unfolding rows_from Bounded first_row
  rows_from-Bounded line [] m e = cc
  rows_from-Bounded line (l ∷ ls) m e =
      collect-Bounded line (length ls) (rows_from (line + 1) ls) (line_of l)
        (rows_from-Bounded (line + 1) ls) m e

  open-Bounded :
      (b : Bool) (line : ℕ) (ls : List Str) (o : Option (ℕ × List Str))
      → Bounded (line + 1) (length ls) (rows_behind o)
      → Bounded line (suc (length ls)) (rows_behind (if b then some (line + 1, ls) else o))
  unfolding Bounded rows_behind
  open-Bounded true line ls o h m e =
      let (a, b) = rows_from-Bounded (line + 1) ls m e in (omega arith, omega arith)
  open-Bounded false line ls o h m e = let (a, b) = h m e in (omega arith, omega arith)

  open_rows-Bounded :
      (section : Str) (line : ℕ) (ls : List Str)
      → Bounded line (length ls) (rows_behind (open_rows section line ls))
  unfolding open_rows rows_behind Bounded first_row
  open_rows-Bounded section line [] m e = cc
  open_rows-Bounded section line (l ∷ ls) m e =
      open-Bounded (is_section section (line_of l)) line ls (open_rows section (line + 1) ls)
        (open_rows-Bounded section (line + 1) ls) m e

  -- A row that is found stands in the file.
  pub config_rows-Within :
      (file : File) (section : Str) (ls : List Str) (m : ℕ)
      → file.bytes ≡ some (render ls)
      → AreLines ls
      → first_row test (config_rows file section) ≡ some m
      → Within 0 (length ls) m
  unfolding config_rows rows_of_bytes Bounded
  config_rows-Within file section ls m b h e =
      let found : first_row test (rows_of_bytes section (some (render ls))) ≡ some m =
        ap (λ o. first_row test (rows_of_bytes section o)) (sym b) ∙ e in
      subst (λ n. Within 0 n m) (length-fgets_lines ls h)
        (open_rows-Bounded section 0 (fgets_lines (render ls)) m found)
