-- ===== src/Config/Write/Laws.antt =====
-- src/config.c: what config_set_str() makes of a file of sections and rows.
use mx3bot.Base.{
  ℕ, ◌+◌, ◌≡◌, ap, ◌∙◌, sym, subst, true, Option, none, some, List, [], ◌∷◌, ◌++◌, length,
  length-append, arith,
}
use mathlib.Core.List.{append_assoc}
use mx3bot.CString.{Str, str_case_eq}
use mx3bot.Config.{File, okay}
use mx3bot.Config.Lines.{
  add_zero, All, AreLines, IsSection, Section, entry, inside, kind_of, lines_at, outside, render,
  render-append, text, text-upto, upto,
}
use mx3bot.Config.Write.{config_set_str, row_text, set_lines, set_loop}
use mx3bot.Config.Write.Put.{
  at, inside-IsIdle, outside-IsIdle, pass_lines, pass_header, pass_row, set_lines-render, stop,
}
use mx3bot.Config.Write.Splice.{add_line, replace_line, set_bytes-found, set_bytes-new}

length-upto :
    (s : Section) (rows : List Str)
    → 0 + length (render s.before) + length s.header + 1 + length (render rows)
      ≡ length (render (upto s rows))
length-upto s rows = rw (render-append s.before (s.header ∷ rows)) (
    omega (
      arith,
      length-append (render s.before) (render (s.header ∷ rows)),
      length-append s.header (b'\n' ∷ render rows),
    ))

module _ (section name : Str) (s : Section) (h : IsSection section s) where
  -- The loop comes to a row behind rows of other names.
  to_row :
      (rows rest : List Str)
      → AreLines (s.before ++ s.header ∷ (rows ++ rest))
      → All (inside name) rows
      → (sect : ℕ) × (set_loop section
            (some name)
            (at none none)
            (set_lines (render (s.before ++ s.header ∷ (rows ++ rest))))
          ≡ set_loop section
              (some name)
              (at (some sect) none)
              (lines_at (length (render (upto s rows))) rest))
        × (sect + 1 ≡ length (render (upto s [])))
  to_row rows rest lines r =
      let i = 0 + length (render s.before) in
      let sect = i + length s.header in
      (
        sect,
        set_lines-render section name (at none none) (s.before ++ s.header ∷ (rows ++ rest)) lines
            ∙ pass_lines section name (at none none) (outside section) (outside-IsIdle section name)
                0 s.before (s.header ∷ (rows ++ rest)) h.0
            ∙ pass_header section name i s.header s.title (rows ++ rest) h.1 h.2
            ∙ pass_lines section name (at (some sect) none) (inside name)
                (inside-IsIdle section name sect none) (sect + 1) rows rest r
            ∙ ap (λ n. set_loop section (some name) (at (some sect) none) (lines_at n rest))
                (length-upto s rows),
        sym (add_zero _) ∙ length-upto s [],
      )

module _ (section name : Str) (s : Section) (file : File) where
  abbrev Writes : Option Str → List Str → List Str → Type 0
  Writes val rows rows' =
      IsSection section s
      → file.writable ≡ true
      → AreLines (text s rows)
      → file.bytes ≡ some (render (text s rows))
      → config_set_str file section (some name) val
        ≡ some (record file { bytes = some (render (text s rows')) }, okay)

  pub config_set_str-new :
      (val : Str) (rows : List Str)
      → All (inside name) rows
      → Writes (some val) rows (row_text (some name) (some val) ∷ rows)
  config_set_str-new val rows r h w lines b =
      let (sect, found, k) = to_row section name s h rows s.after lines r in
      set_bytes-new file section name val (render (text s rows)) sect b w
        (found ∙ stop section name (length (render (upto s rows))) sect none s.after h.3)
      ∙ ap (λ t. some (record file { bytes = some t }, okay))
          (rw (k, text-upto s [] rows, text-upto s [] (row_text (some name) (some val) ∷ rows))
            (add_line (upto s []) (row_text (some name) (some val)) (rows ++ s.after)))

  pub config_set_str-found :
      (val : Option Str) (rows : List Str) (row id : Str) (rows' : List Str)
      → All (inside name) rows
      → kind_of row ≡ entry id
      → str_case_eq id name ≡ true
      → All (inside name) rows'
      → Writes val (rows ++ row ∷ rows') (rows ++ row_text (some name) val ∷ rows')
  config_set_str-found val rows row id rows' r e e' r' h w lines b =
      let whole : text s (rows ++ row ∷ rows')
          ≡ s.before ++ s.header ∷ (rows ++ (row ∷ (rows' ++ s.after))) =
        ap (λ t. s.before ++ s.header ∷ t) (append_assoc rows (row ∷ rows') s.after) in
      let (sect, found, k) =
        to_row section name s h rows (row ∷ (rows' ++ s.after)) (subst AreLines whole lines) r in
      let i = length (render (upto s rows)) in
      set_bytes-found file section name val (render (text s (rows ++ row ∷ rows'))) sect i
        (i + length row + 1) b w
        (ap (λ t. set_loop section (some name) (at none none) (set_lines (render t))) whole
          ∙ found
          ∙ pass_row section name i sect none row id (rows' ++ s.after) e e'
          ∙ pass_lines section name (at (some sect) (some (i, i + length row + 1))) (inside name)
              (inside-IsIdle section name sect (some (i, i + length row + 1))) (i + length row + 1)
              rows' s.after r'
          ∙ stop section name (i + length row + 1 + length (render rows')) sect
              (some (i, i + length row + 1)) s.after h.3)
      ∙ ap (λ t. some (record file { bytes = some t }, okay))
          (rw (text-upto s rows (row ∷ rows'), text-upto s rows (row_text (some name) val ∷ rows'))
            (replace_line (upto s rows) row (row_text (some name) val) (rows' ++ s.after)))
