-- ===== src/Config/RoundTrip.antt =====
-- src/config.c: config_get_str() on the file that config_set_str() has written.
use mx3bot.Base.{
  ℕ, ◌-◌, ◌≡◌, refl, ap, ◌∙◌, sym, subst, Bool, true, false, Bool-cases, inl, inr, some, List, [],
  ◌∷◌, ◌++◌, take, take_all, arith,
}
use mathlib.Core.Bool.{true≢false}
use mx3bot.CString.{Str, str_case_eq, str_case_eq_refl, str_eq, str_eq_iff}
use mx3bot.Config.{File, okay, config_get_str}
use mx3bot.Config.Lines.{
  All, AreLines, AreLines-append, IsLine, IsSection, Section, entry, inside, kind_of, render, text,
  text-upto, upto,
}
use mx3bot.Config.Read.{config_get_str-looks, looks, looks-append, looks-other}
use mx3bot.Config.Read.Row.{IsName, IsValue, config_get_str-row, kind_of-row_of, row_of}
use mx3bot.Config.Write.{config_set_str, row_text}
use mx3bot.Config.Write.Laws.{config_set_str-found, config_set_str-new}

-- No row is of that name, in any case of letters, or one is.
pub data IsOnce (name : Str) : List Str → Type 0 where
  absent : {rows : List Str} → All (inside name) rows → IsOnce name rows
  present :
      (rows : List Str) (row id : Str) (rows' : List Str)
      → All (inside name) rows
      → kind_of row ≡ entry id
      → str_case_eq id name ≡ true
      → All (inside name) rows'
      → IsOnce name (rows ++ row ∷ rows')

module _ (section name val : Str) (s : Section) (file : File) (len : ℕ) where
  -- The file behind config_set_str(), as the lines up to the new row, that row, and the others.
  written :
      (rows rows' : List Str)
      → IsLine (row_of name val)
      → some (render (text s (rows ++ row_text (some name) (some val) ∷ rows')))
        ≡ some (render (upto s rows ++ row_of name val ∷ (rows' ++ s.after)))
  written rows rows' l =
      rw (take_all 1023 (row_of name val) (omega (arith, l.1)))
        (ap (λ t. some (render t)) (text-upto s rows (row_of name val ∷ rows')))

  read_back :
      (rows back rows' : List Str)
      → All (inside name) rows
      → IsSection section s
      → str_eq s.title section ≡ true
      → IsName name
      → IsValue val
      → IsLine (row_of name val)
      → AreLines (text s (rows ++ back))
      → config_get_str
          (record file {
            bytes = some (render (text s (rows ++ row_text (some name) (some val) ∷ rows')));
          })
          section
          name
          len
        ≡ some (okay, some (take (len - 1) val))
  read_back rows back rows' r h e n v l lines =
      config_get_str-row section name s _ len rows val (rows' ++ s.after) h e
        (AreLines-append (upto s rows) (back ++ s.after)
          (subst AreLines (text-upto s rows back) lines)).0
        r n v l (written rows rows' l)

  -- In a file of lines of at most 1022 bytes that can be written, where the name stands at most
  -- once in the first section of that title, in any case of letters, and the title is written as it
  -- is asked for, `config_set_str` with a name without blanks that does not start with # or [, and
  -- a value that is not empty and does not start with a blank returns CONFIG_OK, if the row fits a
  -- line, and `config_get_str` then returns the value, up to the length of its buffer.
  pub config_get_str-config_set_str :
      (rows : List Str)
      → IsOnce name rows
      → IsSection section s
      → str_eq s.title section ≡ true
      → IsName name
      → IsValue val
      → IsLine (row_of name val)
      → file.writable ≡ true
      → AreLines (text s rows)
      → file.bytes ≡ some (render (text s rows))
      → (file' : File) × (config_set_str file section (some name) (some val) ≡ some (file', okay))
        × (config_get_str file' section name len ≡ some (okay, some (take (len - 1) val)))
  config_get_str-config_set_str rows (absent r) h e n v l w lines b = (
    _,
    config_set_str-new section name s file val rows r h w lines b,
    read_back [] rows rows tt h e n v l lines,
  )
  config_get_str-config_set_str _ (present rows row id rows' r k i r') h e n v l w lines b = (
    _,
    config_set_str-found section name s file (some val) rows row id rows' r k i r' h w lines b,
    read_back rows (row ∷ rows') rows' r h e n v l lines,
  )

differs :
    (id name other : Str)
    → str_case_eq id name ≡ true
    → str_case_eq other name ≡ false
    → str_eq id other ≡ false
differs id name other h k = elim (Bool-cases (str_eq id other)) [
  | inl e ↦
      absurd (true≢false (sym h ∙ ap (λ t. str_case_eq t name) ((str_eq_iff id other).0 e) ∙ k))
  | inr e ↦ e
]

module _ (section name val : Str) (s : Section) (file : File) (section' other : Str) (len : ℕ) where
  -- Rows of other names are read as before.
  same :
      (rows a b : List Str)
      → AreLines (text s (rows ++ a))
      → ((sect : Bool)
          → looks section' other sect (render (a ++ s.after))
            ≡ looks section' other sect (render (b ++ s.after)))
      → file.bytes ≡ some (render (text s (rows ++ a)))
      → config_get_str
          (record file { bytes = some (render (text s (rows ++ b))) })
          section'
          other
          len
        ≡ config_get_str file section' other len
  same rows a b lines h e =
      config_get_str-looks section' other _ file len (render (text s (rows ++ b)))
        (render (text s (rows ++ a))) refl e
        (ap (λ t. looks section' other false (render t)) (text-upto s rows b)
          ∙ looks-append section' other (upto s rows) (b ++ s.after) (a ++ s.after)
              (AreLines-append (upto s rows) (a ++ s.after)
                (subst AreLines (text-upto s rows a) lines)).0
              (λ x. sym (h x)) false
          ∙ sym (ap (λ t. looks section' other false (render t)) (text-upto s rows a)))

  new_row :
      (rest : List Str)
      → str_case_eq other name ≡ false
      → IsName name
      → IsLine (row_of name val)
      → (sect : Bool)
      → looks section' other sect (render (row_text (some name) (some val) ∷ rest))
        ≡ looks section' other sect (render rest)
  new_row rest o n l sect =
      ap (λ t. looks section' other sect (render (t ∷ rest)))
        (take_all 1023 (row_of name val) (omega (arith, l.1)))
      ∙ looks-other section' other (row_of name val) name rest l (kind_of-row_of name val n)
          (differs name name other (str_case_eq_refl name) o) sect

  -- Under the same conditions, but for those on the value and on the case of the header,
  -- `config_get_str` reads every other name, of any section, as it did before `config_set_str`.
  pub config_get_str-config_set_str_other :
      (rows : List Str)
      → IsOnce name rows
      → str_case_eq other name ≡ false
      → IsSection section s
      → IsName name
      → IsLine (row_of name val)
      → file.writable ≡ true
      → AreLines (text s rows)
      → file.bytes ≡ some (render (text s rows))
      → (file' : File) × (config_set_str file section (some name) (some val) ≡ some (file', okay))
        × (config_get_str file' section' other len ≡ config_get_str file section' other len)
  config_get_str-config_set_str_other rows (absent r) o h n l w lines b = (
    _,
    config_set_str-new section name s file val rows r h w lines b,
    same [] rows (row_text (some name) (some val) ∷ rows) lines
        (λ sect. sym (new_row (rows ++ s.after) o n l sect)) b,
  )
  config_get_str-config_set_str_other _ (present rows row id rows' r k i r') o h n l w lines b =
      let own =
        (AreLines-append (upto s rows) (row ∷ (rows' ++ s.after))
          (subst AreLines (text-upto s rows (row ∷ rows')) lines)).1.0 in
      (
        _,
        config_set_str-found section name s file (some val) rows row id rows' r k i r' h w lines b,
        same rows (row ∷ rows') (row_text (some name) (some val) ∷ rows') lines
            (λ sect.
              looks-other section' other row id (rows' ++ s.after) own k (differs id name other i o)
                sect
              ∙ sym (new_row (rows' ++ s.after) o n l sect))
            b,
      )
