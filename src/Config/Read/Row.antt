-- ===== src/Config/Read/Row.antt =====
-- src/config.c: config_get_str() on a file that has a row of the name.
use mx3bot.Base.{
  ℕ, ◌-◌, ◌≡◌, refl, ap, ◌∙◌, Bool, true, false, Option, some, List, [], ◌∷◌, ◌++◌, ◌==◌, take,
  arith,
}
use mathlib.Core.Bool.{true≢false}
use mathlib.Core.List.{append_assoc}
use mx3bot.CString.{Str, str_eq, str_eq_refl}
use mx3bot.Strtok.{IsFree, is_in, skip_delims_none, strtok, strtok-IsFree}
use mx3bot.Config.{
  File, okay, blanks, blanks_newlines, newlines, config_get_str, found_at_all, found_str,
  get_str_bytes, fgets_lines, get_str_line, get_str_loop, value_of,
}
use mx3bot.Config.Lines.{
  All, AreLines, AreLines-append, IsLine, IsSection, Section, entry, inside, kind_of, outside,
  render, split_lines-append,
}
use mx3bot.Config.Read.{inside-IsUnread, looks, looks-header, looks-pass, outside-IsUnread}

is_in-blanks : (c : ℕ) → is_in blanks_newlines c ≡ false → is_in blanks c ≡ false
unfolding is_in
is_in-blanks c h = ground arith

-- A name that a row can have: it has no blank, and no `#` or `[` at its start.
abbrev pub IsName : Str → Type 0
IsName [] = true ≡ false
IsName (c ∷ name) =
    IsFree blanks_newlines (c ∷ name) × ((c == b'#') ≡ false) × ((c == b'[') ≡ false)

-- A value that a row can have: it is not empty and does not start with a blank.
abbrev pub IsValue : Str → Type 0
IsValue [] = true ≡ false
IsValue (c ∷ val) = IsFree newlines (c ∷ val) × (is_in blanks c ≡ false)

abbrev pub row_of : Str → Str → Str
row_of name val = name ++ b'\t' ∷ val

pub IsFree-blanks : (s : Str) → IsFree blanks_newlines s → IsFree blanks s
IsFree-blanks [] h = tt
IsFree-blanks (c ∷ s) h = (is_in-blanks c h.0, IsFree-blanks s h.1)

pub kind_of-row_of : (name val : Str) → IsName name → kind_of (row_of name val) ≡ entry name
unfolding kind_of
kind_of-row_of [] val h = absurd (true≢false h)
kind_of-row_of (c ∷ name) val h =
    rw (strtok-IsFree blanks c name b'\t' val (IsFree-blanks (c ∷ name) h.0) refl, h.1, h.2) refl

get_row :
    (section name val : Str) (rest : Bool → Option (Option Str))
    → IsName name
    → IsValue val
    → get_str_line rest section name true (strtok (row_of name val ++ b'\n' ∷ []) blanks_newlines)
      ≡ some (some val)
unfolding get_str_line value_of
get_row section [] val rest h v = absurd (true≢false h)
get_row section (c ∷ name) [] rest h v = absurd (true≢false v)
get_row section (c ∷ name) (d ∷ val) rest h v =
    rw
      (
        append_assoc name (b'\t' ∷ d ∷ val) (b'\n' ∷ []),
        strtok-IsFree blanks_newlines c name b'\t' (d ∷ (val ++ b'\n' ∷ [])) h.0 refl,
        h.1,
        h.2,
        str_eq_refl (c ∷ name),
        strtok-IsFree newlines d val b'\n' [] v.0 refl,
        skip_delims_none blanks (d ∷ val) v.1,
      )
      refl

module _ (section name : Str) (s : Section) where
  looks-row :
      (rows : List Str) (val : Str) (rest : List Str)
      → IsSection section s
      → str_eq s.title section ≡ true
      → AreLines (s.before ++ s.header ∷ rows)
      → All (inside name) rows
      → IsName name
      → IsValue val
      → IsLine (row_of name val)
      → looks section name false (render ((s.before ++ s.header ∷ rows) ++ row_of name val ∷ rest))
        ≡ some (some val)
  unfolding get_str_loop looks
  looks-row rows val rest h e lines r n v line =
      let (front, back) = AreLines-append s.before (s.header ∷ rows) lines in
      let behind : List Str = row_of name val ∷ rest in
      ap (λ t. looks section name false (render t)) (append_assoc s.before (s.header ∷ rows) behind)
      ∙ looks-pass section name false (outside section) (outside-IsUnread section name) s.before
          (s.header ∷ (rows ++ behind)) front h.0
      ∙ looks-header section name s.header s.title (rows ++ behind) back.0 h.1 e
      ∙ looks-pass section name true (inside name) (inside-IsUnread section name) rows behind back.1
          r
      ∙ rw (split_lines-append 1023 (row_of name val) (render rest) line.0 (omega (arith, line.1)))
          (get_row section name val (λ b. looks section name b (render rest)) n v)

  -- The rows before the first of that name, that row, and what is behind it.
  pub config_get_str-row :
      (file : File) (len : ℕ) (rows : List Str) (val : Str) (rest : List Str)
      → IsSection section s
      → str_eq s.title section ≡ true
      → AreLines (s.before ++ s.header ∷ rows)
      → All (inside name) rows
      → IsName name
      → IsValue val
      → IsLine (row_of name val)
      → file.bytes ≡ some (render ((s.before ++ s.header ∷ rows) ++ row_of name val ∷ rest))
      → config_get_str file section name len ≡ some (okay, some (take (len - 1) val))
  unfolding config_get_str get_str_bytes found_at_all found_str fgets_lines
  config_get_str-row file len rows val rest h e lines r n v line b =
      rw (b, looks-row rows val rest h e lines r n v line) refl
