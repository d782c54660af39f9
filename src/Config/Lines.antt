-- ===== src/Config/Lines.antt =====
-- src/config.c: what a text file of sections and rows is, as the list of its lines.
use mx3bot.Base.{
  ℕ, zero, suc, ◌+◌, ◌-◌, ◌≤◌, ◌<◌, ◌≡◌, refl, ap, ◌∙◌, sym, Bool, true, false, ◌&&◌, leb, not,
  Option, none, some, List, [], ◌∷◌, ◌++◌, ◌==◌, if◌then◌else◌, length, arith, take, drop,
}
use mathlib.Core.List.{append_assoc}
use mx3bot.CString.{Str, str_case_eq}
use mx3bot.Strtok.{IsFree, are_free, are_free-IsFree, is_in, strtok}
use mx3bot.Config.{blanks, newlines, split_lines}
use mx3bot.Config.Write.{Lines, done, is_break, line, read_lines}

-- Each line ends in a newline.
abbrev pub render : List Str → Str
render [] = []
render (l ∷ ls) = l ++ b'\n' ∷ render ls

-- A line has no line break in it and fits the buffer of fgets().
abbrev pub IsLine : Str → Type 0
IsLine l = IsFree newlines l × (length l ≤ 1022)

abbrev pub AreLines : List Str → Type 0
AreLines [] = Unit {0}
AreLines (l ∷ ls) = IsLine l × AreLines ls

both : (a b : Bool) → (a && b) ≡ true → (a ≡ true) × (b ≡ true)
both true b h = (refl, h)
both false b h = cc

short : (l : Str) → leb (length l) 1022 ≡ true → length l ≤ 1022
short l h = ground arith

-- AreLines() as a test.
unfoldable pub are_lines : List Str → Bool
unfolding are_free
are_lines [] = true
are_lines (l ∷ ls) = are_free newlines l && (leb (length l) 1022 && are_lines ls)

pub are_lines-AreLines : (ls : List Str) → are_lines ls ≡ true → AreLines ls
unfolding are_lines
are_lines-AreLines [] h = tt
are_lines-AreLines (l ∷ ls) h =
    let (a, b) = both (are_free newlines l) _ h in
    let (c, d) = both (leb (length l) 1022) (are_lines ls) b in
    ((are_free-IsFree newlines l a, short l c), are_lines-AreLines ls d)

pub AreLines-append : (a b : List Str) → AreLines (a ++ b) → AreLines a × AreLines b
AreLines-append [] b h = (tt, h)
AreLines-append (l ∷ a) b h = let (p, q) = AreLines-append a b h.1 in ((h.0, p), q)

pub AreLines-replace :
    (a : List Str) (l l' : Str) (b : List Str)
    → AreLines (a ++ l ∷ b)
    → IsLine l'
    → AreLines (a ++ l' ∷ b)
AreLines-replace [] l l' b h k = (k, h.1)
AreLines-replace (x ∷ a) l l' b h k = (h.0, AreLines-replace a l l' b h.1 k)

-- A line is blank or a comment, the header of a section, or a row with its first word.
pub data LineKind : Type 0 where
  remark : LineKind
  head : Option Str → LineKind
  entry : Str → LineKind

abbrev pub kind_of_word : Option Str → LineKind
unfolding strtok
kind_of_word none = remark
kind_of_word (some []) = remark
kind_of_word (some (c ∷ id)) =
    if c == b'#'
    then remark
    else if c == b'['
    then head (strtok id (b']' ∷ [])).0
    else entry (c ∷ id)

unfoldable pub kind_of : Str → LineKind
unfolding strtok
kind_of l = kind_of_word (strtok l blanks).0

-- Not the header of that section, in any case of letters, nor one without a name.
abbrev pub outside : Str → LineKind → Bool
outside section remark = true
outside section (entry id) = true
outside section (head none) = false
outside section (head (some p)) = not (str_case_eq p section)

-- No header, and not a row of that name, in any case of letters.
abbrev pub inside : Str → LineKind → Bool
inside name remark = true
inside name (entry id) = not (str_case_eq id name)
inside name (head p) = false

abbrev pub All : (LineKind → Bool) → List Str → Type 0
All f [] = Unit {0}
All f (l ∷ ls) = (f (kind_of l) ≡ true) × All f ls

-- The end of a section is the end of the file or the next header.
abbrev pub IsEnd : List Str → Type 0
IsEnd [] = Unit {0}
IsEnd (l ∷ ls) = (p : Option Str) × (kind_of l ≡ head p)

not_full : (j n : ℕ) → j + suc n ≤ 1023 → (j == 1023) ≡ false
not_full j n h = ground arith

pub add_zero : (i : ℕ) → i + 0 ≡ i
add_zero i = omega arith

shift : (i n : ℕ) → i + 1 + n + 1 ≡ i + suc n + 1
shift i n = omega arith

pub render-append : (a b : List Str) → render (a ++ b) ≡ render a ++ render b
render-append [] b = refl
render-append (l ∷ a) b = rw (render-append a b, append_assoc l (b'\n' ∷ render a) (render b))

pub take-append : (a b : Str) → take (length a) (a ++ b) ≡ a
take-append [] b = refl
take-append (c ∷ a) b = ap (◌∷◌ c) (take-append a b)

pub drop-append : (a b : Str) → drop (length a) (a ++ b) ≡ b
drop-append [] b = refl
drop-append (c ∷ a) b = drop-append a b

no_break : (c : ℕ) → is_in newlines c ≡ false → is_break c ≡ false
unfolding is_in
no_break c h = ground arith

pub no_newline : (c : ℕ) → is_in newlines c ≡ false → (c == b'\n') ≡ false
unfolding is_in
no_newline c h = ground arith

-- What fgets() returns of a line.
pub split_lines-append :
    (room : ℕ) (l s : Str)
    → IsFree newlines l
    → length l < room
    → split_lines room (l ++ b'\n' ∷ s) ≡ (l ++ b'\n' ∷ []) ∷ split_lines 1023 s
unfolding split_lines
split_lines-append room [] s h e = refl
split_lines-append room (c ∷ l) s h e =
    let out : (room == 1) ≡ false = ground arith in
    rw (no_newline c h.0, out, split_lines-append (room - 1) l s h.1 (omega arith))

-- The lines that the loop of config_set_str() goes through, from an offset on.
abbrev pub lines_at : ℕ → List Str → Lines
lines_at i [] = done
lines_at i ([] ∷ ls) = lines_at (i + 1) ls
lines_at i ((c ∷ l) ∷ ls) = line i (c ∷ l) (lines_at (i + length (c ∷ l) + 1) ls)

pub read_lines-append :
    (start j i : ℕ) (l s : Str)
    → IsFree newlines l
    → j + length l ≤ 1023
    → (k : ℕ) × (read_lines false start j i (l ++ b'\n' ∷ s)
        ≡ line start l (read_lines true start k (i + length l + 1) s))
unfolding read_lines
read_lines-append start j i [] s h e = (j, rw (add_zero i))
read_lines-append start j i (c ∷ l) s h e =
    let (k, r) = read_lines-append start (j + 1) (i + 1) l s h.1 (omega arith) in
    (k, rw (no_break c h.0, not_full j (length l) e, r, shift i (length l)))

pub read_lines-render :
    (start j i : ℕ) (ls : List Str)
    → AreLines ls
    → read_lines true start j i (render ls) ≡ lines_at i ls
unfolding read_lines
read_lines-render start j i [] h = refl
read_lines-render start j i ([] ∷ ls) h = read_lines-render start j (i + 1) ls h.1
read_lines-render start j i ((c ∷ l) ∷ ls) h =
    let (k, r) = read_lines-append i 1 (i + 1) l (render ls) h.0.0.1 (omega (arith, h.0.1)) in
    rw (
      no_break c h.0.0.0,
      r,
      shift i (length l),
      read_lines-render i k (i + suc (length l) + 1) ls h.1,
    )

-- The lines around the rows of a section: those up to its header, the header with what stands in
-- its brackets, and what is behind the section.
pub record Section : Type 0 where
  pub before : List Str
  pub header : Str
  pub title : Str
  pub after : List Str

abbrev pub text : Section → List Str → List Str
text s rows = s.before ++ s.header ∷ (rows ++ s.after)

-- These are the rows of the first section of that name, in any case of letters.
abbrev pub IsSection : Str → Section → Type 0
IsSection section s =
    All (outside section) s.before
    × (kind_of s.header ≡ head (some s.title))
    × (str_case_eq s.title section ≡ true)
    × IsEnd s.after

-- The lines up to a row.
abbrev pub upto : Section → List Str → List Str
upto s rows = s.before ++ s.header ∷ rows

pub text-upto : (s : Section) (a b : List Str) → text s (a ++ b) ≡ upto s a ++ (b ++ s.after)
text-upto s a b =
    ap (λ t. s.before ++ s.header ∷ t) (append_assoc a b s.after)
    ∙ sym (append_assoc s.before (s.header ∷ a) (b ++ s.after))

-- A list without its entry at an index.
abbrev pub remove : ℕ → List Str → List Str
remove n [] = []
remove zero (l ∷ ls) = ls
remove (suc n) (l ∷ ls) = l ∷ remove n ls

pub length-remove : (n : ℕ) (ls : List Str) → n < length ls → suc (length (remove n ls)) ≡ length ls
length-remove n [] h = absurd (omega arith)
length-remove zero (l ∷ ls) h = refl
length-remove (suc n) (l ∷ ls) h = ap suc (length-remove n ls (omega arith))

pub AreLines-remove : (n : ℕ) (ls : List Str) → AreLines ls → AreLines (remove n ls)
AreLines-remove n [] h = h
AreLines-remove zero (l ∷ ls) h = h.1
AreLines-remove (suc n) (l ∷ ls) h = (h.0, AreLines-remove n ls h.1)
