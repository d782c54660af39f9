-- ===== src/Connection/Line/Words.antt =====
-- src/connection.c: the parts of a line are what strtok() takes it apart into.
use mx3bot.Base.{
  ◌≡◌, refl, ap, true, false, some, [], ◌∷◌, ◌++◌, ◌≤◌, ◌==◌, suc, zero, ℕ, arith, length,
}
use mx3bot.Base.Int.{pos}
use mx3bot.CString.{Str, is_empty}
use mx3bot.CString.Number.{AreDigits, format_int, format_int-AreDigits}
use mx3bot.Strtok.{IsFree, strtok-IsFree, strtok_all, strtok_end, is_in}
use mx3bot.Connection.Fifo.{read_line}
use mx3bot.Connection.Line.{all_left, next_word, ◌⌢◌}

-- A text that is not empty and has no blank.
abbrev pub IsWord : Str → Type 0
IsWord [] = true ≡ false
IsWord (c ∷ s) = IsFree (b' ' ∷ []) (c ∷ s)

pub IsWord-is_empty : (w : Str) → IsWord w → is_empty w ≡ false
IsWord-is_empty [] h = h
IsWord-is_empty (c ∷ s) h = refl

abbrev pub IsText : Str → Type 0
IsText [] = true ≡ false
IsText (c ∷ s) = true ≡ true

pub next_word-⌢ : (w rest : Str) → IsWord w → next_word (w ⌢ rest) ≡ (some w, rest)
unfolding next_word is_in
next_word-⌢ [] rest h = cc
next_word-⌢ (c ∷ s) rest h = strtok-IsFree (b' ' ∷ []) c s b' ' rest h refl

pub next_word_last : (w : Str) → IsWord w → next_word w ≡ (some w, [])
unfolding next_word
next_word_last [] h = cc
next_word_last (c ∷ s) h = strtok_end (b' ' ∷ []) c s h

pub all_left_text : (s : Str) → IsText s → all_left s ≡ some s
unfolding all_left
all_left_text [] h = cc
all_left_text (c ∷ s) h = ap (λ r. r.0) (strtok_all c s)

pub IsText-⌢ : (a b : Str) → IsText (a ⌢ b)
IsText-⌢ [] b = refl
IsText-⌢ (c ∷ a) b = refl

pub AreDigits-IsWord : (s : Str) → AreDigits s → IsWord s
unfolding is_in
AreDigits-IsWord [] h = h
AreDigits-IsWord (c ∷ []) h = (ground (arith, h), tt)
AreDigits-IsWord (c ∷ d ∷ s) h = (ground (arith, h.0), AreDigits-IsWord (d ∷ s) h.1)

pub format_int-IsWord : (n : ℕ) → IsWord (format_int (pos n))
format_int-IsWord n = AreDigits-IsWord (format_int (pos n)) (format_int-AreDigits n)

-- A line of at most 511 bytes is read as it was written.
pub read_line_lem :
    (room : ℕ) (l more : Str)
    → IsFree (b'\n' ∷ []) l
    → length l ≤ room
    → read_line room (l ++ b'\n' ∷ more) ≡ some (l, more)
unfolding read_line is_in
read_line_lem zero [] more h e = refl
read_line_lem (suc room) [] more h e = refl
read_line_lem zero (c ∷ l) more h e = absurd (omega arith)
read_line_lem (suc room) (c ∷ l) more h e =
    let other : (c == b'\n') ≡ false = ground (arith, h.0) in
    rw (other, read_line_lem room l more h.1 (omega arith)) refl
