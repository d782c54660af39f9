-- ===== src/Connection/Line.antt =====
-- src/connection.c: how a line between the parent and a child is made and taken apart.
pub mod Words
use mx3bot.Base.{Bool, true, false, Option, none, some, List, [], ◌∷◌, ◌++◌, if◌then◌else◌}
use mx3bot.CString.{Str, str_eq}
use mx3bot.Strtok.{strtok}

infixr 30 ◌⌢◌
-- Two texts with a blank between them.
abbrev pub ◌⌢◌ : Str → Str → Str
a ⌢ b = a ++ b' ' ∷ b

-- strtok() with a blank; a null text goes on where nothing is left.
unfoldable pub next_word : Str → Option Str × Str
unfolding strtok
next_word s = strtok s (b' ' ∷ [])

-- strtok() with no delimiters
unfoldable pub all_left : Str → Option Str
unfolding strtok
all_left s = (strtok s []).0

abbrev pub or_empty : Option Str → Str
or_empty none = []
or_empty (some s) = s

-- The function for a command, of a list in the order in which strcmp() compares the words.
abbrev pub chosen {ℓ} : {A : Type ℓ} → Str → List (Str × A) → Option A
chosen cmd [] = none
chosen cmd ((name, f) ∷ fs) = let rest = chosen cmd fs in if str_eq cmd name then some f else rest
