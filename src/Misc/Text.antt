-- ===== src/Misc/Text.antt =====
-- src/misc.c: mask_match3(), and the functions on texts but timestr(), which is the library's
-- strftime().
use mx3bot.Base.{
  ℕ, Bool, true, false, ◌||◌, Option, none, some, [], ◌∷◌, ◌++◌, ◌-◌, ◌==◌, if◌then◌else◌, map,
  take,
}
use mx3bot.CString.{Str, is_empty}
use mx3bot.Misc.Mask.{mask_match}

-- The ident stands where mask_match() takes the mask.
unfoldable pub mask_match3 : (Str → Str → Bool) → Str → Str → Str → Str → Option Bool
unfolding mask_match
mask_match3 regex nick user host val =
    mask_match regex (take 511 (nick ++ b'!' ∷ (user ++ b'@' ∷ host))) val

unfoldable pub nl2sp : Str → Str
nl2sp p = map (λ c. if (c == b'\n') || (c == b'\r') then b' ' else c) p

up_to_newline : Str → Str
up_to_newline [] = []
up_to_newline (c ∷ s) = let rest = up_to_newline s in if c == b'\n' then [] else c ∷ rest

-- `buf` is what the array holds before, and `typed` what can be read from the terminal; where there is
-- nothing the array stays. The result is the text, and 1 unless it is the default.
typed_text : ℕ → Str → Str → Str
unfolding up_to_newline
typed_text len buf [] = up_to_newline buf
typed_text len buf (c ∷ typed) = up_to_newline (take (len - 1) (c ∷ typed))

unfoldable pub text_input : ℕ → Str → Str → Option Str → Str × Bool
unfolding typed_text
text_input len buf typed none = (typed_text len buf typed, true)
text_input len buf typed (some def) =
    let text = typed_text len buf typed in if is_empty text then (def, false) else (text, true)
