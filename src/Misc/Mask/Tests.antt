-- ===== src/Misc/Mask/Tests.antt =====
-- Runs of mask_match(), and its theorems at concrete masks.
use mx3bot.Base.{◌≡◌, ◌≢◌, refl, Bool, true, false, some, [], ◌∷◌, ◌++◌, arith}
use mx3bot.CString.{Str, str_case_eq}
use mx3bot.Misc.Mask.{mask_match}
use mx3bot.Misc.Mask.Glob.{Glob, mask_match-Glob}
use mx3bot.Misc.Mask.Plain.{mask_match-IsPlain, mask_match-total}
use mx3bot.Misc.Mask.Starred.{mask_match-last_occurrence, two_texts}

abbrev no_regex : Str → Str → Bool
no_regex pattern text = false

-- *!*ann@*.Net and A!ann@b.Net
abbrev mask : Str
mask = b'!' ∷ b'*' ∷ b'a' ∷ b'n' ∷ b'n' ∷ b'@' ∷ b'*' ∷ b'.' ∷ b'N' ∷ b'e' ∷ b't' ∷ []

abbrev ident : Str
ident = b'A' ∷ b'!' ∷ b'a' ∷ b'n' ∷ b'n' ∷ b'@' ∷ b'b' ∷ b'.' ∷ b'N' ∷ b'e' ∷ b't' ∷ []

matched : mask_match no_regex (b'*' ∷ mask) ident ≡ some true
unfolding mask_match
matched = refl

mask_match-Glob_example : Glob (b'*' ∷ mask) ident
mask_match-Glob_example = mask_match-Glob no_regex b'*' mask ident (omega arith) matched

abbrev nick_lower : Str
nick_lower = b'a' ∷ b'b' ∷ []

abbrev nick_upper : Str
nick_upper = b'A' ∷ b'b' ∷ []

mask_match-IsPlain_example :
    mask_match no_regex nick_lower nick_upper ≡ some (str_case_eq nick_lower nick_upper)
mask_match-IsPlain_example =
    mask_match-IsPlain no_regex b'a' (b'b' ∷ []) nick_upper (omega arith) (omega arith)

differs : nick_lower ≢ nick_upper
differs e = cc e

mask_match-last_occurrence_example :
    (mask_match no_regex
        (two_texts nick_lower nick_upper)
        ((nick_lower ++ nick_upper) ++ nick_lower)
      ≡ some false)
    × Glob (two_texts nick_lower nick_upper) ((nick_lower ++ nick_upper) ++ nick_lower)
mask_match-last_occurrence_example =
    mask_match-last_occurrence no_regex b'a' (b'b' ∷ []) b'A' (b'b' ∷ []) (omega arith)
      (omega arith)

mask_match-total_example : (b : Bool) × (mask_match no_regex (b'*' ∷ mask) ident ≡ some b)
mask_match-total_example = mask_match-total no_regex (b'*' ∷ mask) ident
