-- ===== src/Misc/Create/Tests.antt =====
-- A mask of ~ann@h.net.
use mx3bot.Base.{refl, ◌<◌, Bool, length, true, false, [], ◌∷◌, ◌++◌, arith, Yields}
use mx3bot.CString.{Str}
use mx3bot.Misc.Create.{before_last_dot, domain, mask_create2, mask_of, without_tilde}
use mx3bot.Misc.Create.Meaning.{mask_create2-Glob}
use mx3bot.Misc.Mask.Glob.{Glob}
use mx3bot.Misc.Mask.Plain.{IsPlain}

abbrev user : Str
user = b'~' ∷ b'a' ∷ b'n' ∷ []

abbrev host : Str
host = b'h' ∷ b'.' ∷ b'n' ∷ b'e' ∷ b't' ∷ []

abbrev nick : Str
nick = b'A' ∷ []

user-IsPlain : IsPlain user
user-IsPlain = (λ z. omega arith, (λ z. omega arith, (λ z. omega arith, tt)))

host-IsPlain : IsPlain host
host-IsPlain = (
  λ z. omega arith,
  (λ z. omega arith, (λ z. omega arith, (λ z. omega arith, (λ z. omega arith, tt)))),
)

mask_has_room : (digit : Bool) → length (mask_of (without_tilde user) host digit) < 128
unfolding before_last_dot mask_of domain without_tilde
mask_has_room true = omega arith
mask_has_room false = omega arith

mask_create2-Glob_example :
    Yields (λ mask. Glob mask (nick ++ b'!' ∷ (user ++ b'@' ∷ host))) (mask_create2 user host 128)
unfolding before_last_dot
mask_create2-Glob_example =
    mask_create2-Glob nick user host user-IsPlain host-IsPlain (b'h' ∷ []) refl 128 (omega arith)
      mask_has_room
