-- ===== src/Misc/Create.antt =====
-- src/misc.c: mask_create(), which makes a mask of an ident, and ischan().
-- Only a depth of 1 is called for. `none` is a read or write outside a text.
pub mod Meaning
mod Tests
use mx3bot.Base.{
  ℕ, ◌-◌, ◌||◌, Bool, true, false, Option, none, some, List, [], ◌∷◌, ◌++◌, ◌==◌, leb, take, length,
  if◌then◌else◌, ◌>>=◌,
}
use mx3bot.CString.{Str, is_digit, is_empty, strncpy}
use mx3bot.Strtok.{strtok}

-- Whether the last byte is a digit; `none` for a text without one.
unfoldable pub ends_in_digit : Str → Option Bool
ends_in_digit [] = none
ends_in_digit (c ∷ []) = some (is_digit c)
ends_in_digit (c ∷ d ∷ s) = ends_in_digit (d ∷ s)

-- The text before its last dot, or nothing where there is no dot behind the first byte.
unfoldable pub before_last_dot : Str → Option Str
before_last_dot [] = none
before_last_dot (c ∷ s) = elim (before_last_dot s) [
  | some t ↦ some (c ∷ t)
  | none ↦ if c == b'.' then some [] else none
]

network : Str → Str
unfolding before_last_dot
network host = elim (before_last_dot host) [ some t ↦ t | none ↦ [] ]

-- From the first dot on.
unfoldable pub domain : Str → Str
domain [] = []
domain (c ∷ s) = if c == b'.' then c ∷ s else domain s

unfoldable pub without_tilde : Str → Str
without_tilde [] = []
without_tilde (c ∷ s) = if c == b'~' then s else c ∷ s

-- `*!*user@`
abbrev pub any_nick : Str → Str
any_nick user = b'*' ∷ b'!' ∷ b'*' ∷ (user ++ b'@' ∷ [])

-- snprintf() keeps `maxlen - 1` bytes, for a `maxlen` above 0.
unfoldable pub mask_of : Str → Str → Bool → Str
unfolding network domain
mask_of user host true = any_nick user ++ (network host ++ b'.' ∷ b'*' ∷ [])
mask_of user host false =
    if leb (length (domain host)) 4
    then any_nick user ++ host
    else any_nick user ++ (b'*' ∷ domain host)

-- `host` has no end if `_host` does not fit.
unfoldable pub mask_create2 : Str → Str → ℕ → Option Str
unfolding mask_of ends_in_digit without_tilde
mask_create2 user _host maxlen =
    let made : Option Str = ends_in_digit _host >>= λ digit.
    some (take (maxlen - 1) (mask_of (without_tilde user) _host digit)) in
    if leb 256 (length _host) then none else made

create_parts : Option Str → Option Str → ℕ → Option Str
unfolding mask_create2
create_parts none host maxlen = some []
create_parts (some user) none maxlen = some []
create_parts (some user) (some host) maxlen = mask_create2 user host maxlen

unfoldable pub mask_create : Str → ℕ → Option Str
unfolding strtok create_parts
mask_create ident maxlen =
    let (nick, s) = strtok ident (b'!' ∷ []) in
    let (user, s1) = strtok s (b'@' ∷ []) in create_parts user (strtok s1 []).0 maxlen

unfoldable pub ischan : Option Str → Bool
ischan none = false
ischan (some []) = false
ischan (some (c ∷ s)) = (c == b'#') || ((c == b'+') || ((c == b'&') || (c == b'!')))
