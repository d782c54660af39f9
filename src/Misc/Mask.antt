-- ===== src/Misc/Mask.antt =====
-- src/misc.c: mask_match(), by which bans and user records are matched to nick!user@host.
-- The pointers `m` and `v` are the texts that are left of the mask and of the value. A run is
-- `none` where the model's fuel runs out, and a result of 1 is `true`.
pub mod Glob
pub mod Plain
pub mod Starred
mod Tests
use mx3bot.Base.{
  ℕ, zero, suc, ◌+◌, Bool, true, false, ◌&&◌, Option, none, some, List, [], ◌∷◌, ◌==◌,
  if◌then◌else◌, length,
}
use mx3bot.CString.{Str, is_empty, to_lower}

-- The basic string compare: up to a wildcard or the end of the mask, or `none` at a difference.
unfoldable pub compare_text : Str → Str → Option (Str × Str)
compare_text [] v = some ([], v)
compare_text (c ∷ m) [] = if c == b'*' then some (c ∷ m, []) else none
compare_text (c ∷ m) (d ∷ v) =
    let rest = compare_text m v in
    if c == b'*' then some (c ∷ m, d ∷ v) else if to_lower c == to_lower d then rest else none

-- `while(*m == '*') m++;`
unfoldable pub skip_wildcards : Str → Str
skip_wildcards [] = []
skip_wildcards (c ∷ m) = if c == b'*' then skip_wildcards m else c ∷ m

-- The text up to the next wildcard, of length m2 - m.
unfoldable pub segment : Str → Str
segment [] = []
segment (c ∷ m) = if c == b'*' then [] else c ∷ segment m

-- strncmp(m, v2, m2 - m) == 0
unfoldable pub starts_with : Str → Str → Bool
starts_with [] v = true
starts_with (c ∷ p) [] = false
starts_with (c ∷ p) (d ∷ v) = (c == d) && starts_with p v

-- `v2`: the search begins at the end of the value, so it stops at the last occurrence.
unfoldable pub last_occurrence : Str → Str → Option Str
last_occurrence p [] = none
last_occurrence p (d ∷ v) = elim (last_occurrence p v) [
  | some w ↦ some w
  | none ↦ if starts_with p (d ∷ v) then some (d ∷ v) else none
]

-- One pass of `while(*m)` on a mask that is not at its end; `rest` are the passes that follow.
seek : (Str → Str → Option Bool) → Str → Option Str → Option Bool
seek rest m2 none = some false
seek rest m2 (some v2) = rest m2 v2

past_wildcards : (Str → Str → Option Bool) → Str → Str → Option Bool
unfolding seek
past_wildcards rest m2 v1 =
    if is_empty m2 then some true else seek rest m2 (last_occurrence (segment m2) v1)

past_text : (Str → Str → Option Bool) → Option (Str × Str) → Option Bool
unfolding past_wildcards
past_text rest none = some false
past_text rest (some (m1, v1)) =
    if is_empty m1 then some (is_empty v1) else past_wildcards rest (skip_wildcards m1) v1

unfoldable pub match_loop : ℕ → Str → Str → Option Bool
unfolding past_text
match_loop zero m v = none
match_loop (suc fuel) [] v = some (is_empty v)
match_loop (suc fuel) (c ∷ m) v =
    if is_empty v then some false else past_text (match_loop fuel) (compare_text (c ∷ m) v)

-- `regex` is what the regular expression library finds, and constantly `false` without it.
unfoldable pub mask_match : (Str → Str → Bool) → Str → Str → Option Bool
unfolding compare_text skip_wildcards segment starts_with last_occurrence match_loop
mask_match regex [] val = match_loop 1 [] val
mask_match regex (c ∷ mask) val =
    let plain = match_loop (length (c ∷ mask) + 1) (c ∷ mask) val in
    if c == b'$' then some (regex mask val) else plain
