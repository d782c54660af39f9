-- ===== src/User/Leave.antt =====
-- user.c: leaving a channel, and changes of nick.
use mx3bot.Base.{
  ℕ, zero, suc, ◌≡◌, ◌≢◌, ◌<◌, refl, ◌∙◌, inl, inr, false, some, List, [], ◌∷◌, map, ltb, arith,
  Bool-cases, Option-cases, length, set, get_or,
}
use mx3bot.Base.Int.{ℤ, int_eq, int_eq_iff}
use mx3bot.CString.{Str, is_empty, str_case_eq}
use mx3bot.Table.{first_index, first_index-set_same}
use mx3bot.Channel.{chan_find}
use mx3bot.User.{
  User, Users, at, check_user, is_user, leave_channel, leave_found, leave_one, rename_found,
  user_find, user_nick,
}

get_or-map :
    (f : User → User) (xs : List User) (i : ℕ) (d : User)
    → i < length xs
    → get_or (map f xs) i d ≡ f (get_or xs i d)
get_or-map f [] i d h = elim h [ ]
get_or-map f (x ∷ xs) zero d h = refl
get_or-map f (x ∷ xs) (suc i) d h = get_or-map f xs i d (omega arith)

cleared_flag : (flags : List ℕ) (c : ℕ) → get_or (set flags c 0) c 0 ≡ 0
cleared_flag [] c = refl
cleared_flag (x ∷ xs) zero = refl
cleared_flag (x ∷ xs) (suc c) = cleared_flag xs c

check_user-chan : (now : ℕ) (u : User) → (check_user now u).chan ≡ u.chan
unfolding check_user
check_user-chan now u = elim (Option-cases (first_index (λ c. ltb 0 c) u.chan)) [
  | inl e ↦ rw (e, check_user) refl
  | inr (i, e) ↦ rw (e, check_user) refl
]

leave_one-chan :
    (now c : ℕ) (u : User) → is_empty u.nick ≡ false → get_or (leave_one now c u).chan c 0 ≡ 0
unfolding leave_one
leave_one-chan now c u named = elim (Bool-cases (ltb 0 (get_or u.chan c 0))) [
  | inl there ↦
      rw (named, there)
        (rw (check_user-chan now (record u { chan = set u.chan c 0 })) (cleared_flag u.chan c))
  | inr absent ↦ rw (named, absent) (ground (arith, absent))
]

-- When the bot leaves a channel that it is in, no user with a nick is counted as in it afterwards.
pub leave_channel-chan :
    (now : ℕ) (server : ℤ) (chan : Str) (s : Users) (c i : ℕ)
    → chan_find server chan s.channel ≡ some c
    → i < length s.user
    → is_empty (at s.user i).nick ≡ false
    → get_or (at (leave_channel now server chan s).0.user i).chan c 0 ≡ 0
unfolding leave_channel leave_found
leave_channel-chan now server chan s c i found inside named =
    rw (found, leave_found, get_or-map (leave_one now c) s.user i (at [] 0) inside)
      (leave_one-chan now c (at s.user i) named)

-- user_nick() does not compare the server: where the first user of the old nick is on another
-- server, the one that has changed their nick is found under the old one afterwards.
pub user_find-user_nick_other_server :
    (server : ℤ) (new_nick old_nick : Str) (s : Users) (i j : ℕ)
    → first_index (λ (u : User). str_case_eq u.nick old_nick) s.user ≡ some i
    → (at s.user i).server ≢ server
    → user_find server old_nick s.user ≡ some j
    → user_find server old_nick (user_nick server new_nick old_nick s).0.user ≡ some j
unfolding user_find user_nick rename_found
user_find-user_nick_other_server server new_nick old_nick s i j first elsewhere found =
    let differ : int_eq (at s.user i).server server ≡ false =
      ground (arith, elsewhere, (int_eq_iff (at s.user i).server server).0) in
    rw (first, rename_found)
      (first_index-set_same (is_user server old_nick) s.user i _ (at [] 0) (rw differ refl) ∙ found)
