-- ===== src/User/Session.antt =====
-- src/user.c: who a user in sight is in the database of users, and when they were seen. `now` is the
-- clock, and a result of -1 is `false` where the other one is 0.
use mx3bot.Base.{
  ℕ, ◌-◌, Bool, true, false, not, ◌&&◌, Option, none, some, [], ◌∷◌, ◌++◌, map, ltb, ◌==◌,
  if◌then◌else◌, take,
}
use mx3bot.Base.Int.{int_eq, pos, ℤ}
use mx3bot.CString.{Str, is_empty}
use mx3bot.User.{User, UserDb, Users, at, looked_up, put, user_find}

unfoldable pub set_id_found : ℤ → Users → Option ℕ → Users × Bool
set_id_found id s none = (s, false)
set_id_found id s (some i) = (put s i (record (at s.user i) { id = id }), true)

unfoldable pub user_set_id : ℤ → Str → ℤ → Users → Users × Bool
unfolding set_id_found
user_set_id server nick id s = set_id_found id s (user_find server nick s.user)

unfoldable pub get_id_found : Users → Option ℕ → ℤ
get_id_found s none = pos 0
get_id_found s (some i) = (at s.user i).id

unfoldable pub user_get_id : ℤ → Str → Users → ℤ
unfolding get_id_found
user_get_id server nick s = get_id_found s (user_find server nick s.user)

get_ident_found : Users → Option ℕ → Str
get_ident_found s none = []
get_ident_found s (some i) =
    take 255 ((at s.user i).nick ++ (b'!' ∷ ((at s.user i).user ++ (b'@' ∷ (at s.user i).host))))

-- snprintf() keeps 255 bytes.
unfoldable pub user_get_ident : ℤ → Str → Users → Str
unfolding get_ident_found
user_get_ident server nick s = get_ident_found s (user_find server nick s.user)

module _ (db : UserDb) where
  open db use {userdb_find_bymask3, userdb_check_password}

  unfoldable pub auth_found : Str → Users → Option ℕ → Users × Bool
  auth_found pw s none = (s, false)
  auth_found pw s (some i) =
      let u = at s.user i in
      let id = userdb_find_bymask3 u.nick u.user u.host in
      if int_eq id (pos 0)
      then (s, false)
      else if userdb_check_password id (some pw)
      then (put s i (record u { id = id }), true)
      else (s, false)

  unfoldable pub user_auth : ℤ → Str → Str → Users → Users × Bool
  unfolding auth_found
  user_auth server nick pw s = auth_found pw s (user_find server nick s.user)

  -- The loops of user_update_id() and user_update_add().
  unfoldable pub user_update_id : ℤ → Users → Users
  unfolding looked_up
  user_update_id id s = record s {
    user =
        map (λ (u : User). if not (is_empty u.nick) && int_eq u.id id then looked_up db u else u)
          s.user;
  }

  unfoldable pub user_update_add : ℤ → Option Str → Users → Users
  unfolding looked_up
  user_update_add id mask s = if int_eq id (pos 0) then s else record s {
    user =
        map
          (λ (u : User). if not (is_empty u.nick) && int_eq u.id (pos 0) then looked_up db u else u)
          s.user;
  }

-- One pass of the loop of user_update().
unfoldable pub expired : ℕ → ℕ → User → Bool
expired now remove_delay u =
    not (is_empty u.nick) && (not (u.lost == 0) && ltb remove_delay (now - u.lost))

unfoldable pub user_update : ℕ → ℕ → Users → Users
unfolding expired
user_update now remove_delay s = record s {
  user =
      map
        (λ (u : User).
          if expired now remove_delay u then record u { nick = []; user = []; host = [] } else u)
        s.user;
}

set_seen_found : ℕ → Users → Option ℕ → Users × Bool
set_seen_found now s none = (s, false)
set_seen_found now s (some i) =
    (if (at s.user i).lost == 0 then s else put s i (record (at s.user i) { lost = now }), true)

unfoldable pub user_set_seen : ℕ → ℤ → Str → Users → Users × Bool
unfolding set_seen_found
user_set_seen now server nick s = set_seen_found now s (user_find server nick s.user)
