-- ===== src/User/Tests.antt =====
-- Runs of user.c on concrete tables.
use mx3bot.Base.{
  ℕ, ◌≡◌, ◌≢◌, ◌<◌, refl, true, false, ◌&&◌, Option, none, some, [], ◌∷◌, arith, if◌then◌else◌,
  replicate, length, get_or,
}
use mx3bot.Base.Int.{ℤ, pos, int_eq, int_eq_iff}
use mx3bot.CString.{Str, str_case_eq, strncpy}
use mx3bot.Table.{first_index, tally}
use mx3bot.Channel.{blank_channel, chan_find, n_channels}
use mx3bot.User.{User, Users, UserDb, added, user_add, at, leave_channel, user_nick, user_find}
use mx3bot.User.Session.{user_auth, user_get_id}
use mx3bot.User.Leave.{leave_channel-chan, user_find-user_nick_other_server}
use mx3bot.User.Ids.{user_auth-userdb_check_password, user_get_id-user_auth}
use mx3bot.User.Keys.{AreDistinct}
use mx3bot.User.Add.{user_add-AreDistinct, user_find-user_add}

abbrev any_user : User
any_user = record {
  nick = [];
  user = [];
  host = [];
  server = pos 0;
  chan = [];
  id = pos 0;
  lost = 0;
}

-- A user of id 7 with the mask of everyone, and with the password "pw".
abbrev one_db : UserDb
one_db = record {
  userdb_find_bymask3 = λ nick user host. pos 7;
  userdb_check_password =
      λ id pw. elim pw [ none ↦ false | some p ↦ str_case_eq p (b'p' ∷ b'w' ∷ []) ];
}

-- A table of no entries that grows by two.
abbrev empty_users : Users
empty_users = record { user = []; n_grow = 2; channel = replicate n_channels blank_channel }

abbrev ann : Str
ann = b'a' ∷ b'n' ∷ b'n' ∷ []

abbrev ann_upper : Str
ann_upper = b'A' ∷ b'n' ∷ b'n' ∷ []

abbrev with_ann : Users × Option ℕ
with_ann = user_add one_db 100 true any_user (pos 1) ann ann ann empty_users

ann_is_found : user_find (pos 1) ann_upper with_ann.0.user ≡ some 0
unfolding user_find user_add first_index added str_case_eq strncpy
ann_is_found = refl

user_find-user_add_example :
    ((i : ℕ) × (with_ann.1 ≡ some i) × (i < length with_ann.0.user))
    × (user_find (pos 1) ann_upper with_ann.0.user ≡ (
        if int_eq (pos 1) (pos 1) && str_case_eq ann ann_upper
        then with_ann.1
        else user_find (pos 1) ann_upper []))
user_find-user_add_example =
    user_find-user_add one_db 100 any_user (pos 1) ann ann ann (omega arith) refl empty_users
      (omega arith) (pos 1) ann_upper refl

empty_users-AreDistinct : AreDistinct []
unfolding tally
empty_users-AreDistinct k named = omega arith

user_add-AreDistinct_example : AreDistinct with_ann.0.user
user_add-AreDistinct_example =
    user_add-AreDistinct one_db 100 any_user (pos 1) ann ann ann (omega arith) refl empty_users
      (omega arith) empty_users-AreDistinct

abbrev right_pw : Str
right_pw = b'p' ∷ b'w' ∷ []

ann_is_accepted : (user_auth one_db (pos 1) ann right_pw with_ann.0).1 ≡ true
unfolding user_auth user_add first_index added str_case_eq strncpy user_find
ann_is_accepted = refl

user_auth-userdb_check_password_example :
    (user_get_id (pos 1) ann (user_auth one_db (pos 1) ann right_pw with_ann.0).0 ≢ pos 0)
    × (one_db.userdb_check_password
          (user_get_id (pos 1) ann (user_auth one_db (pos 1) ann right_pw with_ann.0).0)
          (some right_pw)
        ≡ true)
user_auth-userdb_check_password_example =
    user_auth-userdb_check_password one_db (pos 1) ann right_pw with_ann.0 ann_is_accepted

user_get_id-user_auth_example :
    user_get_id (pos 1) ann_upper (user_auth one_db (pos 1) ann right_pw with_ann.0).0 ≡ (
      if (user_auth one_db (pos 1) ann right_pw with_ann.0).1
        && (int_eq (pos 1) (pos 1) && str_case_eq ann ann_upper)
      then user_get_id (pos 1) ann (user_auth one_db (pos 1) ann right_pw with_ann.0).0
      else user_get_id (pos 1) ann_upper with_ann.0)
user_get_id-user_auth_example =
    user_get_id-user_auth one_db (pos 1) (pos 1) ann right_pw ann_upper with_ann.0

-- Two users of one nick, on two servers, and a channel that both are in.
abbrev mx : Str
mx = b'#' ∷ b'm' ∷ b'x' ∷ []

abbrev in_channel : ℤ → User
in_channel server = record {
  nick = ann;
  user = ann;
  host = ann;
  server = server;
  chan = 1 ∷ 0 ∷ [];
  id = pos 0;
  lost = 0;
}

abbrev two_anns : Users
two_anns = record {
  user = in_channel (pos 1) ∷ in_channel (pos 2) ∷ [];
  n_grow = 2;
  channel = record { server = pos 1; name = mx } ∷ [];
}

leave_channel-chan_example :
    get_or (at (leave_channel 50 (pos 1) mx two_anns).0.user 1).chan 0 0 ≡ 0
unfolding chan_find first_index str_case_eq
leave_channel-chan_example = leave_channel-chan 50 (pos 1) mx two_anns 0 1 refl (omega arith) refl

servers_differ : pos 1 ≢ pos 2
servers_differ e = ground (arith, (int_eq_iff (pos 1) (pos 2)).1 e)

user_find-user_nick_other_server_example :
    user_find (pos 2) ann (user_nick (pos 2) mx ann two_anns).0.user ≡ some 1
unfolding user_find first_index str_case_eq
user_find-user_nick_other_server_example =
    user_find-user_nick_other_server (pos 2) mx ann two_anns 0 1 refl servers_differ refl
