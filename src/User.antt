-- ===== src/User.antt =====
-- src/user.c: the users that the bot has seen, on which server and in which channels, with the
-- record of the user database that each of them answers to.
-- `int` results of -1 are `none`, or `false` where the other result is 0. `now` is the clock,
-- which one call reads as one value. A `chan` entry is 1 while the user is in that channel of
-- channel.c. Debug messages are left out. Session has the functions on the id of a user and the
-- time at which they were seen.
pub mod Keys
pub mod Add
pub mod Ids
pub mod Leave
pub mod Gone
pub mod Session
mod Tests
use mx3bot.Base.{
  ℕ, zero, suc, ◌+◌, ◌-◌, ◌≡◌, ◌<◌, Bool, true, false, not, ◌&&◌, Option, none, some, List, [], ◌∷◌,
  ◌++◌, map, ltb, ◌==◌, if◌then◌else◌, set, get_or, take, replicate,
}
use mx3bot.Base.Int.{int_eq, int_lt, pos, negsuc, ℤ}
use mx3bot.CString.{Str, is_empty, str_case_eq, strncpy}
use mx3bot.Table.{first_index}
use mx3bot.Channel.{Channel, chan_add, chan_del, chan_find, n_channels}

-- What userdb.c answers: the id of the user with a mask that fits, 0 for none, and whether a
-- password, or none, is the right one.
pub record UserDb : Type 0 where
  pub userdb_find_bymask3 : Str → Str → Str → ℤ
  pub userdb_check_password : ℤ → Option Str → Bool

pub record User : Type 0 where
  pub nick : Str
  pub user : Str
  pub host : Str
  pub server : ℤ
  pub chan : List ℕ
  pub id : ℤ
  pub lost : ℕ

-- The file's static variables and the table of channel.c; `n_users` is the length of `user`.
pub record Users : Type 0 where
  pub user : List User
  pub n_grow : ℕ
  pub channel : List Channel

unfoldable pub no_channels : List ℕ
no_channels = replicate n_channels 0

-- A new entry. `junk` holds what malloc() left in the fields that are not cleared.
abbrev pub cleared : User → User
cleared junk = record junk {
  nick = [];
  user = [];
  host = [];
  server = negsuc 0;
  chan = no_channels;
}

-- `user[i]`
abbrev pub at : List User → ℕ → User
at users i = get_or users i (
    cleared (record {
      nick = [];
      user = [];
      host = [];
      server = negsuc 0;
      chan = [];
      id = pos 0;
      lost = 0;
    }))

abbrev pub or_default : ℤ → ℕ → ℕ
or_default (pos zero) d = d
or_default (pos (suc n)) d = suc n
or_default (negsuc n) d = d

-- `memory` says whether malloc() succeeds; the result is `true` for 0.
unfoldable pub user_init : Bool → User → ℤ → ℤ → Users → Users × Bool
user_init memory junk users grow s =
    let s' = record s { n_grow = or_default grow 64 } in
    if memory
    then (record s' { user = replicate (or_default users 256) (cleared junk) }, true)
    else (record s' { user = [] }, false)

abbrev pub is_user : ℤ → Str → User → Bool
is_user server nick u = int_eq u.server server && str_case_eq u.nick nick

unfoldable pub user_find : ℤ → Str → List User → Option ℕ
user_find server nick users = first_index (is_user server nick) users

abbrev pub put : Users → ℕ → User → Users
put s i u = record s { user = set s.user i u }

unfoldable pub user_del : ℕ → Users → Users
user_del i s = put s i (record (at s.user i) { nick = []; user = []; host = [] })

module _ (db : UserDb) where
  open db use {userdb_find_bymask3, userdb_check_password}

  -- What lookup_user() makes of an entry.
  unfoldable pub looked_up : User → User
  looked_up u =
      let id = userdb_find_bymask3 u.nick u.user u.host in
      record u { id = if int_lt (pos 0) id && userdb_check_password id none then id else pos 0 }

  -- The entry of a user who is not in sight yet.
  unfoldable pub added : ℕ → ℤ → Str → Str → Str → User → User
  unfolding looked_up
  added now server nick username host u = looked_up (record u {
    nick = strncpy 32 nick;
    user = strncpy 32 username;
    host = strncpy 128 host;
    server = server;
    lost = now;
    chan = no_channels;
  })

  module _ (now : ℕ) (memory : Bool) (junk : User) (server : ℤ) (nick username host : Str) where
    -- No entry is free: the table grows, and user_add() calls itself. If realloc() fails the
    -- table is lost.
    grow_users : (Users → Users × Option ℕ) → Users → Users × Option ℕ
    grow_users again s =
        if memory
        then again (record s { user = s.user ++ replicate s.n_grow (cleared junk) })
        else (record s { user = [] }, none)

    add_new : (Users → Users × Option ℕ) → Users → Option ℕ → Users × Option ℕ
    unfolding grow_users
    add_new again s none = grow_users again s
    add_new again s (some i) = (put s i (added now server nick username host (at s.user i)), some i)

    add_missing : (Users → Users × Option ℕ) → Users → Option ℕ → Users × Option ℕ
    unfolding add_new
    add_missing again s (some i) = (s, some i)
    add_missing again s none = add_new again s (first_index (λ u. is_empty u.nick) s.user)

    add_rounds : ℕ → Users → Users × Option ℕ
    unfolding add_missing
    add_rounds zero s = (s, none)
    add_rounds (suc fuel) s = add_missing (add_rounds fuel) s (user_find server nick s.user)

    -- A second round always finds an entry.
    unfoldable pub user_add : Users → Users × Option ℕ
    unfolding add_rounds
    user_add s = add_rounds 2 s

    join_channel : ℕ → Users → List Channel × Option ℕ → Users × Bool
    join_channel i s (channel, none) = (record s { channel = channel }, false)
    join_channel i s (channel, some c) = (
      put (record s { channel = channel }) i
          (record (at s.user i) { chan = set (at s.user i).chan c 1; lost = 0 }),
      true,
    )

    join_user : Option Str → Users × Option ℕ → Users × Bool
    unfolding join_channel
    join_user chan (s, none) = (s, false)
    join_user none (s, some i) = (s, true)
    join_user (some chan) (s, some i) = join_channel i s (chan_add server chan s.channel)

    -- chan_add() first looks for the channel itself, so the source's chan_find() is part of it.
    unfoldable pub user_join : Option Str → Users → Users × Bool
    unfolding join_user
    user_join chan s =
        join_user chan
          (elim (user_find server nick s.user) [ some i ↦ (s, some i) | none ↦ user_add s ])

-- check_user(): `user[i].lost` becomes `now` unless the user is still in some channel.
unfoldable pub check_user : ℕ → User → User
check_user now u = elim (first_index (λ c. ltb 0 c) u.chan) [
  | some c ↦ u
  | none ↦ record u { lost = now }
]

unfoldable pub leave_one : ℕ → ℕ → User → User
unfolding check_user
leave_one now c u =
    if not (is_empty u.nick) && ltb 0 (get_or u.chan c 0)
    then check_user now (record u { chan = set u.chan c 0 })
    else u

leave_found : ℕ → ℤ → Str → Users → Option ℕ → Users × Bool
leave_found now server chan s none = (s, false)
leave_found now server chan s (some c) = (
  record s { user = map (leave_one now c) s.user; channel = (chan_del server chan s.channel).0 },
  true,
)

unfoldable pub leave_channel : ℕ → ℤ → Str → Users → Users × Bool
unfolding leave_found
leave_channel now server chan s = leave_found now server chan s (chan_find server chan s.channel)

part_one : ℕ → Users → ℕ → Option ℕ → Users × Bool
part_one now s i none = (s, false)
part_one now s i (some c) =
    (put s i (check_user now (record (at s.user i) { chan = set (at s.user i).chan c 0 })), true)

part_found : ℕ → ℤ → Option Str → Users → Option ℕ → Users × Bool
unfolding part_one
part_found now server chan s none = (s, false)
part_found now server none s (some i) = (put s i (record (at s.user i) { lost = 1 }), true)
part_found now server (some chan) s (some i) = part_one now s i (chan_find server chan s.channel)

-- A null `chan` and `nick` purge the server, a null `nick` is the bot leaving a channel, and a null
-- `chan` is the user leaving IRC.
unfoldable pub user_part : ℕ → ℤ → Option Str → Option Str → Users → Users × Bool
unfolding part_found
user_part now server none none s = (
  record s {
    user =
        map
          (λ (u : User).
            if int_eq u.server server then record u { nick = []; user = []; host = [] } else u)
          s.user;
  },
  true,
)
user_part now server (some chan) none s = leave_channel now server chan s
user_part now server chan (some nick) s =
    part_found now server chan s (user_find server nick s.user)

rename_found : Str → Users → Option ℕ → Users × Bool
rename_found new_nick s none = (s, false)
rename_found new_nick s (some i) =
    (put s i (record (at s.user i) { nick = strncpy 32 new_nick }), true)

-- The server is not compared.
unfoldable pub user_nick : ℤ → Str → Str → Users → Users × Bool
unfolding rename_found
user_nick server new_nick old_nick s =
    rename_found new_nick s (first_index (λ u. str_case_eq u.nick old_nick) s.user)
