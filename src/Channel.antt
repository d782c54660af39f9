-- ===== src/Channel.antt =====
-- src/channel.c: the channels that the bot's connections are in, by which user.c numbers the flags
-- of a user. `int` results of -1 are `none`. Names of 32 bytes or more lose their tail.
pub mod Laws
mod Tests
use mx3bot.Base.{ℕ, Bool, true, false, Option, none, some, List, [], map, set, get_or}
use mx3bot.Base.Int.{pos, ℤ}
use mx3bot.CString.{Str, is_empty, str_case_eq, strncpy}
use mx3bot.Table.{first_index}

pub record Channel : Type 0 where
  pub name : Str
  pub server : ℤ

abbrev pub n_channels : ℕ
n_channels = 256

-- Reads past the table do not happen; they would give this entry.
abbrev pub blank_channel : Channel
blank_channel = record { name = []; server = pos 0 }

unfoldable pub chan_init : List Channel → List Channel
chan_init table = map (λ (c : Channel). record c { name = [] }) table

-- The server is not compared.
unfoldable pub chan_find : ℤ → Str → List Channel → Option ℕ
chan_find server name table = first_index (λ c. str_case_eq c.name name) table

claim_slot : Str → List Channel → Option ℕ → List Channel × Option ℕ
claim_slot name table none = (table, none)
claim_slot name table (some i) =
    (set table i (record (get_or table i blank_channel) { name = strncpy 32 name }), some i)

add_missing : Str → List Channel → Option ℕ → List Channel × Option ℕ
unfolding claim_slot
add_missing name table (some i) = (table, some i)
add_missing name table none = claim_slot name table (first_index (λ c. is_empty c.name) table)

unfoldable pub chan_add : ℤ → Str → List Channel → List Channel × Option ℕ
unfolding add_missing
chan_add server name table = add_missing name table (chan_find server name table)

release_slot : List Channel → Option ℕ → List Channel × Bool
release_slot table none = (table, false)
release_slot table (some c) =
    (set table c (record (get_or table c blank_channel) { name = [] }), true)

-- The result is `true` for 0 and `false` for -1.
unfoldable pub chan_del : ℤ → Str → List Channel → List Channel × Bool
unfolding release_slot
chan_del server chan table = release_slot table (chan_find server chan table)
