-- ===== src/Irc/Channel.antt =====
-- src/irc/irc_channel.c: the channels in which the client wants to be, and when to ask for them.
-- `int` results of -1 are `none`. The clock is read once per call, and an int subtraction of two
-- of its values that would be negative is 0, which every test below treats alike.
pub mod Laws
pub mod Join
pub mod Marks
mod Tests
use mx3bot.Base.{
  ℕ, ◌+◌, ◌-◌, Bool, true, false, Option, none, some, List, [], ◌∷◌, map, ltb, ◌==◌, if◌then◌else◌,
  set, get_or, replicate,
}
use mx3bot.Base.Int.{int_eq, pos, ℤ}
use mx3bot.CString.{Str, is_empty, str_case_eq, strncpy}
use mx3bot.Table.{first_index}

-- IRC_CHAN_*
pub data Status : Type 0 where
  null join rejoin fail ok : Status

pub record Slot : Type 0 where
  pub name : Str
  pub key : Str
  pub status : Status
  pub attempt : ℕ

-- The file's static variables.
pub record Channels : Type 0 where
  pub channel : List Slot
  pub rejoin_delay : ℕ
  pub failure_delay : ℕ
  pub initial_delay : ℕ

abbrev pub n_channels : ℕ
n_channels = 256

abbrev pub blank_slot : Slot
blank_slot = record { name = []; key = []; status = null; attempt = 0 }

-- The table as the loader leaves it: all bytes zero.
abbrev pub static_channels : Channels
static_channels = record {
  channel = replicate n_channels blank_slot;
  rejoin_delay = 0;
  failure_delay = 0;
  initial_delay = 0;
}

unfoldable pub chan_init : Channels → Channels
chan_init s = record {
  channel = map (λ (c : Slot). blank_slot) s.channel;
  rejoin_delay = 5;
  failure_delay = 15;
  initial_delay = 60;
}

unfoldable pub chan_find : Str → Channels → Option ℕ
chan_find name s = first_index (λ c. str_case_eq c.name name) s.channel

abbrev pub put : Channels → ℕ → Slot → Channels
put s i c = record s { channel = set s.channel i c }

-- `channel[i]`
abbrev pub at : Channels → ℕ → Slot
at s i = get_or s.channel i blank_slot

-- A NULL key clears the key.
abbrev pub claimed : Channels → ℕ → Str → Option Str → Slot
claimed s i name none = record (at s i) { name = strncpy 32 name; key = [] }
claimed s i name (some k) = record (at s i) { name = strncpy 32 name; key = strncpy 32 k }

claim_slot : Str → Option Str → Channels → Option ℕ → Channels × Option ℕ
claim_slot name key s none = (s, none)
claim_slot name key s (some i) = (put s i (claimed s i name key), some i)

add_missing : Str → Option Str → Channels → Option ℕ → Channels × Option ℕ
unfolding claim_slot
add_missing name key s (some i) = (s, some i)
add_missing name key s none = claim_slot name key s (first_index (λ c. is_empty c.name) s.channel)

unfoldable pub chan_add : Str → Option Str → Channels → Channels × Option ℕ
unfolding add_missing
chan_add name key s = add_missing name key s (chan_find name s)

release_slot : Channels → Option ℕ → Channels × Bool
release_slot s none = (s, false)
release_slot s (some c) = (put s c blank_slot, true)

-- The result is `true` for 0 and `false` for -1, here and below.
unfoldable pub chan_del : Str → Channels → Channels × Bool
unfolding release_slot
chan_del chan s = release_slot s (chan_find chan s)

status_at : Channels → Option ℕ → Option Status
status_at s none = none
status_at s (some i) = some (at s i).status

unfoldable pub chan_getstatus : Str → Channels → Option Status
unfolding status_at
chan_getstatus chan s = status_at s (chan_find chan s)

mark_slot : Status → Channels × Option ℕ → Channels × Bool
mark_slot status (s, none) = (s, false)
mark_slot status (s, some c) = (put s c (record (at s c) { status = status }), true)

find_or_add : Str → Channels → Option ℕ → Channels × Option ℕ
find_or_add chan s none = chan_add chan none s
find_or_add chan s (some c) = (s, some c)

unfoldable pub chan_setstatus : Str → Status → Channels → Channels × Bool
unfolding find_or_add mark_slot
chan_setstatus chan status s = mark_slot status (find_or_add chan s (chan_find chan s))

abbrev pub renewed : Slot → Slot
renewed c = if is_empty c.name then c else record c { status = rejoin; attempt = 0 }

count_named : List Slot → ℕ
count_named [] = 0
count_named (c ∷ cs) = (if is_empty c.name then 0 else 1) + count_named cs

unfoldable pub chan_rejoin : Channels → Channels × ℕ
unfolding count_named
chan_rejoin s = (record s { channel = map renewed s.channel }, count_named s.channel)

-- What one pass of the loop of `_irc_chan_join` does to a slot before it calls `join_func`:
-- `none` where the pass ends by `continue` or the slot is free.
unfoldable pub due : Channels → ℕ → Slot → Option Slot
due s now c = if is_empty c.name then none else elim c.status [
  | ok ↦ none
  | rejoin ↦
      if ltb (now - c.attempt) s.rejoin_delay then none else some (record c { attempt = now })
  | fail ↦ if ltb (now - c.attempt) s.failure_delay then none else some (record c { attempt = now })
  | join ↦
      if ltb (now - c.attempt) s.initial_delay
      then none
      else if c.attempt == 0
      then some (record c { attempt = now })
      else some (record c { status = rejoin; attempt = now })
  | null ↦ some (record c { attempt = now })
]

abbrev pub key_arg : Slot → Option Str
key_arg c = if is_empty c.key then none else some c.key

-- `join_func` acts on a state of its caller's; a result other than 0 ends the loop.
module _ {ℓ} {S : Type ℓ} (join_func : Str → Option Str → S → S × ℤ) where
  unfoldable pub join_loop : Channels → ℕ → List Slot → S → List Slot × S × ℤ
  join_loop s now [] st = ([], st, pos 0)
  join_loop s now (c ∷ cs) st = elim (due s now c) [
    | none ↦ let (cs', st', r) = join_loop s now cs st in (c ∷ cs', st', r)
    | some c' ↦
        let (st', r) = join_func c'.name (key_arg c') st in
        let (cs', st'', r') = join_loop s now cs st' in
        if int_eq r (pos 0) then (c' ∷ cs', st'', r') else (c' ∷ cs, st', r)
  ]

  unfoldable pub chan_join : ℕ → Channels → S → Channels × S × ℤ
  chan_join now s st =
      let (cs, st', r) = join_loop s now s.channel st in (record s { channel = cs }, st', r)
