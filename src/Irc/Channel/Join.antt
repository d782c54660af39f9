-- ===== src/Irc/Channel/Join.antt =====
-- irc_channel.c: when a channel is asked for.
use mx3bot.Base.{
  ℕ, ◌+◌, ◌-◌, ◌≤◌, ◌<◌, ◌≡◌, refl, ◌≢◌, inl, inr, Bool, true, false, not, ◌&&◌, leb, ◌==◌,
  if◌then◌else◌, Bool-cases, Option, none, some, List, [], ◌∷◌, map, arith,
}
use mx3bot.Base.Int.{ℤ, pos}
use mx3bot.CString.{Str, is_empty}
use mx3bot.Irc.Channel.{
  Channels, Slot, Status, null, join, rejoin, fail, ok, due, key_arg, join_loop, chan_join,
}

-- How long a channel with this status is left alone after an attempt.
abbrev pub delay_of : Channels → Status → ℕ
delay_of s null = 0
delay_of s join = s.initial_delay
delay_of s rejoin = s.rejoin_delay
delay_of s fail = s.failure_delay
delay_of s ok = 0

-- A channel is to be asked for if it has a name, is not joined, and has been left alone for as long as
-- its status says.
abbrev pub is_joined : Status → Bool
is_joined null = false
is_joined join = false
is_joined rejoin = false
is_joined fail = false
is_joined ok = true

abbrev pub is_wanted : Channels → ℕ → Slot → Bool
is_wanted s now c =
    not (is_empty c.name)
    && (not (is_joined c.status) && leb (delay_of s c.status) (now - c.attempt))

-- The status once a channel is asked for: the delay is the initial one only at the first attempt.
abbrev pub status_after : Slot → Status
status_after c = elim c.status [
  | join ↦ if c.attempt == 0 then join else rejoin
  | null ↦ null
  | rejoin ↦ rejoin
  | fail ↦ fail
  | ok ↦ ok
]

abbrev pub attempted : Channels → ℕ → Slot → Slot
attempted s now c =
    if is_wanted s now c then record c { status = status_after c; attempt = now } else c

-- A channel without a key is asked for with NULL.
abbrev pub key_given : Str → Option Str
key_given [] = none
key_given (c ∷ key) = some (c ∷ key)

due_lem :
    (s : Channels) (now : ℕ) (c : Slot)
    → due s now c ≡ (if is_wanted s now c then some (attempted s now c) else none)
unfolding due
due_lem s now c = ground arith

key_arg_lem : (c : Slot) → key_arg c ≡ key_given c.key
key_arg_lem c = elim c.key as (λ k. (if is_empty k then none else some k) ≡ key_given k) [
  | [] ↦ refl
  | d ∷ key ↦ refl
]

-- A slot that `_irc_chan_join` asks for at `now` has a name and is not joined, and the attempt is
-- recorded. Unless its status is IRC_CHAN_NULL it is not asked for again before `rejoin_delay`,
-- `failure_delay` or `initial_delay`, as its status says, is over.
pub due-due :
    (s : Channels) (now later : ℕ) (c c' : Slot)
    → due s now c ≡ some c'
    → now ≤ later
    → (is_empty c.name ≡ false)
      × (c.status ≢ ok)
      × (c'.name ≡ c.name)
      × (c'.attempt ≡ now)
      × (c'.status ≢ null → later < now + delay_of s c'.status → due s later c' ≡ none)
unfolding due
due-due s now later c c' e h =
    (ground arith, ground arith, ground arith, ground arith, λ k l. ground arith)

module _ {ℓ} {S : Type ℓ} (join_func : Str → Option Str → S → S × ℤ) where
  -- The channels that are wanted are asked for in their order.
  abbrev pub request_all : Channels → ℕ → List Slot → S → S
  request_all s now [] st = st
  request_all s now (c ∷ cs) st =
      request_all s now cs
        (if is_wanted s now c then (join_func c.name (key_given c.key) st).0 else st)

module _ {ℓ} {S : Type ℓ} (join_func : Str → Option Str → S → S × ℤ)
    (succeeds : (name : Str) (key : Option Str) (st : S) → (join_func name key st).1 ≡ pos 0) where
  join_loop-succeeds :
      (s : Channels) (now : ℕ) (cs : List Slot) (st : S)
      → join_loop join_func s now cs st
        ≡ (map (attempted s now) cs, request_all join_func s now cs st, pos 0)
  unfolding join_loop
  join_loop-succeeds s now [] st = refl
  join_loop-succeeds s now (c ∷ cs) st = elim (Bool-cases (is_wanted s now c)) [
    | inr e ↦ rw (due_lem s now c, e, join_loop, join_loop-succeeds s now cs st) refl
    | inl e ↦
        let c' = attempted s now c in
        let next = (join_func c.name (key_given c.key) st).0 in
        rw
          (
            due_lem s now c,
            e,
            join_loop,
            key_arg_lem c,
            succeeds c.name (key_given c.key) st,
            join_loop-succeeds s now cs next,
          )
          refl
  ]

  -- Where every request succeeds, `_irc_chan_join` returns 0 and asks, in the order of the table
  -- and with NULL for an empty key, for exactly the channels that have a name, are not joined, and
  -- were last asked for at least the delay of their status ago: none for IRC_CHAN_NULL, and
  -- `initial_delay`, `rejoin_delay` or `failure_delay` for the others; in these slots the time is
  -- recorded and IRC_CHAN_JOIN becomes IRC_CHAN_REJOIN unless the recorded time was 0, and all else
  -- stays.
  pub chan_join-asked :
      (now : ℕ) (s : Channels) (st : S)
      → chan_join join_func now s st ≡ (
        record s { channel = map (attempted s now) s.channel },
        request_all join_func s now s.channel st,
        pos 0,
      )
  unfolding chan_join
  chan_join-asked now s st = rw (join_loop-succeeds s now s.channel st)
