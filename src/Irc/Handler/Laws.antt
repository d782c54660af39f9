-- ===== src/Irc/Handler/Laws.antt =====
-- What the default handlers do to the channel list.
use mx3bot.Base.{◌≡◌, ◌<◌, refl, inl, inr, length}
use mx3bot.CString.{Str}
use mx3bot.Irc.Channel.{Channels, Status, chan_setstatus}
use mx3bot.Irc.Channel.Marks.{chan_getstatus-chan_setstatus_same}
use mx3bot.Irc.Handler.{is_join, join_failure}

-- When the server refuses a JOIN of a channel with a name of less than 32 bytes, the handler's only
-- effect on the channel list is the status IRC_CHAN_FAIL: in no state of the list does it delete
-- the channel.
pub join_failure-chan_setstatus :
    (chan : Str) (s : Channels)
    → length chan < 32
    → join_failure chan s ≡ (chan_setstatus chan Status.fail s).0
unfolding join_failure is_join
join_failure-chan_setstatus chan s short =
    elim (chan_getstatus-chan_setstatus_same chan Status.fail s short) [
      | inl e ↦ rw (e, join_failure) refl
      | inr e ↦ rw (e, join_failure) refl
    ]
