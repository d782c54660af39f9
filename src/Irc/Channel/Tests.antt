-- ===== src/Irc/Channel/Tests.antt =====
-- Runs of irc_channel.c, and its theorems at concrete tables.
use mx3bot.Base.{
  true, false, ℕ, ◌+◌, ◌<◌, ◌≡◌, ◌≢◌, ◌&&◌, refl, false, Option, none, some, List, [], ◌∷◌, map,
  arith, if◌then◌else◌, length-replicate,
}
use mx3bot.Base.Int.{pos, ℤ}
use mx3bot.CString.{Str, is_empty, str_case_eq, strncpy}
use mx3bot.Table.{first_index}
use mx3bot.Irc.Channel.{
  Channels, Slot, null, join, fail, ok, blank_slot, static_channels, chan_add, chan_find, chan_init,
  chan_getstatus, chan_setstatus, chan_join, join_loop, due,
}
use mx3bot.Irc.Channel.Laws.{IsTable, chan_add-IsTable, chan_init-IsTable}
use mx3bot.Irc.Channel.Marks.{IsRefused, chan_getstatus-chan_setstatus}
use mx3bot.Irc.Channel.Join.{attempted, chan_join-asked, delay_of, due-due, request_all}

abbrev started : Channels
started = chan_init static_channels

-- "#Mx3" and "#mx3"
abbrev mx3_upper : Str
mx3_upper = b'#' ∷ b'M' ∷ b'x' ∷ b'3' ∷ []

abbrev mx3_lower : Str
mx3_lower = b'#' ∷ b'm' ∷ b'x' ∷ b'3' ∷ []

started-IsTable : IsTable started
started-IsTable = (chan_init-IsTable static_channels (length-replicate 256 blank_slot)).0

abbrev wanted : Channels
wanted = (chan_setstatus mx3_upper join started).0

status_in_any_case : chan_getstatus mx3_lower wanted ≡ some join
unfolding chan_getstatus chan_setstatus chan_init chan_add chan_find first_index str_case_eq strncpy
status_in_any_case = refl

-- A caller that records what it is asked to join.
abbrev record_join : Str → Option Str → List Str → List Str × ℤ
record_join name key calls = (name ∷ calls, pos 0)

joined_once : (chan_join record_join 1000 wanted []).1 ≡ mx3_upper ∷ []
unfolding chan_join chan_setstatus chan_init chan_add chan_find first_index str_case_eq strncpy
    join_loop due
joined_once = refl

chan_add-IsTable_example : IsTable (chan_add mx3_upper none started).0
chan_add-IsTable_example = chan_add-IsTable mx3_upper none started (omega arith) started-IsTable

chan_getstatus-chan_setstatus_example :
    (chan_getstatus mx3_lower (chan_setstatus mx3_upper fail wanted).0 ≡ (
      if (chan_setstatus mx3_upper fail wanted).1 && str_case_eq mx3_upper mx3_lower
      then some fail
      else chan_getstatus mx3_lower wanted))
    × (¬ IsRefused mx3_upper wanted → (chan_setstatus mx3_upper fail wanted).1 ≡ true)
    × (IsRefused mx3_upper wanted → chan_setstatus mx3_upper fail wanted ≡ (wanted, false))
chan_getstatus-chan_setstatus_example =
    chan_getstatus-chan_setstatus mx3_upper mx3_lower fail wanted (omega arith) refl

abbrev failed : Slot
failed = record { name = mx3_upper; key = []; status = fail; attempt = 900 }

due-due_example :
    (is_empty failed.name ≡ false)
    × (failed.status ≢ ok)
    × (mx3_upper ≡ mx3_upper)
    × (◌≡◌ {A = ℕ} 1000 1000)
    × (fail ≢ null
        → 1010 < 1000 + delay_of started fail
        → due started 1010 (record failed { attempt = 1000 }) ≡ none)
unfolding due chan_init
due-due_example =
    due-due started 1000 1010 failed (record failed { attempt = 1000 }) refl (omega arith)

chan_join-asked_example : chan_join record_join 1000 wanted [] ≡ (
  record wanted { channel = map (attempted wanted 1000) wanted.channel },
  request_all record_join wanted 1000 wanted.channel [],
  pos 0,
)
chan_join-asked_example = chan_join-asked record_join (λ name key st. refl) 1000 wanted []
