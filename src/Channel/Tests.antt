-- ===== src/Channel/Tests.antt =====
-- Runs of channel.c on concrete tables.
use mx3bot.Base.{◌≡◌, refl, false, none, some, List, [], ◌∷◌, arith, replicate, length-replicate}
use mx3bot.Base.Int.{pos, ℤ}
use mx3bot.CString.{Str, is_empty, str_case_eq, strncpy}
use mx3bot.Table.{first_index}
use mx3bot.Channel.{Channel, blank_channel, chan_add, chan_del, chan_find, chan_init, n_channels}
use mx3bot.Channel.Laws.{IsTable, chan_add-IsTable, chan_del-IsTable, chan_init-IsTable}

abbrev cleared : List Channel
cleared = chan_init (replicate n_channels blank_channel)

cleared-IsTable : IsTable cleared
cleared-IsTable =
    (chan_init-IsTable (replicate n_channels blank_channel) (length-replicate 256 blank_channel)).0

-- "#Mx3" and "#mx3"
abbrev mx3_upper : Str
mx3_upper = b'#' ∷ b'M' ∷ b'x' ∷ b'3' ∷ []

abbrev mx3_lower : Str
mx3_lower = b'#' ∷ b'm' ∷ b'x' ∷ b'3' ∷ []

abbrev joined : List Channel
joined = (chan_add (pos 0) mx3_upper cleared).0

found_in_any_case : chan_find (pos 1) mx3_lower joined ≡ some 0
unfolding chan_find chan_add chan_init first_index str_case_eq strncpy
found_in_any_case = refl

chan_add-IsTable_example : IsTable joined
chan_add-IsTable_example = chan_add-IsTable (pos 0) mx3_upper cleared (omega arith) cleared-IsTable

joined-IsTable : IsTable joined
joined-IsTable = chan_add-IsTable (pos 0) mx3_upper cleared (omega arith) cleared-IsTable

chan_del-IsTable_example : IsTable (chan_del (pos 0) mx3_lower joined).0
chan_del-IsTable_example = chan_del-IsTable (pos 0) mx3_lower joined joined-IsTable

chan_init-IsTable_example :
    IsTable cleared
    × ((server : ℤ) (k : Str) → is_empty k ≡ false → chan_find server k cleared ≡ none)
chan_init-IsTable_example =
    chan_init-IsTable (replicate n_channels blank_channel) (length-replicate 256 blank_channel)
