-- ===== src/Irc/Client.antt =====
-- src/irc/irc_client.c: what the bot says, as lines for the output queue of irc_queue.c.
-- Each function has a state of the whole client and returns the new one; `none` is an access outside
-- the queue's array. `now` is the clock, which one call reads as one value. A text of `none` is
-- NULL.
use mx3bot.Base.{ℕ, Bool, true, false, Option, none, some, List, [], ◌∷◌, ◌++◌, ◌>>=◌, take}
use mx3bot.Base.Int.{ℤ, negsuc, pos}
use mx3bot.CString.{Str, strncpy}
use mx3bot.Irc.Events.{
  word_join, word_kick, word_mode, word_nick, word_notice, word_part, word_privmsg, word_topic,
  word_who,
}
use mx3bot.Irc.Channel.{Channels, Status, chan_add, chan_del, chan_setstatus}
use mx3bot.Irc.Queue.{Allocator, Queue, queue_insert}

-- CLIENT_*
pub data Kind : Type 0 where
  irc dcc : Kind

-- QUIT_*
pub data Quit : Type 0 where
  stay reconnect disconnect : Quit

-- The queue, and all that has been sent to the server so far.
pub record Output : Type 0 where
  pub queue : Queue
  pub sent : List Str

-- The static variables of irc_client.c, irc_channel.c and irc_queue.c.
pub record Client : Type 0 where
  pub output : Output
  pub channels : Channels
  pub botnick : Str
  pub quit_message : Str
  pub quit : Quit
  pub type : Kind

module _ (memory : Allocator) (now : ℕ) where
  -- A call of _irc_queue_insert().
  unfoldable pub insert : ℤ → Str → Output → Option (Output × ℤ)
  unfolding queue_insert
  insert priority text o = queue_insert memory now priority text o.queue >>= λ r.
      some (record { queue = r.queue; sent = o.sent ++ r.sent }, r.result)

  -- One whose result is not looked at.
  unfoldable pub say : ℤ → Str → Client → Option Client
  unfolding insert
  say priority text c = insert priority text c.output >>= λ (o, r). some (record c { output = o })

  abbrev pub join_text : Str → Option Str → Str
  join_text chan none = word_join ++ b' ' ∷ chan
  join_text chan (some key) = (word_join ++ b' ' ∷ chan) ++ b' ' ∷ key

  -- join(), which _irc_chan_join() calls for each channel that is due.
  unfoldable pub join : Str → Option Str → Option Output → Option Output × ℤ
  unfolding insert
  join chan key none = (none, pos 0)
  join chan key (some o) = (insert (pos 5) (join_text chan key) o >>= λ (o', r). some o', pos 0)

  -- vsnprintf() keeps 511 bytes of the text. The buffer has 1024 bytes, and a target that does not
  -- fit into the rest of it is not modelled.
  message : Kind → Str → Str → Str → Str
  message irc chan msg_type text = msg_type ++ b' ' ∷ (chan ++ b' ' ∷ (b':' ∷ take 511 text))
  message dcc chan msg_type text = take 511 text

  unfoldable pub client_message : Str → Str → Str → Client → Option (Client × ℤ)
  unfolding insert message
  client_message chan msg_type text c =
      insert (pos 4) (message c.type chan msg_type text) c.output >>= λ (o, r).
      some (record c { output = o }, r)

  part_text : Str → Option Str → Str
  part_text chan none = (word_part ++ b' ' ∷ chan)
  part_text chan (some msg) = (word_part ++ b' ' ∷ chan) ++ b' ' ∷ (b':' ∷ msg)

  unfoldable pub irc_part : Str → Option Str → Client → Option Client
  unfolding say part_text
  irc_part chan msg c = say (pos 6) (part_text chan msg) c >>= λ c'.
      some (record c' { channels = (chan_del chan c'.channels).0 })

  unfoldable pub irc_topic : Str → Str → Client → Option Client
  unfolding say
  irc_topic chan topic c = say (pos 5) ((word_topic ++ b' ' ∷ chan) ++ b' ' ∷ (b':' ∷ topic)) c

  unfoldable pub irc_setnick : Str → Client → Option Client
  unfolding say strncpy
  irc_setnick nick c =
      say (pos 6) (word_nick ++ b' ' ∷ nick) (record c { botnick = strncpy 32 nick })

  unfoldable pub irc_who : Str → Client → Option Client
  unfolding say
  irc_who chan c = say (pos 5) (word_who ++ b' ' ∷ chan) c

  mode_text : Str → Option Str → Option Str → Str
  mode_text chan none param = (word_mode ++ b' ' ∷ chan)
  mode_text chan (some mode) none = (word_mode ++ b' ' ∷ chan) ++ b' ' ∷ mode
  mode_text chan (some mode) (some param) =
      (word_mode ++ b' ' ∷ chan) ++ b' ' ∷ (mode ++ b' ' ∷ param)

  unfoldable pub irc_mode : Str → Option Str → Option Str → Client → Option Client
  unfolding say mode_text
  irc_mode chan mode param c = say (pos 5) (mode_text chan mode param) c

  kick_text : Str → Str → Option Str → Str
  kick_text chan nick none = (word_kick ++ b' ' ∷ chan) ++ b' ' ∷ nick
  kick_text chan nick (some msg) =
      (word_kick ++ b' ' ∷ chan) ++ b' ' ∷ (nick ++ b' ' ∷ (b':' ∷ msg))

  unfoldable pub irc_kick : Str → Str → Option Str → Client → Option Client
  unfolding say kick_text
  irc_kick chan nick msg c = say (pos 5) (kick_text chan nick msg) c

  unfoldable pub irc_privmsg : Str → Str → Client → Option (Client × ℤ)
  unfolding client_message
  irc_privmsg target text c = client_message target word_privmsg text c

  unfoldable pub irc_notice : Str → Str → Client → Option (Client × ℤ)
  unfolding client_message
  irc_notice target text c = client_message target word_notice text c

  unfoldable pub irc_ctcp : Str → Str → Client → Option (Client × ℤ)
  unfolding client_message
  irc_ctcp target text c = client_message target word_privmsg (1 ∷ (text ++ 1 ∷ [])) c

  unfoldable pub irc_quote : Str → Client → Option (Client × ℤ)
  unfolding insert
  irc_quote text c = insert (pos 5) text c.output >>= λ (o, r). some (record c { output = o }, r)

join_marked : Channels × Bool → Channels × ℤ
join_marked (s, false) = (s, negsuc 0)
join_marked (s, true) = (s, pos 0)

join_added : Str → Channels × Option ℕ → Channels × ℤ
unfolding join_marked
join_added chan (s, none) = (s, negsuc 0)
join_added chan (s, some i) = join_marked (chan_setstatus chan Status.join s)

unfoldable pub irc_join : Option Str → Option Str → Client → Client × ℤ
unfolding join_added
irc_join none key c = (c, negsuc 0)
irc_join (some chan) key c =
    let (s, r) = join_added chan (chan_add chan key c.channels) in (record c { channels = s }, r)

quit_text : Option Str → Str
unfolding strncpy
quit_text none = []
quit_text (some message) = strncpy 128 message

unfoldable pub irc_disconnect : Option Str → Client → Client
unfolding quit_text
irc_disconnect message c = record c { quit_message = quit_text message; quit = disconnect }

unfoldable pub irc_reconnect : Option Str → Client → Client
unfolding quit_text
irc_reconnect message c = record c { quit_message = quit_text message; quit = reconnect }
