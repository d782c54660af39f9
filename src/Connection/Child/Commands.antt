-- ===== src/Connection/Child/Commands.antt =====
-- src/connection.c: what the parent can tell a child to do: a line is a word and what it is about.
-- `none` is an access through NULL, or outside the output queue's array.
use mx3bot.Base.{ℕ, Option, none, some, List, [], ◌∷◌, if◌then◌else◌, ◌>>=◌}
use mx3bot.Base.Int.{ℤ}
use mx3bot.CString.{Str, str_eq}
use mx3bot.Config.Write.{or_null}
use mx3bot.Irc.Client.{
  Client, irc_ctcp, irc_disconnect, irc_join, irc_kick, irc_mode, irc_notice, irc_part, irc_privmsg,
  irc_quote, irc_reconnect, irc_setnick, irc_topic,
}
use mx3bot.Irc.Queue.{Allocator}
use mx3bot.Connection.Line.{all_left, next_word, or_empty, chosen}
use mx3bot.Connection.Words.{
  word_ctcp, word_disconnect, word_fail, word_irc, word_join, word_kick, word_mode, word_msg,
  word_nick, word_notice, word_ok, word_part, word_reconnect, word_topic,
}

-- CHILD_*
pub data Answer : Type 0 where
  child_ok child_fail child_cmd child_parse : Answer

-- The result of a command is not looked at.
abbrev only : Option (Client × ℤ) → Option Client
only o = o >>= λ (c, r). some c

module _ (memory : Allocator) (now : ℕ) where
  child_msg : Option Str → Client → Option Client
  unfolding next_word all_left irc_privmsg
  child_msg p c =
      let (target, rest) = next_word (or_empty p) in
      only (irc_privmsg memory now (or_null target) (or_null (all_left rest)) c)

  child_ctcp : Option Str → Client → Option Client
  unfolding next_word all_left irc_ctcp
  child_ctcp p c =
      let (target, rest) = next_word (or_empty p) in
      only (irc_ctcp memory now (or_null target) (or_null (all_left rest)) c)

  child_notice : Option Str → Client → Option Client
  unfolding next_word all_left irc_notice
  child_notice p c =
      let (target, rest) = next_word (or_empty p) in
      only (irc_notice memory now (or_null target) (or_null (all_left rest)) c)

  child_join : Option Str → Client → Option Client
  unfolding next_word all_left irc_join
  child_join p c =
      let (chan, rest) = next_word (or_empty p) in some (irc_join chan (all_left rest) c).0

  child_part : Option Str → Client → Option Client
  unfolding next_word all_left irc_part
  child_part p c =
      let (chan, rest) = next_word (or_empty p) in
      chan >>= λ ch. irc_part memory now ch (all_left rest) c

  child_topic : Option Str → Client → Option Client
  unfolding next_word all_left irc_topic
  child_topic p c =
      let (chan, rest) = next_word (or_empty p) in
      irc_topic memory now (or_null chan) (or_null (all_left rest)) c

  child_mode : Option Str → Client → Option Client
  unfolding next_word all_left irc_mode
  child_mode p c =
      let (chan, s₁) = next_word (or_empty p) in
      let (mode, s₂) = next_word s₁ in irc_mode memory now (or_null chan) mode (all_left s₂) c

  child_kick : Option Str → Client → Option Client
  unfolding next_word all_left irc_kick
  child_kick p c =
      let (chan, s₁) = next_word (or_empty p) in
      let (nick, s₂) = next_word s₁ in
      irc_kick memory now (or_null chan) (or_null nick) (all_left s₂) c

  child_irc : Option Str → Client → Option Client
  unfolding irc_quote
  child_irc p c = only (irc_quote memory now (or_null p) c)

  child_disconnect : Option Str → Client → Option Client
  unfolding irc_disconnect
  child_disconnect p c = some (irc_disconnect p c)

  child_reconnect : Option Str → Client → Option Client
  unfolding irc_reconnect
  child_reconnect p c = some (irc_reconnect p c)

  child_nick : Option Str → Client → Option Client
  unfolding next_word irc_setnick
  child_nick p c = (next_word (or_empty p)).0 >>= λ nick. irc_setnick memory now nick c

  -- The functions by their words, in the order in which these are compared.
  commands : List (Str × (Option Str → Client → Option Client))
  unfolding child_msg child_ctcp child_notice child_join child_part child_topic child_disconnect
      child_reconnect child_nick child_mode child_kick child_irc
  commands =
      (word_msg, child_msg)
      ∷ (word_ctcp, child_ctcp)
      ∷ (word_notice, child_notice)
      ∷ (word_join, child_join)
      ∷ (word_part, child_part)
      ∷ (word_topic, child_topic)
      ∷ (word_disconnect, child_disconnect)
      ∷ (word_reconnect, child_reconnect)
      ∷ (word_nick, child_nick)
      ∷ (word_mode, child_mode)
      ∷ (word_kick, child_kick)
      ∷ (word_irc, child_irc)
      ∷ []

  obey :
      Option Str → Client → Option (Option Str → Client → Option Client) → Option (Client × Answer)
  obey param c none = some (c, child_parse)
  obey param c (some f) = f param c >>= λ c'. some (c', child_cmd)

  unfoldable pub parse_child_input : Str → Client → Option (Client × Answer)
  unfolding next_word all_left commands obey str_eq
  parse_child_input msg c =
      let (cmd, rest) = next_word msg in
      elim cmd [
        | none ↦ some (c, child_parse)
        | some w ↦
            if str_eq w word_ok
            then some (c, child_ok)
            else if str_eq w word_fail
            then some (c, child_fail)
            else obey (all_left rest) c (chosen w commands)
      ]
