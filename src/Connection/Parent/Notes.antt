-- ===== src/Connection/Parent/Notes.antt =====
-- src/connection.c: what the parent does with the notes of a child, with commands of a direct chat,
-- and with an invitation.
use mx3bot.Base.{ℕ, true, Option, none, some, [], ◌∷◌, ◌++◌, ltb, length, if◌then◌else◌, ◌>>=◌}
use mx3bot.CString.{Str, str_eq}
use mx3bot.Connection.{change}
use mx3bot.Connection.Queue.{add_sent, nick_word, written}
use mx3bot.Connection.Line.{all_left, next_word, or_empty}
use mx3bot.Connection.Parent.{Parent, System, answer, connection_of, number, ok, text, with_status}
use mx3bot.Connection.Words.{
  arg_botnick, arg_host, arg_nick, arg_param, arg_target, arg_uid, arg_user, dcc_nick, event_invite,
  word_dcc, word_fail, word_invite, word_joinfailure, word_nickinuse, word_note,
}

-- A longer nick is tried, if it fits.
unfoldable pub next_nick : ℕ → Parent → Option Parent
unfolding written
next_nick cid s = connection_of cid s >>= λ c.
    (let c' = record c { nick = c.nick ++ b'_' ∷ [] } in
      let conns' = change (λ x. record x { nick = x.nick ++ b'_' ∷ [] }) cid s.connections.conns in
      let tried : Parent = record s {
        connections =
            add_sent (written c' (nick_word ++ c'.nick)) (record s.connections { conns = conns' });
      } in
      some (if ltb (length c.nick) 31 then tried else s))

-- A failure to join is only reported in a debug message.
unfoldable pub server_note : ℕ → Option Str → Parent → Option Parent
unfolding next_word next_nick ok answer
server_note cid p s =
    let (type, s₁) = next_word (or_empty p) in
    let failed = answer word_fail cid word_note s in
    let tried = next_nick cid s >>= λ s'. ok cid word_note s' in
    type >>= λ t.
    (if str_eq t word_nickinuse
      then tried
      else if str_eq t word_joinfailure
      then ok cid word_note s
      else failed)

module _ (sys : System) (cid : ℕ) where
  open sys use {script_exec}

  unfoldable pub server_dcc : Option Str → Parent → Option Parent
  unfolding next_word all_left ok
  server_dcc p s =
      let (cmd, s₁) = next_word (or_empty p) in
      let told : Option Parent = cmd >>= λ name. connection_of cid s >>= λ c.
      script_exec cid name none
        ((arg_nick, text (some dcc_nick))
          ∷ (arg_user, text (some dcc_nick))
          ∷ (arg_host, text (some c.addr))
          ∷ (arg_target, text (some []))
          ∷ (arg_param, text (all_left s₁))
          ∷ (arg_botnick, text (some dcc_nick))
          ∷ (arg_uid, number c.uid)
          ∷ [])
        s in
      (elim cmd [ none ↦ some s | some name ↦ told ]) >>= λ s'. ok cid word_dcc s'

  unfoldable pub server_invite : Option Str → Parent → Option Parent
  unfolding next_word with_status ok
  server_invite p s =
      let (target, s₁) = next_word (or_empty p) in
      let (nick, s₂) = next_word s₁ in
      let (user, s₃) = next_word s₂ in
      let (host, s₄) = next_word s₃ in
      with_status sys cid true nick user host s >>= λ (s', uid). connection_of cid s' >>= λ c.
      script_exec cid event_invite none
        ((arg_nick, text nick)
          ∷ (arg_user, text user)
          ∷ (arg_host, text host)
          ∷ (arg_target, text target)
          ∷ (arg_botnick, text (some c.nick))
          ∷ (arg_uid, number uid)
          ∷ [])
        s'
      >>= λ r. ok cid word_invite r
