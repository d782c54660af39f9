-- ===== src/Connection/Parent/Messages/Commands.antt =====
-- src/connection.c: which scripts a message runs.
use mx3bot.Base.{
  ◌≡◌, refl, ℕ, Bool, true, false, Bool-cases, inl, inr, Option, some, none, [], ◌∷◌, ◌>>=◌, ◌==◌,
  List, if◌then◌else◌, Option-cases,
}
use mx3bot.Base.Int.{ℤ}
use mx3bot.Log.{logtype_privmsg}
use mx3bot.CString.{Str}
use mx3bot.Connection.Line.{all_left, next_word, or_empty, ◌⌢◌}
use mx3bot.Connection.Line.Words.{IsText, IsWord, all_left_text, next_word-⌢}
use mx3bot.Connection.Parent.{
  connection_of, Parent, System, Value, joined, join_as, seen, user_status, with_status, logged,
  logged_if_channel,
}
use mx3bot.Connection.Parent.Messages.{
  act_on, command_of, first_byte, heard, msg_parts, run_command, server_msg, spoken,
}
use mx3bot.Connection.Words.{event_msg}

-- The command of a text with an argument: behind the prefix, or the first word of a direct message.
pub command_of_lem :
    (direct : Bool) (prefix : ℕ) (c : ℕ) (w args : Str)
    → IsWord (c ∷ w)
    → IsText args
    → command_of direct prefix ((c ∷ w) ⌢ args) ≡ (
        if c == prefix
        then (some w, some args)
        else if direct
        then (some (c ∷ w), some args)
        else (none, none))
unfolding command_of
command_of_lem direct prefix c w args h t =
    rw (next_word-⌢ (c ∷ w) args h, all_left_text args t) refl

bind_same :
    {f g : Parent → Option Parent}
    → ((s : Parent) → f s ≡ g s)
    → (o : Option Parent) → (o >>= f) ≡ (o >>= g)
bind_same same none = refl
bind_same same (some s) = same s

abbrev pub Exec : Type 0
Exec = ℕ → Str → Option Str → List (Str × Value) → Parent → Option Parent

-- The other scripts run as those of the system do, but for names that begin with `_` and are not that
-- of the event of a message.
abbrev pub Agrees : System → Exec → Type 0
Agrees sys exec =
    ((cid : ℕ) (name : Str) (user : Option Str) (args : List (Str × Value)) (s : Parent)
      → (first_byte name == b'_') ≡ false
      → exec cid name user args s ≡ sys.script_exec cid name user args s)
    × ((cid : ℕ) (user : Option Str) (args : List (Str × Value)) (s : Parent)
        → exec cid event_msg user args s ≡ sys.script_exec cid event_msg user args s)

module _ (sys : System) (exec : Exec) (agrees : Agrees sys exec) (cid : ℕ) where
  abbrev sys₂ : System
  sys₂ = record sys { script_exec = exec }

  run_command_same :
      (direct : Bool) (uid : ℤ) (target nick user host : Option Str)
      (command : Option Str × Option Str) (s : Parent)
      → run_command sys₂ cid direct uid target nick user host command s
        ≡ run_command sys cid direct uid target nick user host command s
  unfolding run_command
  run_command_same direct uid target nick user host (none, param) s = refl
  run_command_same direct uid target nick user host (some command, param) s =
      elim (Option-cases (connection_of cid s)) [
        | inl e ↦ rw e refl
        | inr (c, e) ↦ elim (Bool-cases (first_byte command == b'_')) [
          | inl reserved ↦ rw (e, reserved) refl
          | inr named ↦ rw (e, named, agrees.0 cid command nick _ s named) refl
        ]
      ]

  with_status_same :
      (nick user host : Option Str) (s : Parent)
      → with_status sys₂ cid true nick user host s ≡ with_status sys cid true nick user host s
  unfolding with_status user_status joined join_as seen
  with_status_same nick user host s = refl

  logged_same :
      (target : Option Str) (type : ℕ) (line : Str) (s : Parent)
      → logged_if_channel sys₂ cid target type line s ≡ logged_if_channel sys cid target type line s
  unfolding logged_if_channel logged
  logged_same target type line s = refl

  act_on_same :
      (target nick user host p : Option Str) (uid : ℤ) (s : Parent)
      → act_on sys₂ cid target nick user host p uid s ≡ act_on sys cid target nick user host p uid s
  unfolding act_on
  act_on_same none nick user host p uid s = refl
  act_on_same (some target) nick user host none uid s = refl
  act_on_same (some target) nick user host (some p) uid s =
      elim (Option-cases (connection_of cid s)) [
        | inl e ↦ rw e refl
        | inr (c, e) ↦ rw e (run_command_same _ uid (some target) nick user host _ s)
      ]

  heard_same :
      (target nick user host p : Option Str) (uid : ℤ) (s : Parent)
      → heard sys₂ cid target nick user host p uid s ≡ heard sys cid target nick user host p uid s
  unfolding heard
  heard_same target nick user host p uid s = elim (Option-cases (connection_of cid s)) [
    | inl e ↦ rw e refl
    | inr (c, e) ↦
        rw (e, agrees.1 cid none _ s)
          (bind_same (λ s'. act_on_same target nick user host p uid s')
            (sys.script_exec cid event_msg none _ s))
  ]

  logged-heard_same :
      (target nick user host p : Option Str) (line : Str) (uid : ℤ) (s : Parent)
      → (logged_if_channel sys₂ cid target logtype_privmsg line s >>= λ s'.
          heard sys₂ cid target nick user host p uid s')
        ≡ (logged_if_channel sys cid target logtype_privmsg line s >>= λ s'.
            heard sys cid target nick user host p uid s')
  logged-heard_same target nick user host p line uid s =
      elim (Option-cases (logged_if_channel sys cid target logtype_privmsg line s)) [
        | inl e ↦ rw (logged_same target logtype_privmsg line s, e) refl
        | inr (s', e) ↦
            rw (logged_same target logtype_privmsg line s, e)
              (heard_same target nick user host p uid s')
      ]

  msg_parts_same :
      (target nick user host p : Option Str) (s : Parent)
      → msg_parts sys₂ cid target nick user host p s ≡ msg_parts sys cid target nick user host p s
  unfolding msg_parts
  msg_parts_same target nick user host p s =
      elim (Option-cases (with_status sys cid true nick user host s)) [
        | inl e ↦ rw (with_status_same nick user host s, e) refl
        | inr ((s', uid), e) ↦
            rw (with_status_same nick user host s, e)
              (logged-heard_same target nick user host p
                (spoken (b'<' ∷ []) (b'>' ∷ b' ' ∷ []) nick user host p) uid s')
      ]

  -- Whatever line a child writes about a message, `server_msg` runs no script of a name that begins
  -- with `_` but `_msg`: if all other scripts run the same, the parent ends in the same state.
  pub server_msg-Agrees :
      (msg : Option Str) (s : Parent) → server_msg sys₂ cid msg s ≡ server_msg sys cid msg s
  unfolding server_msg
  server_msg-Agrees msg s =
      let (target, s₁) = next_word (or_empty msg) in
      let (nick, s₂) = next_word s₁ in
      let (user, s₃) = next_word s₂ in
      let (host, s₄) = next_word s₃ in msg_parts_same target nick user host (all_left s₄) s
