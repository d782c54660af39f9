-- ===== src/Connection/Signals.antt =====
-- src/connection.c: the signals that the parent handles. The variable database is a parameter.
use mx3bot.Base.{ℕ, Option, [], ◌∷◌}
use mx3bot.Base.Int.{ℤ, pos}
use mx3bot.CString.{Str}
use mx3bot.Connection.{Connections, connection_close, connection_shutdown}

-- wait() gives the process that has ended, or -1.
unfoldable pub sigchild : Option ℕ → Connections → Connections
unfolding connection_close
sigchild child s = (connection_close child s).0

-- `var_get_def` takes the user, the name, the length and the default.
module _ (var_get_def : ℤ → Str → ℕ → Str → Str) where
  abbrev sigint_key : Str
  sigint_key = b'm' ∷ b's' ∷ b'g' ∷ b':' ∷ b's' ∷ b'i' ∷ b'g' ∷ b'i' ∷ b'n' ∷ b't' ∷ []

  abbrev sigint_reason : Str
  sigint_reason = b'S' ∷ b'I' ∷ b'G' ∷ b'I' ∷ b'N' ∷ b'T' ∷ []

  abbrev sigterm_key : Str
  sigterm_key = b'm' ∷ b's' ∷ b'g' ∷ b':' ∷ b's' ∷ b'i' ∷ b'g' ∷ b't' ∷ b'e' ∷ b'r' ∷ b'm' ∷ []

  abbrev sigterm_reason : Str
  sigterm_reason = b'S' ∷ b'I' ∷ b'G' ∷ b'T' ∷ b'E' ∷ b'R' ∷ b'M' ∷ []

  unfoldable pub sigint : Connections → Connections
  unfolding connection_shutdown
  sigint s = connection_shutdown (var_get_def (pos 0) sigint_key 512 sigint_reason) s

  unfoldable pub sigterm : Connections → Connections
  unfolding connection_shutdown
  sigterm s = connection_shutdown (var_get_def (pos 0) sigterm_key 512 sigterm_reason) s
