-- ===== src/Irc/Network/Tests.antt =====
-- A line that arrives in two parts.
use mx3bot.Base.{◌≡◌, refl, true, some, [], ◌∷◌, ◌++◌, arith}
use mx3bot.Base.Int.{pos}
use mx3bot.CString.{Str}
use mx3bot.Strtok.{are_free, are_free-IsFree}
use mx3bot.Irc.Network.{again, net_readline}
use mx3bot.Irc.Network.Laws.{breaks, bytes, line_end, net_readline_lem}

abbrev pi : Str
pi = b'P' ∷ b'I' ∷ []

abbrev ng : Str
ng = b'N' ∷ b'G' ∷ []

net_readline_lem_example :
    (net_readline true 512 (bytes (b'P' ∷ b'I' ∷ ng) ++ line_end ++ [])
      ≡ some (b'P' ∷ b'I' ∷ ng, pos 4, []))
    × (net_readline true 512 (bytes pi ++ again ∷ (bytes ng ++ line_end ++ []))
        ≡ some (b'P' ∷ b'I' ∷ b'I' ∷ ng, pos 5, []))
unfolding are_free
net_readline_lem_example =
    net_readline_lem 512 (b'P' ∷ []) b'I' ng [] (are_free-IsFree breaks (b'P' ∷ b'I' ∷ ng) refl)
      (omega arith) (omega arith)
