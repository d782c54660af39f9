-- ===== src/Irc/Network.antt =====
-- src/irc/irc_network.c: sending a text to the IRC server, and reading a line from it. The calls of
-- the socket library are what they return.
pub mod Laws
mod Tests
use mx3bot.Base.{
  ℕ, zero, suc, Bool, true, false, Option, none, some, List, [], ◌∷◌, ◌++◌, ◌==◌, ◌>>=◌,
  if◌then◌else◌, length,
}
use mx3bot.Base.Int.{ℤ, negsuc, pos}
use mx3bot.CString.{Str, strncpy}

-- `status` is IRC_SERVER_DISCONNECT. The result is what was sent, and `false` for -1; `sends` says of
-- which texts send() does not return -1.
unfoldable pub net_send : Bool → (Str → Bool) → Str → List Str × Bool
net_send true sends text = ([], false)
net_send false sends text =
    if sends text
    then (if sends (b'\r' ∷ b'\n' ∷ [])
        then (text ∷ (b'\r' ∷ b'\n' ∷ []) ∷ [], true)
        else (text ∷ [], false))
    else ([], false)

-- What recv() of one byte does: it gives a byte, fails with EAGAIN, after which the next byte is
-- waited for, fails for another reason, or gives nothing since the server has closed the
-- connection.
pub data Recv : Type 0 where
  byte : ℕ → Recv
  again lost closed : Recv

abbrev push : ℕ → Option (Option Str × List Recv) → Option (Option Str × List Recv)
push c none = none
push c (some (none, left)) = some (none, left)
push c (some (some l, left)) = some (some (c ∷ l), left)

-- A byte goes into the array, unless it is a carriage return, and ends the line if it is a line feed.
-- `room` is how many bytes the array still takes, and `next` what the loop does on.
unfoldable pub put_byte :
    ℕ → ℕ → List Recv → (ℕ → Option (Option Str × List Recv)) → Option (Option Str × List Recv)
put_byte zero c left next = if c == b'\r' then next zero else none
put_byte (suc room) c left next =
    if c == b'\r'
    then next (suc room)
    else if c == b'\n'
    then some (some [], left)
    else push c (next room)

-- The loop, with the byte in `ch` from the pass before, which it goes on with where recv() gives none.
-- A result of `none` is a loop that never ends, or a write past the array: so does one that waits
-- for a byte that does not come, and one that reads a connection that is closed.
unfoldable pub read_bytes : ℕ → ℕ → List Recv → Option (Option Str × List Recv)
unfolding put_byte
read_bytes room ch [] = none
read_bytes room ch (byte c ∷ left) = put_byte room c left (λ room'. read_bytes room' c left)
read_bytes room ch (again ∷ left) = put_byte room ch left (λ room'. read_bytes room' ch left)
read_bytes room ch (lost ∷ left) = some (none, left)
read_bytes room ch (closed ∷ left) = none

result_of : ℕ → Option (Option Str × List Recv) → Option (Str × ℤ × List Recv)
unfolding strncpy
result_of maxlen none = none
result_of maxlen (some (none, left)) = some ([], negsuc 0, left)
result_of maxlen (some (some l, left)) = some (strncpy maxlen l, pos (length l), left)

-- `ready` says whether there is anything to read in time.
unfoldable pub net_readline : Bool → ℕ → List Recv → Option (Str × ℤ × List Recv)
unfolding result_of read_bytes
net_readline false maxlen input = some ([], pos 0, input)
net_readline true maxlen input = result_of maxlen (read_bytes 1024 0 input)
