-- ===== src/Connection/Fifo.antt =====
-- src/connection.c: read_input(), which reads a line from the fifo of the parent or of a child.
use mx3bot.Base.{ℕ, zero, suc, Option, none, some, [], ◌∷◌, ◌==◌, if◌then◌else◌, ◌>>=◌}
use mx3bot.CString.{Str}

-- The line, and what is left in the fifo, where the line has at most `room` bytes. Without a line break
-- the call goes on reading, and a line that is longer is written past the end of the array: both
-- are `none`. read() does not fail: each line is put into the fifo by one write().
unfoldable pub read_line : ℕ → Str → Option (Str × Str)
read_line room [] = none
read_line zero (c ∷ s) = if c == b'\n' then some ([], s) else none
read_line (suc room) (c ∷ s) =
    let rest : Option (Str × Str) = read_line room s >>= λ (l, left). some (c ∷ l, left) in
    if c == b'\n' then some ([], s) else rest

-- The array has 512 bytes.
unfoldable pub read_input : Str → Option (Str × Str)
unfolding read_line
read_input fifo = read_line 511 fifo
