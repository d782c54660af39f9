-- ===== src/Irc/Network/Laws.antt =====
-- src/irc/irc_network.c: a line that arrives at once, and one that arrives in two parts.
use mx3bot.Base.{
  ◌≡◌, refl, ◌<◌, ◌+◌, ℕ, zero, suc, false, true, some, List, [], ◌∷◌, ◌++◌, ◌==◌, arith, length,
  map, take_all, length-append,
}
use mx3bot.Base.Int.{pos}
use mx3bot.CString.{Str, strncpy}
use mx3bot.Strtok.{IsFree, IsFree-append, IsFree-front, is_in}
use mx3bot.Irc.Network.{Recv, again, byte, net_readline, put_byte, read_bytes, result_of}

abbrev pub bytes : Str → List Recv
bytes = map byte

abbrev pub line_end : List Recv
line_end = byte b'\r' ∷ byte b'\n' ∷ []

abbrev pub breaks : Str
breaks = b'\r' ∷ b'\n' ∷ []

read_bytes-bytes :
    (room ch : ℕ) (l : Str) (more : List Recv)
    → IsFree breaks l
    → length l < room
    → read_bytes room ch (bytes l ++ line_end ++ more) ≡ some (some l, more)
unfolding read_bytes put_byte is_in
read_bytes-bytes zero ch l more h e = absurd (omega arith)
read_bytes-bytes (suc room) ch [] more h e = refl
read_bytes-bytes (suc room) ch (c ∷ l) more h e =
    let carriage : (c == b'\r') ≡ false = ground (arith, h.0) in
    let feed : (c == b'\n') ≡ false = ground (arith, h.0) in
    rw (carriage, feed, read_bytes-bytes room c l more h.1 (omega arith)) refl

read_bytes-again :
    (room ch : ℕ) (a : Str) (c : ℕ) (b : Str) (more : List Recv)
    → IsFree breaks a
    → IsFree breaks (c ∷ b)
    → length a + length b + 2 < room
    → read_bytes room ch (bytes (a ++ c ∷ []) ++ again ∷ (bytes b ++ line_end ++ more))
      ≡ some (some (a ++ c ∷ c ∷ b), more)
unfolding read_bytes put_byte is_in
read_bytes-again zero ch a c b more h k e = absurd (omega arith)
read_bytes-again (suc zero) ch a c b more h k e = absurd (omega arith)
read_bytes-again (suc (suc room)) ch [] c b more h k e =
    let carriage : (c == b'\r') ≡ false = ground (arith, k.0) in
    let feed : (c == b'\n') ≡ false = ground (arith, k.0) in
    rw (carriage, feed, read_bytes-bytes room c b more k.1 (omega arith)) refl
read_bytes-again (suc (suc room)) ch (d ∷ a) c b more h k e =
    let carriage : (d == b'\r') ≡ false = ground (arith, h.0) in
    let feed : (d == b'\n') ≡ false = ground (arith, h.0) in
    rw (carriage, feed, read_bytes-again (suc room) d a c b more h.1 k (omega arith)) refl

-- A line that arrives at once.
pub net_readline_whole :
    (maxlen : ℕ) (l : Str) (more : List Recv)
    → IsFree breaks l
    → length l < 1024
    → length l < maxlen
    → net_readline true maxlen (bytes l ++ line_end ++ more) ≡ some (l, pos (length l), more)
unfolding net_readline result_of strncpy
net_readline_whole maxlen l more h e k =
    rw (read_bytes-bytes 1024 0 l more h e, take_all maxlen l (omega (arith, k))) refl

pub IsFree-breaks : (s : Str) → IsFree (b'\r' ∷ []) s → IsFree (b'\n' ∷ []) s → IsFree breaks s
unfolding is_in
IsFree-breaks [] h k = tt
IsFree-breaks (c ∷ s) h k = (ground (arith, h.0, k.0), IsFree-breaks s h.1 k.1)

-- Of a line of at least one and less than 1023 bytes without line breaks that fits the buffer with
-- a byte to spare, `_irc_net_readline` returns exactly the text if the line arrives at once; if it
-- arrives in two parts, the last byte before the gap stands in the result twice.
pub net_readline_lem :
    (maxlen : ℕ) (a : Str) (c : ℕ) (b : Str) (more : List Recv)
    → IsFree breaks (a ++ c ∷ b)
    → length (a ++ c ∷ b) < 1023
    → length (a ++ c ∷ b) + 1 < maxlen
    → (net_readline true maxlen (bytes (a ++ c ∷ b) ++ line_end ++ more)
        ≡ some (a ++ c ∷ b, pos (length (a ++ c ∷ b)), more))
      × (net_readline true maxlen (bytes (a ++ c ∷ []) ++ again ∷ (bytes b ++ line_end ++ more))
          ≡ some (a ++ c ∷ c ∷ b, pos (length (a ++ c ∷ c ∷ b)), more))
unfolding net_readline result_of strncpy
net_readline_lem maxlen a c b more h e k =
    let front = IsFree-front breaks a (c ∷ b) h in
    let back = IsFree-append breaks a (c ∷ b) h in
    let sum : length (a ++ c ∷ b) ≡ length a + suc (length b) = length-append a (c ∷ b) in
    let sum' : length (a ++ c ∷ c ∷ b) ≡ length a + suc (suc (length b)) =
      length-append a (c ∷ c ∷ b) in
    (
      net_readline_whole maxlen (a ++ c ∷ b) more h (omega (arith, e)) (omega (arith, k)),
      rw
          (
            read_bytes-again 1024 0 a c b more front back (omega (arith, e, sum)),
            take_all maxlen (a ++ c ∷ c ∷ b) (omega (arith, k, sum, sum')),
          )
          refl,
    )
