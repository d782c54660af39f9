-- ===== src/Connection/Child.antt =====
-- src/connection.c: a child, which is the IRC client of one connection: what it tells the parent, and
-- how it waits for the answer.
-- `none` is a child that waits for ever, that has left, or an access through NULL or outside an array.
pub mod Commands
pub mod Events
pub mod Replies
use mx3bot.Base.{
  ℕ, zero, suc, ◌+◌, Bool, true, false, ◌||◌, Option, none, some, List, [], ◌∷◌, ◌++◌, leb, length,
  if◌then◌else◌, take, ◌>>=◌,
}
use mx3bot.Base.Int.{ℤ}
use mx3bot.CString.{Str}
use mx3bot.CString.Number.{format_int}
use mx3bot.Irc.Client.{Client}
use mx3bot.Irc.Queue.{Allocator}
use mx3bot.Connection.Child.Commands.{
  Answer, child_ok, child_fail, child_cmd, child_parse, parse_child_input,
}
use mx3bot.Connection.Fifo.{read_input}
use mx3bot.Connection.Words.{word_hello}

-- The client, the fifo that the child reads, if it is open, what was written to the parent, and how
-- many signals have come.
pub record Child : Type 0 where
  pub client : Client
  pub input : Option Str
  pub output : Str
  pub term_count : ℕ

abbrev ends_wait : Answer → Bool
ends_wait a = elim a [
  | child_ok ↦ true
  | child_fail ↦ true
  | child_cmd ↦ false
  | child_parse ↦ false
]

-- The text after its format. write() takes all of it.
unfoldable pub line_to_parent : ℤ → Str → Str
unfolding format_int
line_to_parent cid text = take 510 (format_int cid ++ b' ' ∷ text) ++ b'\n' ∷ []

module _ (memory : Allocator) (now : ℕ) where
  -- The commands of the parent until it answers. Each line takes at least one byte of the fifo, so
  -- that fuel above its length is enough.
  unfoldable pub await : ℕ → Str → Client → Option (Client × Str)
  unfolding read_input parse_child_input
  await zero fifo client = none
  await (suc fuel) fifo client = read_input fifo >>= λ (line, left).
      parse_child_input memory now line client >>= λ (client', a).
      (let again = await fuel left client' in if ends_wait a then some (client', left) else again)

  unfoldable pub awaited : Option Str → Child → Option Child
  unfolding await
  awaited none c = some c
  awaited (some fifo) c = await (suc (length fifo)) fifo c.client >>= λ (client, left).
      some (record c { client = client; input = some left })

  unfoldable pub send_to_parent : ℤ → Str → Child → Option Child
  unfolding awaited line_to_parent
  send_to_parent cid text c =
      awaited c.input (record c { output = c.output ++ line_to_parent cid text })

  -- What open() of the parent's fifo, mkfifo() and open() of the child's own make, whose name is
  -- `infifo`.
  unfoldable pub child_init : Bool → Bool → Bool → Str → Str → ℤ → Child → Option (Child × Bool)
  unfolding send_to_parent
  child_init opened made opened_own infifo fifo cid c =
      let ready : Child = record c { term_count = 0; input = some fifo } in
      let told : Option (Child × Bool) =
        send_to_parent cid (word_hello ++ b' ' ∷ infifo) ready >>= λ c'. some (c', true) in
      if opened
      then (if made
          then (if opened_own
              then told
              else some (record c { term_count = 0; input = none }, false))
          else some (record c { term_count = 0 }, false))
      else some (record c { term_count = 0 }, false)

-- The child leaves at the third signal.
unfoldable pub sigterm_child : Child → Option Child
sigterm_child c =
    if leb c.term_count 1 then some (record c { term_count = c.term_count + 1 }) else none
