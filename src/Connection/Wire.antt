-- ===== src/Connection/Wire.antt =====
-- src/connection.c: a line that a child writes is the line that the parent reads, and the parent's answer
-- ends the wait of the child.
pub mod Joins
pub mod Says
pub mod Chain
use mx3bot.Base.{
  bind_some, ◌≡◌, refl, ◌∙◌, ap, ℕ, ◌≤◌, suc, true, false, Option, some, [], ◌∷◌, ◌++◌, ◌>>=◌,
  arith, length, take, take_all, if◌then◌else◌,
}
use mx3bot.Base.Int.{ℤ, int_eq, pos}
use mx3bot.CString.{Str, str_eq}
use mx3bot.CString.Number.{AreDigits, atoi, atoi-format_int, format_int, format_int-AreDigits}
use mx3bot.Irc.Client.{Client}
use mx3bot.Irc.Queue.{Allocator}
use mx3bot.Strtok.{IsFree, IsFree-both, is_in}
use mx3bot.Connection.Child.{Child, await, awaited, line_to_parent, send_to_parent}
use mx3bot.Connection.Child.Commands.{child_ok, parse_child_input}
use mx3bot.Connection.Fifo.{read_input}
use mx3bot.Connection.Line.{chosen, ◌⌢◌}
use mx3bot.Connection.Line.Words.{
  IsText, IsWord, all_left_text, format_int-IsWord, next_word-⌢, read_line_lem,
}
use mx3bot.Connection.Parent.{Parent, System}
use mx3bot.Connection.Parent.Dispatch.{
  connection_server, handle, handlers, parse_server_input, read_ready,
}
use mx3bot.Connection.Words.{word_ok}

abbrev pub newline : Str
newline = b'\n' ∷ []

AreDigits-IsFree : (s : Str) → AreDigits s → IsFree newline s
unfolding is_in
AreDigits-IsFree [] h = tt
AreDigits-IsFree (c ∷ []) h = (ground (arith, h), tt)
AreDigits-IsFree (c ∷ d ∷ s) h = (ground (arith, h.0), AreDigits-IsFree (d ∷ s) h.1)

append_line : (a more : Str) → (a ++ newline) ++ more ≡ a ++ b'\n' ∷ more
append_line [] more = refl
append_line (x ∷ a) more = ap (◌∷◌ x) (append_line a more)

read_input-append :
    (l more : Str)
    → IsFree newline l
    → length l ≤ 511
    → read_input ((l ++ newline) ++ more) ≡ some (l, more)
unfolding read_input
read_input-append l more h e = rw (append_line l more) (read_line_lem 511 l more h e)

-- What the parent makes of a line.
module _ (sys : System) (cid : ℕ) (w rest : Str) (h : IsWord w) (t : IsText rest) where
  parse_server_input_lem :
      (s : Parent)
      → parse_server_input sys (format_int (pos cid) ⌢ w ⌢ rest) s
        ≡ (handle sys (pos cid) (some rest) s (chosen w (handlers sys)) >>= λ s'. some (s', true))
  unfolding parse_server_input
  parse_server_input_lem s =
      let first = next_word-⌢ (format_int (pos cid)) (w ⌢ rest) (format_int-IsWord cid) in
      let second = next_word-⌢ w rest h in
      rw
        (
          parse_server_input,
          first,
          first,
          second,
          first,
          second,
          all_left_text rest t,
          atoi-format_int cid,
        )
        refl

  pub connection_server-line_to_parent :
      (s : Parent) (more : Str)
      → IsFree newline (w ⌢ rest)
      → length (format_int (pos cid) ⌢ w ⌢ rest) ≤ 510
      → int_eq s.connections.count (pos 0) ≡ false
      → connection_server sys (some (line_to_parent (pos cid) (w ⌢ rest) ++ more)) s ≡ (
          handle sys (pos cid) (some rest) s (chosen w (handlers sys)) >>= λ s'.
          some (s', more, pos 0))
  unfolding connection_server read_ready line_to_parent
  connection_server-line_to_parent s more f e k =
      let line = format_int (pos cid) ⌢ w ⌢ rest in
      let digits_free = AreDigits-IsFree (format_int (pos cid)) (format_int-AreDigits cid) in
      let free : IsFree newline line =
        IsFree-both newline (format_int (pos cid)) (b' ' ∷ (w ⌢ rest)) digits_free (refl, f) in
      rw
        (
          k,
          read_ready,
          take_all 510 line e,
          read_input-append line more free (omega (arith, e)),
          parse_server_input_lem s,
        )
        (bind_some (handle sys (pos cid) (some rest) s (chosen w (handlers sys))) (λ s'. (s', true))
          (λ x. (x.0, more, pos 0)))

-- What the parent answers to a word.
abbrev pub answer_line : Str → Str
answer_line w = (word_ok ⌢ w) ++ newline

-- The child does not wait behind the answer.
pub send_to_parent-answer_line :
    (memory : Allocator) (now : ℕ) (cid : ℤ) (text w later : Str) (c : Child)
    → IsFree newline w
    → length w ≤ 500
    → c.input ≡ some (answer_line w ++ later)
    → send_to_parent memory now cid text c
      ≡ some (record c { output = c.output ++ line_to_parent cid text; input = some later })
unfolding send_to_parent is_in parse_child_input str_eq
send_to_parent-answer_line memory now cid text w later c f e h =
    let line : read_input (answer_line w ++ later) ≡ some (word_ok ⌢ w, later) =
      read_input-append (word_ok ⌢ w) later (refl, (refl, (refl, f))) (omega (arith, e)) in
    rw (h, awaited, await, line) refl
