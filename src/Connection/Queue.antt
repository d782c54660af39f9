-- ===== src/Connection/Queue.antt =====
-- src/connection.c: the messages that the parent holds for its children until they ask for them.
pub mod Laws
mod Tests
use mx3bot.Base.{
  ℕ, zero, suc, ◌+◌, ◌-◌, Bool, true, false, ◌&&◌, not, Option, none, some, List, [], ◌∷◌, ◌++◌,
  ◌==◌, leb, if◌then◌else◌, length, load, map, set, store, take, ◌>>=◌,
}
use mx3bot.CString.{Str, is_empty, strncpy}
use mx3bot.CString.Number.{atoi, format_int}
use mx3bot.Config.Write.{or_null}
use mx3bot.Strtok.{strtok}
use mx3bot.Table.{first_index}
use mx3bot.User.{Users}
use mx3bot.User.Session.{user_update}
use mx3bot.Connection.{Conn, Connections, Waiting, change, connection_find, is_closed, queue_msgs}

-- What send_to_child() passes to write(), with the descriptor.
unfoldable pub written : Conn → Str → Option (ℕ × Str)
written c text =
    if is_closed c then none else (c.fd >>= λ fd. some (fd, take 510 text ++ b'\n' ∷ []))

abbrev pub add_sent : Option (ℕ × Str) → Connections → Connections
add_sent none s = s
add_sent (some w) s = record s { sent = s.sent ++ w ∷ [] }

was_sent : (ℕ → Str → Bool) → Option (ℕ × Str) → Bool
was_sent write none = false
was_sent write (some (fd, text)) = write fd text

-- `write` says whether write() succeeds; `false` is -1.
unfoldable pub send_to_child :
    (ℕ → Str → Bool) → ℕ → Str → Connections → Option (Connections × Bool)
unfolding load written was_sent
send_to_child write cid text s =
    load s.conns cid >>= λ c. some (add_sent (written c text) s, was_sent write (written c text))

-- The text after its format.
unfoldable pub connection_send : (ℕ → Str → Bool) → Str → Connections → Option (Connections × Bool)
unfolding send_to_child
connection_send write text s = s.current >>= λ cid. send_to_child write cid (take 511 text) s

abbrev pub is_unused : Waiting → Bool
is_unused w = elim w.qid [ none ↦ true | some q ↦ false ]

abbrev wait_for : ℕ → Waiting → Waiting
wait_for i w = record w { qid = some i }

abbrev change_waiting : (Waiting → Waiting) → ℕ → List Waiting → List Waiting
change_waiting f j [] = []
change_waiting f zero (w ∷ ws) = f w ∷ ws
change_waiting f (suc j) (w ∷ ws) = w ∷ change_waiting f j ws

-- The loop over the texts, from an index on: the texts, what the connection waits for, and whether it
-- returned 0. Where the connection waits for as much as it can the loop goes on.
unfoldable pub queue_loop : Str → List Waiting → ℕ → List Str → List Str × List Waiting × Bool
unfolding first_index
queue_loop text ws i [] = ([], ws, false)
queue_loop text ws i (t ∷ ts) =
    let (ts', ws', r) = queue_loop text ws (i + 1) ts in
    if is_empty t
    then elim (first_index is_unused ws) [
      | some j ↦ (text ∷ ts, change_waiting (wait_for i) j ws, true)
      | none ↦ (text ∷ ts', ws', r)
    ]
    else (t ∷ ts', ws', r)

queue_for : Str → Connections → ℕ → Option (Connections × Bool)
unfolding queue_loop load
queue_for text s cid = load s.conns cid >>= λ c.
    (let (ts, ws, r) = queue_loop (take 511 text) c.waiting 0 s.texts in
      some
        (record s { texts = ts; conns = change (λ c'. record c' { waiting = ws }) cid s.conns }, r))

queue_found : Str → Connections → Option ℕ → Option (Connections × Bool)
unfolding queue_for
queue_found text s none = some (s, false)
queue_found text s (some cid) = queue_for text s cid

-- The text after its format. The delay is not used.
unfoldable pub connection_queue : Str → ℕ → Str → Connections → Option (Connections × Bool)
unfolding queue_found connection_find
connection_queue cname delay text s = queue_found text s (connection_find cname s.conns)

-- One message of the connection that is due at `now`: it is sent, and the text with the index of the
-- place where the connection waits for it is cleared.
module _ (now : ℕ) (c : Conn) where
  flush_one : ℕ → Waiting → List Str → List (ℕ × Str) → Option (Waiting × List Str × List (ℕ × Str))
  unfolding load written
  flush_one i w texts sent = elim w.qid [
    | none ↦ some (w, texts, sent)
    | some q ↦
        let due : Option (Waiting × List Str × List (ℕ × Str)) = load texts q >>= λ text. some (
          record w { qid = none },
          set texts i [],
          elim (written c text) [ none ↦ sent | some x ↦ sent ++ x ∷ [] ],
        ) in
        if leb w.time_due now then due else some (w, texts, sent)
  ]

  flush :
      ℕ
      → List Waiting
      → List Str
      → List (ℕ × Str)
      → Option (List Waiting × List Str × List (ℕ × Str))
  unfolding flush_one
  flush i [] texts sent = some ([], texts, sent)
  flush i (w ∷ ws) texts sent = flush_one i w texts sent >>= λ (w', texts', sent').
      flush (i + 1) ws texts' sent' >>= λ (ws', texts'', sent''). some (w' ∷ ws', texts'', sent'')

abbrev ok_update : Str
ok_update = b'O' ∷ b'K' ∷ b' ' ∷ b'U' ∷ b'P' ∷ b'D' ∷ b'A' ∷ b'T' ∷ b'E' ∷ []

abbrev ok_send : Str
ok_send = b'O' ∷ b'K' ∷ b' ' ∷ b'S' ∷ b'E' ∷ b'N' ∷ b'D' ∷ []

abbrev fail_send : Str
fail_send = b'F' ∷ b'A' ∷ b'I' ∷ b'L' ∷ b' ' ∷ b'S' ∷ b'E' ∷ b'N' ∷ b'D' ∷ []

abbrev ok_hello : Str
ok_hello = b'O' ∷ b'K' ∷ b' ' ∷ b'H' ∷ b'E' ∷ b'L' ∷ b'L' ∷ b'O' ∷ []

abbrev pub nick_word : Str
nick_word = b'N' ∷ b'I' ∷ b'C' ∷ b'K' ∷ b' ' ∷ []

-- The child is told of a new nick, if there is one.
nick_changed : ℕ → Conn → Connections → Connections
unfolding written strncpy
nick_changed cid c s =
    let told = add_sent (written c (nick_word ++ c.new_nick)) s in
    if is_empty c.new_nick then s else record told {
      conns = change (λ c'. record c' { nick = strncpy 32 c.new_nick; new_nick = [] }) cid s.conns;
    }

-- time() returns `now` at each call.
unfoldable pub server_update : ℕ → ℕ → ℕ → Connections × Users → Option (Connections × Users)
unfolding load flush nick_changed written user_update
server_update now purge_delay cid (s, users) = load s.conns cid >>= λ c.
    flush now c 0 c.waiting s.texts s.sent >>= λ (ws, texts, sent). some (
      add_sent (written c ok_update) (
          nick_changed cid c (record s {
            conns = change (λ c'. record c' { waiting = ws }) cid s.conns;
            texts = texts;
            sent = sent;
          })),
      user_update now purge_delay users,
    )

-- The loop goes on after a free place: each gets the message, and each is answered.
send_loop : Conn → Str → List Str → List (ℕ × Str) → List Str × List (ℕ × Str)
unfolding written
send_loop c text [] sent = ([], sent)
send_loop c text (t ∷ ts) sent =
    let answer : List (ℕ × Str) = elim (written c ok_send) [
      | none ↦ sent
      | some x ↦ sent ++ x ∷ []
    ] in
    let (ts', sent') = send_loop c text ts (if is_empty t then answer else sent) in
    ((if is_empty t then text else t) ∷ ts', sent')

unfoldable pub server_send : ℕ → Option Str → Connections → Option Connections
unfolding load send_loop written strtok atoi format_int
server_send cid p s = load s.conns cid >>= λ c. p >>= λ p'.
    (let (target, rest) = strtok p' (b' ' ∷ []) in
      let msg = (strtok rest []).0 in
      target >>= λ t.
      (let text = take 511 (format_int (atoi t) ++ b' ' ∷ or_null msg) in
        let (ts, sent) = send_loop c text s.texts s.sent in
        some (add_sent (written c fail_send) (record s { texts = ts; sent = sent }))))

word_of : Option Str → Option Str
unfolding strtok
word_of none = none
word_of (some p) = (strtok p (b' ' ∷ [])).0

-- `open_fifo` gives the descriptor of a path.
unfoldable pub server_hello :
    (Option Str → Option ℕ) → ℕ → Option Str → Connections → Option Connections
unfolding load written word_of
server_hello open_fifo cid p s = load s.conns cid >>= λ c.
    (let c' : Conn = record c { fd = open_fifo (word_of p) } in
      let s' : Connections = record s {
        conns = change (λ x. record x { fd = open_fifo (word_of p) }) cid s.conns;
      } in
      elim c'.fd [ none ↦ some s' | some fd ↦ some (add_sent (written c' ok_hello) s') ])
