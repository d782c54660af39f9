-- ===== src/Connection/Queue/Laws.antt =====
-- src/connection.c: connection_queue() where a connection waits for as many messages as it can.
use mx3bot.Base.{
  ℕ, zero, suc, ◌+◌, ◌≡◌, refl, ap, sym, false, Option, none, some, List, [], ◌∷◌, if◌then◌else◌,
  load, load-inside, map, some_eq, take, Bool-cases, inl, inr,
}
use mx3bot.Base.Int.{pos}
use mx3bot.CString.{Str, is_empty}
use mx3bot.Table.{first_index, first_index-lt}
use mx3bot.Connection.{Conn, Connections, Waiting, con_closed, change, connection_find}
use mx3bot.Connection.Queue.{connection_queue, is_unused, queue_for, queue_found, queue_loop}

-- Every place without a text gets this one.
abbrev pub filled_in : Str → Str → Str
filled_in text t = if is_empty t then text else t

queue_loop_full :
    (text : Str) (ws : List Waiting) (i : ℕ) (ts : List Str)
    → first_index is_unused ws ≡ none
    → queue_loop text ws i ts ≡ (map (filled_in text) ts, ws, false)
unfolding queue_loop
queue_loop_full text ws i [] h = refl
queue_loop_full text ws i (t ∷ ts) h = elim (Bool-cases (is_empty t)) [
  | inl e ↦ rw (e, h, queue_loop_full text ws (i + 1) ts h) refl
  | inr e ↦ rw (e, queue_loop_full text ws (i + 1) ts h) refl
]

filled_text : (text t : Str) → is_empty text ≡ false → is_empty (filled_in text t) ≡ false
filled_text text [] h = h
filled_text text (c ∷ t) h = refl

-- No text fits any more, for any connection.
queue_loop_used :
    (text text' : Str) (ws : List Waiting) (i : ℕ) (ts : List Str)
    → is_empty text ≡ false
    → queue_loop text' ws i (map (filled_in text) ts) ≡ (map (filled_in text) ts, ws, false)
unfolding queue_loop
queue_loop_used text text' ws i [] h = refl
queue_loop_used text text' ws i (t ∷ ts) h =
    rw (filled_text text t h, queue_loop_used text text' ws (i + 1) ts h) refl

change_same :
    (conns : List Conn) (i : ℕ) (c : Conn)
    → load conns i ≡ some c
    → change (λ x. record x { waiting = c.waiting }) i conns ≡ conns
unfolding load
change_same [] i c h = refl
change_same (x ∷ conns) zero c h =
    ap (λ y. record x { waiting = y.waiting } ∷ conns) (sym (some_eq h))
change_same (x ∷ conns) (suc i) c h = ap (◌∷◌ x) (change_same conns i c h)

not_empty : (text : Str) → is_empty text ≡ false → is_empty (take 511 text) ≡ false
not_empty [] h = h
not_empty (c ∷ text) h = refl

-- An entry of the table.
abbrev blank : Conn
blank = record {
  type = con_closed;
  addr = [];
  port = 0;
  fd = none;
  pid = none;
  waiting = [];
  name = [];
  nick = [];
  prefix = 0;
  new_nick = [];
  parent = 0;
  uid = pos 0;
}

-- All texts are in use after this.
abbrev pub flooded : Str → Connections → Connections
flooded text s = record s { texts = map (filled_in (take 511 text)) s.texts }

module _ (text : Str) (s : Connections) (t : is_empty text ≡ false) where
  refused_for :
      (text' : Str) (cid : ℕ) (c : Conn)
      → load s.conns cid ≡ some c
      → queue_for text' (flooded text s) cid ≡ some (flooded text s, false)
  unfolding queue_for
  refused_for text' cid c h =
      rw
        (
          h,
          queue_loop_used (take 511 text) (take 511 text') c.waiting 0 s.texts (not_empty text t),
          change_same s.conns cid c h,
        )
        refl

  flooded_for :
      (cid : ℕ) (c : Conn)
      → load s.conns cid ≡ some c
      → first_index is_unused c.waiting ≡ none
      → queue_for text s cid ≡ some (flooded text s, false)
  unfolding queue_for
  flooded_for cid c h full =
      rw (h, queue_loop_full (take 511 text) c.waiting 0 s.texts full, change_same s.conns cid c h)
        refl

  refused :
      (cname' text' : Str) (o : Option ℕ)
      → connection_find cname' s.conns ≡ o
      → queue_found text' (flooded text s) o ≡ some (flooded text s, false)
  unfolding queue_found connection_find load
  refused cname' text' none e = refl
  refused cname' text' (some cid) e =
      refused_for text' cid _ (load-inside s.conns cid blank (first_index-lt _ s.conns cid e))

  -- Where a connection waits for as many messages as it can, `connection_queue` with a text that is
  -- not empty puts it into every free place of the queue of all connections and returns -1, and the
  -- next `connection_queue`, for whatever connection, returns -1 and changes nothing.
  pub connection_queue-is_unused :
      (cname cname' text' : Str) (delay delay' cid : ℕ) (c : Conn)
      → connection_find cname s.conns ≡ some cid
      → load s.conns cid ≡ some c
      → first_index is_unused c.waiting ≡ none
      → (connection_queue cname delay text s ≡ some (flooded text s, false))
        × (connection_queue cname' delay' text' (flooded text s) ≡ some (flooded text s, false))
  unfolding connection_queue
  connection_queue-is_unused cname cname' text' delay delay' cid c e h full = (
    rw (e) (flooded_for cid c h full),
    refused cname' text' (connection_find cname' s.conns) refl,
  )
