-- ===== src/Connection/Count.antt =====
-- src/connection.c: the count of connections, by which the parent knows when to end.
use mx3bot.Base.{
  sym, ◌&&◌, load, some_eq, subst, ◌≡◌, refl, ◌∙◌, ap, ℕ, zero, suc, ◌+◌, Bool, true, false, not,
  Bool-cases, Option-cases, inl, inr, Option, some, none, List, [], ◌∷◌, arith, map,
}
use mx3bot.Base.Int.{ℤ, pos}
use mx3bot.CString.{Str}
use mx3bot.Table.{first_index, tally}
use mx3bot.Connection.{
  Conn, Connections, change, changed_at, index_meant, told, closed_at, con_closed, reset,
  tell_conns, connection_close, connection_init, connection_open, connection_open_dcc,
  connection_set_nick, connection_set_prefix, connection_set_target, connection_shutdown, forked,
  is_closed, is_pid, one_less, one_more, opened_at,
}

abbrev is_open : Conn → Bool
is_open c = not (is_closed c)

-- `count` is the number of entries that are not closed.
abbrev pub HasCount : Connections → Type 0
HasCount s = s.count ≡ pos (tally is_open s.conns)

tally-change_same :
    (f : Conn → Conn)
    → ((c : Conn) → is_closed (f c) ≡ is_closed c)
    → (i : ℕ) (xs : List Conn) → tally is_open (change f i xs) ≡ tally is_open xs
unfolding tally
tally-change_same f h i [] = refl
tally-change_same f h zero (c ∷ xs) = ground (arith, h c)
tally-change_same f h (suc i) (c ∷ xs) = ground (arith, tally-change_same f h i xs)

tally-change_opened :
    (f : Conn → Conn)
    → ((c : Conn) → is_closed (f c) ≡ false)
    → (i : ℕ) (xs : List Conn) → first_index is_closed xs ≡ some i
    → tally is_open (change f i xs) ≡ tally is_open xs + 1
unfolding tally first_index
tally-change_opened f h i [] e = cc
tally-change_opened f h zero (c ∷ xs) e = ground (arith, h c, e)
tally-change_opened f h (suc i) (c ∷ xs) e = ground (arith, tally-change_opened f h i xs)

tally-change_closed :
    (f : Conn → Conn) (q : Conn → Bool)
    → ((c : Conn) → is_closed (f c) ≡ true)
    → ((c : Conn) → q c ≡ true → is_closed c ≡ false)
    → (i : ℕ) (xs : List Conn) → first_index q xs ≡ some i
    → tally is_open xs ≡ suc (tally is_open (change f i xs))
unfolding tally first_index
tally-change_closed f q h k i [] e = cc
tally-change_closed f q h k zero (c ∷ xs) e = ground (arith, h c, k c, e)
tally-change_closed f q h k (suc i) (c ∷ xs) e = ground (arith, tally-change_closed f q h k i xs)

one_more_lem : (n : ℕ) (k : ℤ) → k ≡ pos n → one_more k ≡ pos (n + 1)
one_more_lem n k e = rw e refl

one_less_lem : (n : ℕ) (k : ℤ) → k ≡ pos (suc n) → one_less k ≡ pos n
one_less_lem n k e = rw e refl

-- An entry is filled in, and the process is noted.
opened_at-HasCount :
    (s : Connections) (f : Conn → Conn) (child : ℕ)
    → ((c : Conn) → is_closed (f c) ≡ false)
    → (o : Option ℕ) → first_index is_closed s.conns ≡ o
    → HasCount s
    → HasCount (opened_at s f (some child) o).0
unfolding opened_at forked
opened_at-HasCount s f child h none e k = k
opened_at-HasCount s f child h (some i) e k =
    let filled = change f i s.conns in
    one_more_lem (tally is_open s.conns) s.count k
    ∙ ap pos (
        omega (
          arith,
          tally-change_opened f h i s.conns e,
          tally-change_same (λ c. record c { pid = some child }) (λ c. refl) i filled,
        ))

closed_at-HasCount :
    (s : Connections) (child : Option ℕ) (o : Option ℕ)
    → first_index (λ (c : Conn). not (is_closed c) && is_pid c.pid child) s.conns ≡ o
    → HasCount s
    → HasCount (closed_at s o).0
unfolding closed_at
closed_at-HasCount s child none e k = k
closed_at-HasCount s child (some i) e k =
    let shut : Conn → Conn = λ c. record c { type = con_closed; fd = none; pid = none } in
    one_less_lem (tally is_open (change shut i s.conns)) s.count (
      k
      ∙ ap pos (
          tally-change_closed shut (λ c. not (is_closed c) && is_pid c.pid child) (λ c. refl)
            (λ c q. ground (arith, q)) i s.conns e))

-- What the parent does to its table of connections.
pub data Step : Connections → Connections → Type 0 where
  opens :
      {s : Connections} (name addr : Str) (port : ℕ) (nick : Str) (prefix child : ℕ)
      → Step s (connection_open name addr port nick prefix (some child) s).0
  opens_dcc :
      {s : Connections} (parent : ℕ) (addr : Str) (port : ℕ) (uid : ℤ) (child : ℕ)
      → Step s (connection_open_dcc parent addr port uid (some child) s).0
  closes : {s : Connections} (child : Option ℕ) → Step s (connection_close child s).0
  shuts_down : {s : Connections} (reason : Str) → Step s (connection_shutdown reason s)
  aims_at : {s : Connections} (cid : Option ℕ) → Step s (connection_set_target cid s)
  prefixes :
      {s s' : Connections} (cid : Option ℕ) (prefix : ℕ)
      → connection_set_prefix cid prefix s ≡ some s'
      → Step s s'
  renames :
      {s s' : Connections} (cid : Option ℕ) (nick : Str)
      → connection_set_nick cid nick s ≡ some s'
      → Step s s'

-- The states of a parent that could open its fifo, where every fork() succeeds.
pub data Reachable : Connections → Type 0 where
  starts : (s : Connections) → Reachable (connection_init true s).0
  goes_on : {s s' : Connections} → Reachable s → Step s s' → Reachable s'

tally-reset : (xs : List Conn) → tally is_open (map reset xs) ≡ 0
unfolding tally
tally-reset [] = refl
tally-reset (c ∷ xs) = omega (arith, tally-reset xs)

told-is_closed : (i : ℕ) (c : Conn) → is_closed (told i c) ≡ is_closed c
told-is_closed i c = elim (Bool-cases (is_closed c)) [ inl e ↦ rw e e | inr e ↦ rw e e ]

tally-tell_conns : (i : ℕ) (xs : List Conn) → tally is_open (tell_conns i xs) ≡ tally is_open xs
unfolding tally tell_conns
tally-tell_conns i [] = refl
tally-tell_conns i (c ∷ xs) = ground (arith, told-is_closed i c, tally-tell_conns (i + 1) xs)

changed_at-HasCount :
    (cid : Option ℕ) (f : Conn → Conn)
    → ((c : Conn) → is_closed (f c) ≡ is_closed c)
    → (s s' : Connections) → changed_at cid f s ≡ some s'
    → HasCount s
    → HasCount s'
unfolding changed_at
changed_at-HasCount cid f h s s' e k = elim (Option-cases (index_meant cid s)) [
  | inl none_meant ↦ let bad = rw none_meant at e in cc
  | inr (i, meant) ↦ elim (Option-cases (load s.conns i)) [
    | inl missing ↦ let bad = rw (meant, missing) at e in cc
    | inr (c, there) ↦
        let same = some_eq (rw (meant, there) at e) in
        subst HasCount same (k ∙ ap pos (sym (tally-change_same f h i s.conns)))
  ]
]

Step-HasCount : {s s' : Connections} → Step s s' → HasCount s → HasCount s'
unfolding connection_open connection_open_dcc connection_close connection_shutdown
    connection_set_target connection_set_prefix connection_set_nick
Step-HasCount {s} (opens name addr port nick prefix child) k =
    opened_at-HasCount s _ child (λ c. refl) _ refl k
Step-HasCount {s} (opens_dcc parent addr port uid child) k =
    opened_at-HasCount s _ child (λ c. refl) _ refl k
Step-HasCount {s} (closes child) k = closed_at-HasCount s child _ refl k
Step-HasCount {s} (shuts_down reason) k = k ∙ sym (ap pos (tally-tell_conns 0 s.conns))
Step-HasCount (aims_at cid) k = k
Step-HasCount {s} {s'} (prefixes cid prefix e) k = changed_at-HasCount cid _ (λ c. refl) s s' e k
Step-HasCount {s} {s'} (renames cid nick e) k = changed_at-HasCount cid _ (λ c. refl) s s' e k

-- From `connection_init` on, through every `connection_open` and `connection_open_dcc` but where
-- fork() fails, every `connection_close`, `connection_shutdown`, `connection_set_target`,
-- `connection_set_prefix` and `connection_set_nick`, `count` is the number of entries that are not
-- closed.
pub Reachable-HasCount : (s : Connections) → Reachable s → HasCount s
unfolding connection_init
Reachable-HasCount _ (starts s) = sym (ap pos (tally-reset s.conns))
Reachable-HasCount _ (goes_on before step) = Step-HasCount step (Reachable-HasCount _ before)
