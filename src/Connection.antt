-- ===== src/Connection.antt =====
-- src/connection.c: the table of connections, each a child process, and the messages that the parent
-- holds for them. A result of `none` is an access outside an array.
pub mod Words
pub mod Line
pub mod Fifo
pub mod Signals
pub mod Wire
pub mod Samples
mod Tests
pub mod Queue
pub mod Count
pub mod Parent
pub mod Child
use mx3bot.Base.{
  ℕ, zero, suc, ◌+◌, ◌-◌, Bool, true, false, ◌&&◌, not, Option, none, some, List, [], ◌∷◌, ◌++◌,
  ◌==◌, if◌then◌else◌, length, load, map, replicate, set, store, take, ◌>>=◌,
}
use mx3bot.Base.Int.{ℤ, pos, negsuc}
use mx3bot.CString.{Str, is_empty, str_case_eq, strncpy}
use mx3bot.Table.{first_index}

abbrev pub n_connections : ℕ
n_connections = 32

abbrev pub queue_size : ℕ
queue_size = 512

abbrev pub queue_msgs : ℕ
queue_msgs = 64

-- CON_*
pub data ConType : Type 0 where
  con_closed con_client con_dcc con_telnet : ConType

-- struct connection_queue; an index of -1 is `none`.
pub record Waiting : Type 0 where
  pub time_due : ℕ
  pub qid : Option ℕ

-- struct connection. A descriptor or a process of -1 is `none`.
pub record Conn : Type 0 where
  pub type : ConType
  pub addr : Str
  pub port : ℕ
  pub fd : Option ℕ
  pub pid : Option ℕ
  pub waiting : List Waiting
  pub name : Str
  pub nick : Str
  pub prefix : ℕ
  pub new_nick : Str
  pub parent : ℕ
  pub uid : ℤ

-- The static variables of the parent: `texts` is `queue`, and `sent` what was passed to write(), with
-- the descriptor.
pub record Connections : Type 0 where
  pub conns : List Conn
  pub texts : List Str
  pub current : Option ℕ
  pub count : ℤ
  pub sent : List (ℕ × Str)

abbrev pub nothing : Waiting
nothing = record { time_due = 0; qid = none }

abbrev reset : Conn → Conn
reset c = record c {
  type = con_closed;
  name = [];
  addr = [];
  port = 0;
  fd = none;
  waiting = replicate queue_msgs nothing;
}

-- `opened` says whether the fifo could be opened; `false` is -1.
unfoldable pub connection_init : Bool → Connections → Connections × Bool
connection_init opened s =
    let cleared = record s { conns = map reset s.conns; texts = replicate queue_size [] } in
    if opened then (record cleared { current = none; count = pos 0 }, true) else (cleared, false)

abbrev pub is_closed : Conn → Bool
is_closed c = elim c.type [
  | con_closed ↦ true
  | con_client ↦ false
  | con_dcc ↦ false
  | con_telnet ↦ false
]

abbrev disconnect : Str
disconnect = b'D' ∷ b'I' ∷ b'S' ∷ b'C' ∷ b'O' ∷ b'N' ∷ b'N' ∷ b'E' ∷ b'C' ∷ b'T' ∷ b' ' ∷ []

abbrev told : ℕ → Conn → Conn
told i c = if is_closed c then c else record c {
  waiting = set (replicate queue_msgs nothing) 0 (record { time_due = 0; qid = some i });
}

-- The connections from an index on, and then the texts: the one of each connection that is open is
-- the message to disconnect, which has to fit.
tell_conns : ℕ → List Conn → List Conn
tell_conns i [] = []
tell_conns i (c ∷ cs) = told i c ∷ tell_conns (i + 1) cs

tell_texts : Str → ℕ → List Conn → List Str → List Str
tell_texts reason i [] texts = texts
tell_texts reason i (c ∷ cs) texts =
    tell_texts reason (i + 1) cs (if is_closed c then texts else set texts i (disconnect ++ reason))

unfoldable pub connection_shutdown : Str → Connections → Connections
unfolding tell_conns tell_texts
connection_shutdown reason s = record s {
  conns = tell_conns 0 s.conns;
  texts = tell_texts reason 0 s.conns s.texts;
}

unfoldable pub connection_find : Str → List Conn → Option ℕ
unfolding first_index str_case_eq
connection_find cname conns = first_index (λ c. not (is_closed c) && str_case_eq c.name cname) conns

-- `count++` and `count--`
abbrev one_more : ℤ → ℤ
one_more (pos n) = pos (n + 1)
one_more (negsuc zero) = pos 0
one_more (negsuc (suc n)) = negsuc n

abbrev one_less : ℤ → ℤ
one_less (pos zero) = negsuc 0
one_less (pos (suc n)) = pos n
one_less (negsuc n) = negsuc (suc n)

abbrev pub change : (Conn → Conn) → ℕ → List Conn → List Conn
change f i [] = []
change f zero (c ∷ cs) = f c ∷ cs
change f (suc i) (c ∷ cs) = c ∷ change f i cs

-- The parent's side of fork(), whose result is a process, or `none`, once the entry is filled in.
forked : Connections → ℕ → Option ℕ → Connections × Option ℕ
forked s i none = (s, none)
forked s i (some child) = (
  record s {
    conns = change (λ c. record c { pid = some child }) i s.conns;
    count = one_more s.count;
  },
  some i,
)

opened_at : Connections → (Conn → Conn) → Option ℕ → Option ℕ → Connections × Option ℕ
unfolding forked
opened_at s f child none = (s, none)
opened_at s f child (some i) = forked (record s { conns = change f i s.conns }) i child

unfoldable pub connection_open :
    Str → Str → ℕ → Str → ℕ → Option ℕ → Connections → Connections × Option ℕ
unfolding opened_at first_index strncpy
connection_open name addr port nick prefix child s =
    opened_at s
      (λ c. record c {
        name = strncpy 32 name;
        addr = strncpy 128 addr;
        nick = strncpy 32 nick;
        port = port;
        type = con_client;
        prefix = prefix;
      })
      child (first_index is_closed s.conns)

unfoldable pub connection_open_dcc :
    ℕ → Str → ℕ → ℤ → Option ℕ → Connections → Connections × Option ℕ
unfolding opened_at first_index strncpy
connection_open_dcc parent addr port uid child s =
    opened_at s
      (λ c. record c {
        addr = strncpy 128 addr;
        port = port;
        type = con_dcc;
        name = [];
        nick = [];
        prefix = 0;
        new_nick = [];
        parent = parent;
        uid = uid;
      })
      child (first_index is_closed s.conns)

abbrev is_pid : Option ℕ → Option ℕ → Bool
is_pid none none = true
is_pid none (some b) = false
is_pid (some a) none = false
is_pid (some a) (some b) = a == b

closed_at : Connections → Option ℕ → Connections × Bool
closed_at s none = (s, false)
closed_at s (some i) = (
  record s {
    conns = change (λ c. record c { type = con_closed; fd = none; pid = none }) i s.conns;
    count = one_less s.count;
  },
  true,
)

unfoldable pub connection_close : Option ℕ → Connections → Connections × Bool
unfolding closed_at first_index
connection_close child s =
    closed_at s (first_index (λ c. not (is_closed c) && is_pid c.pid child) s.conns)

unfoldable pub connection_set_target : Option ℕ → Connections → Connections
connection_set_target cid s = record s { current = cid }

-- A `cid` of -1 is the current one.
abbrev index_meant : Option ℕ → Connections → Option ℕ
index_meant none s = s.current
index_meant (some cid) s = some cid

abbrev the_conn : Option ℕ → Connections → Option Conn
unfolding load
the_conn cid s = index_meant cid s >>= λ i. load s.conns i

changed_at : Option ℕ → (Conn → Conn) → Connections → Option Connections
unfolding load
changed_at cid f s = index_meant cid s >>= λ i.
    load s.conns i >>= λ c. some (record s { conns = change f i s.conns })

unfoldable pub connection_set_prefix : Option ℕ → ℕ → Connections → Option Connections
unfolding changed_at
connection_set_prefix cid prefix s = changed_at cid (λ c. record c { prefix = prefix }) s

unfoldable pub connection_get_prefix : Option ℕ → Connections → Option ℕ
unfolding the_conn
connection_get_prefix cid s = the_conn cid s >>= λ c. some c.prefix

name_of : Connections → Conn → Option Str
unfolding load
name_of s c =
    let parent : Option Str = load s.conns c.parent >>= λ c'. some c'.name in
    elim c.type [
      | con_closed ↦ parent
      | con_client ↦ some c.name
      | con_dcc ↦ parent
      | con_telnet ↦ parent
    ]

unfoldable pub connection_get_name : Option ℕ → Connections → Option Str
unfolding the_conn name_of
connection_get_name cid s = the_conn cid s >>= name_of s

unfoldable pub connection_get_nick : Option ℕ → Connections → Option Str
unfolding the_conn
connection_get_nick cid s = the_conn cid s >>= λ c. some c.nick

unfoldable pub connection_set_nick : Option ℕ → Str → Connections → Option Connections
unfolding changed_at strncpy
connection_set_nick cid nick s = changed_at cid (λ c. record c { new_nick = strncpy 32 nick }) s
