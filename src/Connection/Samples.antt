-- ===== src/Connection/Samples.antt =====
-- A bot that is connected to one network, where ann is in sight.
use mx3bot.Base.{◌≡◌, false, true, none, some, List, Option, [], ◌∷◌, ◌++◌}
use mx3bot.Base.Int.{pos}
use mx3bot.CString.{Str}
use mx3bot.Irc.Channel.{static_channels}
use mx3bot.Irc.Client.{Client, Kind, stay}
use mx3bot.Irc.Handler.{Info}
use mx3bot.Irc.Queue.{Allocator, Item}
use mx3bot.User.{User}
use mx3bot.Connection.{Conn, con_client}
use mx3bot.Connection.Child.{Child}
use mx3bot.Connection.Parent.{Parent, System}
use mx3bot.Connection.Wire.{answer_line}

pub no_array : {P : Type 0} {a : List Item} → ◌≡◌ {A = Option (List Item)} none (some a) → P
no_array e = cc

abbrev pub no_memory : Allocator
no_memory = record {
  malloc = λ n. none;
  realloc = λ a n. none;
  malloc_length = λ n a e. no_array e;
  realloc_length = λ a n b e. no_array e;
  realloc_keeps = λ a n b e h. no_array e;
}

abbrev pub net : Str
net = b'n' ∷ b'e' ∷ b't' ∷ []

abbrev pub ann : Str
ann = b'a' ∷ b'n' ∷ b'n' ∷ []

abbrev pub the_bot : Str
the_bot = b'b' ∷ b'o' ∷ b't' ∷ []

abbrev pub connected : Conn
connected = record {
  type = con_client;
  addr = net;
  port = 6667;
  fd = some 4;
  pid = some 99;
  waiting = [];
  name = net;
  nick = the_bot;
  prefix = b'!';
  new_nick = [];
  parent = 0;
  uid = pos 0;
}

abbrev pub ann_in_sight : User
ann_in_sight = record {
  nick = ann;
  user = ann;
  host = net;
  server = pos 0;
  chan = [];
  id = pos 0;
  lost = 0;
}

abbrev pub parent : Parent
parent = record {
  connections = record {
    conns = connected ∷ [];
    texts = [];
    current = none;
    count = pos 1;
    sent = [];
  };
  users = record { user = ann_in_sight ∷ []; n_grow = 2; channel = [] };
  logs = record { log = []; n_grow = 2; logpath = []; dummy_mode = 1; lines = []; echoed = [] };
  interp = [];
}

-- Scripts do nothing.
abbrev pub system : System
system = record {
  script_exec = λ cid name user args s. some s;
  db = record {
    userdb_find_bymask3 = λ nick user host. pos 0;
    userdb_check_password = λ id pw. false;
  };
  now = 100;
  stamp = [];
  purge_delay = 10;
  memory = true;
  junk = ann_in_sight;
  unset = [];
  fopen = λ path. true;
  open_fifo = λ path. some 5;
}

abbrev pub the_client : Client
the_client = record {
  output = record {
    queue = record {
      heap_capacity = none;
      heap_size = 1;
      heap_position = 5;
      heap_item = [];
      timer = 0;
    };
    sent = [];
  };
  channels = static_channels;
  botnick = the_bot;
  quit_message = [];
  quit = stay;
  type = Kind.irc;
}

-- The answer of the parent is there.
abbrev pub child_told : Str → Child
child_told word = record {
  client = the_client;
  input = some (answer_line word ++ []);
  output = [];
  term_count = 0;
}

abbrev pub mx : Str
mx = b'#' ∷ b'm' ∷ b'x' ∷ []

abbrev pub said : Info
said = record {
  type = 1;
  server = pos 0;
  nick = ann;
  user = ann;
  host = net;
  target = mx;
  param = b'h' ∷ b'i' ∷ [];
  param2 = [];
}
