-- ===== src/Connection/Queue/Tests.antt =====
-- A child that does not read its messages.
use mx3bot.Base.{◌≡◌, refl, false, none, some, [], ◌∷◌, replicate, load}
use mx3bot.Base.Int.{pos}
use mx3bot.CString.{Str, str_case_eq}
use mx3bot.Table.{first_index}
use mx3bot.Connection.{Conn, Connections, con_client, connection_find, queue_msgs, queue_size}
use mx3bot.Connection.Queue.{connection_queue}
use mx3bot.Connection.Queue.Laws.{connection_queue-is_unused, flooded}

abbrev net : Str
net = b'n' ∷ b'e' ∷ b't' ∷ []

abbrev busy : Conn
busy = record {
  type = con_client;
  addr = net;
  port = 6667;
  fd = some 4;
  pid = some 99;
  waiting = replicate queue_msgs (record { time_due = 0; qid = some 0 });
  name = net;
  nick = [];
  prefix = b'!';
  new_nick = [];
  parent = 0;
  uid = pos 0;
}

abbrev table : Connections
table = record {
  conns = busy ∷ [];
  texts = replicate queue_size [];
  current = none;
  count = pos 1;
  sent = [];
}

abbrev hi : Str
hi = b'h' ∷ b'i' ∷ []

connection_queue-is_unused_example :
    (connection_queue net 0 hi table ≡ some (flooded hi table, false))
    × (connection_queue net 0 net (flooded hi table) ≡ some (flooded hi table, false))
unfolding connection_find str_case_eq first_index load
connection_queue-is_unused_example =
    connection_queue-is_unused hi table refl net net net 0 0 0 busy refl refl refl
